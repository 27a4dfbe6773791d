-- ===== src/Store/Consistent/Endings.antt =====
-- The invariant through `stop_run`, `append_delta` and `close_room` of backend/src/store.rs.
use ryu_rooms.Prelude.{
  ◌≤◌, String, ◌≡◌, refl, subst, inl, inr, ◌&&◌, ◌==◌, arith, Bool-cases, eq_iff,
}
use ryu_rooms.Table.{count_where, update_where}
use ryu_rooms.Table.Counts.{count-update, count-update_mono, count_mono}
use ryu_rooms.Store.{RoomRow, RunRow, Db, RoomStore, External, Draw}
use ryu_rooms.Store.Turns.{holds}
use ryu_rooms.Store.Runs.{canceled, unless_closed, stop_run, append_delta}
use ryu_rooms.Store.Runs.Stopping.{is_active_run, stopped, stop_run_cases}
use ryu_rooms.Store.Runs.Extending.{is_running_run, extended, append_delta_cases}
use ryu_rooms.Store.Closing.{close_room}
use ryu_rooms.Store.Closing.Effect.{is_open_room, closed_db, close_room_cases}
use ryu_rooms.Store.Consistent.{IsConsistent, is_free}
use ryu_rooms.Store.Consistent.Rows.{
  room_ids-update, run_ids-update, run_rooms-update, active-update, IsShrunk, IsShrunk-IsConsistent,
}
use ryu_rooms.Store.Consistent.Runs.{ending_frees, free-other}

module _ (x : External) (d : Draw) where
  stopped-IsShrunk :
      (room_id run_id message : String) (db : Db)
      → IsConsistent db
      → 1 ≤ count_where (is_active_run room_id run_id) db.runs
      → IsShrunk db (stopped x d run_id room_id message db)
  stopped-IsShrunk room_id run_id message db c found = record {
    rooms = λ k. room_ids-update (λ r. r.id == room_id) at_end db.rooms k (λ r. refl);
    run_ids =
        λ k. omega (arith, run_ids-update (is_active_run room_id run_id) end db.runs k (λ r. refl));
    run_rooms = λ k.
        omega (arith, run_rooms-update (is_active_run room_id run_id) end db.runs k (λ r. refl));
    active = λ k. active-update (is_active_run room_id run_id) end db.runs k (λ r e. refl);
    free = λ k. elim (Bool-cases (room_id == k)) [
      | inl e ↦ inl (
          subst (λ j. count_where (holds j) (stopped x d run_id room_id message db).runs ≡ 0)
            ((eq_iff room_id k).0 e) freed)
      | inr e ↦ inr (omega (arith, free-other db.rooms at_end room_id k (λ r. refl) e))
    ];
  }
    where
      end : RunRow → RunRow
      end = canceled message (x.to_rfc3339 (d.now 0))

      at_end : RoomRow → RoomRow
      at_end r = record r {
        status = unless_closed r.status "idle";
        updated_at = x.to_rfc3339 (d.now 1);
      }

      freed :
          count_where (holds room_id) (update_where (is_active_run room_id run_id) end db.runs) ≡ 0
      freed =
          ending_frees db.runs (is_active_run room_id run_id) end room_id (c.one_active room_id)
            (λ r e. refl)
            (omega (
              arith,
              found,
              count_mono (is_active_run room_id run_id)
                  (λ r. is_active_run room_id run_id r && holds room_id r) db.runs
                  (λ r e. ground arith),
            ))

  pub stop_run-IsConsistent :
      (given run_id : String) (s : RoomStore)
      → IsConsistent s.db
      → IsConsistent (stop_run x d given run_id s).1.db
  stop_run-IsConsistent given run_id s c = elim (stop_run_cases x d run_id given s) [
    | inl (e, p) ↦ rw p c
    | inr (room_id, message, _, _, found, _, p) ↦ rw p (
        IsShrunk-IsConsistent s.db (stopped x d run_id room_id message s.db) c.one_message
          (stopped-IsShrunk room_id run_id message s.db c found) c)
  ]

  extended-IsShrunk :
      (room_id run_id sealed : String) (db : Db)
      → IsShrunk db (extended x d room_id run_id sealed db)
  extended-IsShrunk room_id run_id sealed db = record {
    rooms = λ k. room_ids-update (λ r. r.id == room_id) _ db.rooms k (λ r. refl);
    run_ids = λ k.
        omega (arith, run_ids-update (is_running_run room_id run_id) longer db.runs k (λ r. refl));
    run_rooms = λ k.
        omega
          (arith, run_rooms-update (is_running_run room_id run_id) longer db.runs k (λ r. refl));
    active = λ k. omega (
      arith,
      count-update (is_running_run room_id run_id) (holds k) longer db.runs (λ r e. refl),
    );
    free = λ k. inr (
        omega
          (arith, count-update (λ r. r.id == room_id) (is_free k) touched db.rooms (λ r e. refl)));
  }
    where
      longer : RunRow → RunRow
      longer r = record r { partial_text = sealed }

      touched : RoomRow → RoomRow
      touched r = record r { updated_at = x.to_rfc3339 (d.now 0) }

  pub append_delta-IsConsistent :
      (room_id run_id delta : String) (s : RoomStore)
      → IsConsistent s.db
      → IsConsistent (append_delta x d room_id run_id delta s).1.db
  append_delta-IsConsistent room_id run_id delta s c =
      elim (append_delta_cases x d room_id run_id delta s) [
        | inl (e, p) ↦ rw p c
        | inr (run, current, sealed, _, _, _, _, _, p) ↦ rw p (
            IsShrunk-IsConsistent s.db (extended x d room_id run_id sealed s.db) c.one_message
              (extended-IsShrunk room_id run_id sealed s.db) c)
      ]

  closed_db-IsShrunk : (room_id : String) (db : Db) → IsShrunk db (closed_db x d room_id db)
  closed_db-IsShrunk room_id db = record {
    rooms = λ k. room_ids-update (is_open_room room_id) shut db.rooms k (λ r. refl);
    run_ids = λ k. omega arith;
    run_rooms = λ k. omega arith;
    active = λ k. omega arith;
    free = λ k. inr (
        count-update_mono (is_open_room room_id) (is_free k) (is_free k) shut db.rooms
          (λ r e q. absurd (ground arith)) (λ r e q. q));
  }
    where
      shut : RoomRow → RoomRow
      shut r = record r { status = "closed"; updated_at = x.to_rfc3339 (d.now 0) }

  pub close_room-IsConsistent :
      (given : String) (s : RoomStore)
      → IsConsistent s.db
      → IsConsistent (close_room x d given s).1.db
  close_room-IsConsistent given s c = elim (close_room_cases x d given s) [
    | inl (e, p) ↦ rw p c
    | inr (room_id, _, _, p) ↦ rw p (
        IsShrunk-IsConsistent s.db (closed_db x d room_id s.db) c.one_message
          (closed_db-IsShrunk room_id s.db) c)
  ]
