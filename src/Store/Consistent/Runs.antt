-- ===== src/Store/Consistent/Runs.antt =====
-- The invariant through `finish_run` of backend/src/store.rs.
use ryu_rooms.Prelude.{
  ◌≤◌, String, ◌≡◌, refl, subst, inl, inr, Bool, true, false, ◌&&◌, ◌==◌, arith, Bool-cases, eq_iff,
  Option, some, List, ◌++◌,
}
use mathlib.Core.List.{append-nil}
use ryu_rooms.Table.{count_where, update_where, find_where}
use ryu_rooms.Table.Counts.{count-update, count-update_split, count_of_find, find_where-test}
use ryu_rooms.Table.Newest.{count-trim_le}
use ryu_rooms.Table.Unique.{unique-snoc}
use ryu_rooms.Limits.{max_history_messages, max_retained_runs}
use ryu_rooms.Model.{is_active, run_status_text}
use ryu_rooms.Store.{RoomRow, MessageRow, RunRow, Db, RoomStore, External, Draw}
use ryu_rooms.Store.Read.{newer_message, newer_run}
use ryu_rooms.Store.Turns.{holds}
use ryu_rooms.Store.Runs.{RunTerminal, is_run, finished, unless_closed, settle, room_status_after}
use ryu_rooms.Store.Runs.Effect.{AnswerRows, nothing, kept, answer, settled, settle_cases}
use ryu_rooms.Store.Consistent.{IsConsistent, is_free}
use ryu_rooms.Store.Consistent.Rows.{
  room_ids-update, run_ids-update, run_rooms-update, active-update, IsShrunk, IsShrunk-IsConsistent,
}

-- A run that holds its room is the only one: ending it frees the room.
pub ending_frees :
    (runs : List RunRow) (p : RunRow → Bool) (f : RunRow → RunRow) (room_id : String)
    → count_where (holds room_id) runs ≤ 1
    → ((r : RunRow) → p r ≡ true → is_active (f r).status ≡ false)
    → 1 ≤ count_where (λ r. p r && holds room_id r) runs
    → count_where (holds room_id) (update_where p f runs) ≡ 0
ending_frees runs p f room_id u h k =
    omega (arith, count-update_split p (holds room_id) f runs (λ r e. ground (arith, h r e)))

-- A status that is not that of a closed room frees no other room.
pub free-other :
    (rooms : List RoomRow) (f : RoomRow → RoomRow) (room_id k : String)
    → ((r : RoomRow) → (f r).id ≡ r.id)
    → (room_id == k) ≡ false
    → count_where (is_free k) (update_where (λ r. r.id == room_id) f rooms)
      ≡ count_where (is_free k) rooms
free-other rooms f room_id k same h =
    count-update (λ r. r.id == room_id) (is_free k) f rooms
      (λ r e. ground (arith, same r, eq_iff r.id room_id, eq_iff r.id k, eq_iff room_id k))

module _ (x : External) (d : Draw) (room_id run_id : String) (terminal : RunTerminal) where
  answers_unique :
      (db : Db) (text : String) (rows : List MessageRow) (k : String)
      → AnswerRows x d room_id run_id terminal db text rows
      → count_where (λ (r : MessageRow). r.id == k) db.messages ≤ 1
      → count_where (λ (r : MessageRow). r.id == k) (db.messages ++ rows) ≤ 1
  answers_unique db text rows k (nothing _) u = rw append-nil u
  answers_unique db text rows k (kept sealed _ _ new e) u =
      rw e (unique-snoc (λ r. r.id) db.messages (answer x d room_id run_id terminal sealed) k u new)

  -- A run with a final status.
  abbrev pub IsFinal : Type 0
  IsFinal = is_active (run_status_text terminal.status) ≡ false

  settled-IsShrunk :
      (db : Db) (rows : List MessageRow) (message : Option String) (run : RunRow)
      → IsFinal
      → IsConsistent db
      → find_where (is_run room_id run_id) db.runs ≡ some run
      → is_active run.status ≡ true
      → IsShrunk db (settled x d room_id run_id terminal rows message db)
  settled-IsShrunk db rows message run final c found active = record {
    rooms = λ k. room_ids-update (λ r. r.id == room_id) at_end db.rooms k (λ r. refl);
    run_ids = λ k. omega (
      arith,
      trimmed (λ r. r.id == k),
      run_ids-update (is_run room_id run_id) end db.runs k (λ r. refl),
    );
    run_rooms = λ k. omega (
      arith,
      trimmed (λ r. r.room_id == k),
      run_rooms-update (is_run room_id run_id) end db.runs k (λ r. refl),
    );
    active = λ k. omega (
      arith,
      trimmed (holds k),
      active-update (is_run room_id run_id) end db.runs k (λ r e. final),
    );
    free = λ k. elim (Bool-cases (room_id == k)) [
      | inl e ↦ inl (
          subst
            (λ j.
              count_where (holds j) (settled x d room_id run_id terminal rows message db).runs ≡ 0)
            ((eq_iff room_id k).0 e) (omega (arith, trimmed (holds room_id), freed)))
      | inr e ↦ inr (omega (arith, free-other db.rooms at_end room_id k (λ r. refl) e))
    ];
  }
    where
      end : RunRow → RunRow
      end = finished terminal message (x.to_rfc3339 (d.now 0))

      at_end : RoomRow → RoomRow
      at_end r = record r {
        status = unless_closed r.status (room_status_after (run_status_text terminal.status));
        updated_at = x.to_rfc3339 (d.now 0);
      }

      trimmed :
          (q : RunRow → Bool)
          → count_where q (settled x d room_id run_id terminal rows message db).runs
            ≤ count_where q (update_where (is_run room_id run_id) end db.runs)
      trimmed q =
          count-trim_le (λ r. r.id) newer_run (λ r. r.room_id == room_id) q max_retained_runs
            (update_where (is_run room_id run_id) end db.runs)

      freed : count_where (holds room_id) (update_where (is_run room_id run_id) end db.runs) ≡ 0
      freed =
          ending_frees db.runs (is_run room_id run_id) end room_id (c.one_active room_id)
            (λ r e. final)
            (count_of_find (is_run room_id run_id) (holds room_id) db.runs run found
              (ground (arith, find_where-test (is_run room_id run_id) db.runs run found)))

  -- Finishing with a final status keeps the invariant, whatever `settle` returns.
  pub settle-IsConsistent :
      (s : RoomStore)
      → IsFinal
      → IsConsistent s.db
      → IsConsistent (settle x d room_id run_id terminal s).1.db
  settle-IsConsistent s final c = elim (settle_cases x d room_id run_id terminal s) [
    | inl (e, p) ↦ rw p c
    | inr (run, found, inl (over, p)) ↦ rw p c
    | inr (run, found, inr (active, (text, rows, message, o, a, p))) ↦ rw p (
        IsShrunk-IsConsistent s.db (settled x d room_id run_id terminal rows message s.db)
          (λ k. omega (
            arith,
            count-trim_le (λ (r : MessageRow). r.id) newer_message (λ r. r.room_id == room_id)
                (λ r. r.id == k) max_history_messages (s.db.messages ++ rows),
            answers_unique s.db text rows k a (c.one_message k),
          ))
          (settled-IsShrunk s.db rows message run final c found active) c)
  ]
