-- ===== src/Store/Runs/Stopping.antt =====
-- What stopping a run does to the database.
use ryu_rooms.Prelude.{
  ◌≤◌, String, ◌≡◌, ◌⊎◌, inl, inr, Bool, ◌&&◌, eqb, ◌==◌, some, if◌then◌else◌, arith, Bool-cases,
}
use ryu_rooms.Result.{Result-cases, ok, err}
use ryu_rooms.Table.{count_where, update_where}
use ryu_rooms.Table.Counts.{update-none, count-update_clears}
use ryu_rooms.Model.{is_active}
use ryu_rooms.Store.{
  RunRow, Db, StoreError, seal as seal_failed, not_found, RoomStore, External, Draw,
}
use ryu_rooms.Store.Ids.{ctx, validate_room_id}
use ryu_rooms.Store.Runs.{is_run, canceled, stop_run}

abbrev pub is_active_run : String → String → RunRow → Bool
is_active_run room_id run_id r = is_run room_id run_id r && is_active r.status

module _ (x : External) (d : Draw) (run_id : String) where
  -- The database after the run was stopped, written out.
  abbrev pub stopped : String → String → Db → Db
  stopped room_id message db = record db {
    rooms =
        update_where (λ r. r.id == room_id)
          (λ r. record r {
            status = if r.status == "closed" then "closed" else "idle";
            updated_at = x.to_rfc3339 (d.now 1);
          })
          db.rooms;
    runs =
        update_where (is_active_run room_id run_id)
          (λ r. record r {
            status = "canceled";
            error_code = some "canceled";
            error_message = some message;
            finished_at = some (x.to_rfc3339 (d.now 0));
          })
          db.runs;
  }

  none_active :
      (room_id message : String) (db : Db)
      → count_where (is_active_run room_id run_id) (stopped room_id message db).runs ≡ 0
  none_active room_id message db =
      count-update_clears (is_active_run room_id run_id) (is_active_run room_id run_id) _ db.runs
        (λ r e. ground arith) (λ r e. e)

  -- Stopping a run fails and leaves the store as it was, or the room has active runs of that id and
  -- they are canceled: status and code are "canceled", the message is the sealing of "generation
  -- stopped" in the place of the run's error, and the run is finished at the first time drawn. A
  -- closed room stays closed; any other is idle. No run of that id is active in the room after it.
  pub stop_run_cases :
      (given : String) (s : RoomStore)
      → ((e : StoreError) × (stop_run x d given run_id s ≡ (err e, s)))
        ⊎ ((room_id : String) × (message : String) × (validate_room_id given ≡ ok room_id)
            × (x.sealing.seal_text
                  (d.nonce 0)
                  "generation stopped"
                  (ctx "room_runs" "error_message" run_id)
                ≡ ok message)
            × (1 ≤ count_where (is_active_run room_id run_id) s.db.runs)
            × (count_where (is_active_run room_id run_id) (stopped room_id message s.db).runs ≡ 0)
            × (stop_run x d given run_id s
                ≡ (ok tt, record s { db = stopped room_id message s.db })))
  unfolding stop_run
  stop_run_cases given s = elim (Result-cases (validate_room_id given)) [
    | inr (e, p) ↦ inl (e, ground arith)
    | inl (room_id, p) ↦
        elim (Result-cases (
          x.sealing.seal_text (d.nonce 0) "generation stopped"
            (ctx "room_runs" "error_message" run_id))) [
              | inr (e, q) ↦ inl (seal_failed e, ground arith)
              | inl (message, q) ↦
                  elim (Bool-cases (eqb (count_where (is_active_run room_id run_id) s.db.runs) 0)) [
                    | inl z ↦ inl (
                      not_found,
                      ground (
                        arith,
                        update-none (is_active_run room_id run_id)
                            (canceled message (x.to_rfc3339 (d.now 0))) s.db.runs,
                      ),
                    )
                    | inr z ↦ inr (
                      room_id,
                      message,
                      p,
                      q,
                      ground arith,
                      none_active room_id message s.db,
                      ground arith,
                    )
                  ]
            ]
  ]
