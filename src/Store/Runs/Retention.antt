-- ===== src/Store/Runs/Retention.antt =====
-- The trimming at the end of `finish_run` of backend/src/store.rs.
use ryu_rooms.Prelude.{◌≤◌, String, ◌≡◌, refl, inl, inr, true, some, List, ◌++◌, ◌==◌, arith}
use mathlib.Core.List.{append-nil}
use ryu_rooms.Result.{ok}
use ryu_rooms.Limits.{max_history_messages, max_retained_runs}
use ryu_rooms.Model.{is_active}
use ryu_rooms.Table.{count_where, find_where, update_where}
use ryu_rooms.Table.Counts.{count-update}
use ryu_rooms.Table.Newest.{count-trim}
use ryu_rooms.Table.Unique.{unique-snoc}
use ryu_rooms.Store.{MessageRow, RunRow, Db, RoomStore, External, Draw}
use ryu_rooms.Store.Read.{newer_message, newer_run}
use ryu_rooms.Store.Runs.{RunTerminal, finished, is_run, settle}
use ryu_rooms.Store.Runs.Effect.{AnswerRows, nothing, kept, answer, settle_cases}
use ryu_rooms.Store.Consistent.{IsConsistent}

module _ (x : External) (d : Draw) (room_id run_id : String) (terminal : RunTerminal) where
  one_message-AnswerRows :
      (db : Db) (text : String) (rows : List MessageRow)
      → IsConsistent db
      → AnswerRows x d room_id run_id terminal db text rows
      → (k : String) → count_where (λ (r : MessageRow). r.id == k) (db.messages ++ rows) ≤ 1
  one_message-AnswerRows db text rows c (nothing _) k = rw append-nil (c.one_message k)
  one_message-AnswerRows db text rows c (kept sealed _ _ new e) k = rw e (
      unique-snoc (λ r. r.id) db.messages (answer x d room_id run_id terminal sealed) k
        (c.one_message k) new)

  -- In a consistent database, when a run that was queued or running is settled, the room keeps at most 40 messages and at most
  -- 100 runs, whatever it held before.
  pub settle-IsTrimmed :
      (run : RunRow) (s t : RoomStore)
      → IsConsistent s.db
      → find_where (is_run room_id run_id) s.db.runs ≡ some run
      → is_active run.status ≡ true
      → settle x d room_id run_id terminal s ≡ (ok tt, t)
      → (count_where (λ (r : MessageRow). r.room_id == room_id) t.db.messages
          ≤ max_history_messages)
        × (count_where (λ (r : RunRow). r.room_id == room_id) t.db.runs ≤ max_retained_runs)
  settle-IsTrimmed run s t c f a h = elim (settle_cases x d room_id run_id terminal s) [
    | inl (e, q) ↦ absurd (ground (arith, q, h))
    | inr (run', f', inl (i, q)) ↦ absurd (ground (arith, f, f', a, i))
    | inr (run', f', inr (_, (text, rows, message, _, w, q))) ↦
        let messages =
          count-trim (λ (r : MessageRow). r.id) newer_message (λ r. r.room_id == room_id)
            max_history_messages (s.db.messages ++ rows)
            (one_message-AnswerRows s.db text rows c w) in
        let runs =
          count-trim (λ (r : RunRow). r.id) newer_run (λ r. r.room_id == room_id) max_retained_runs
            (update_where (is_run room_id run_id)
              (finished terminal message (x.to_rfc3339 (d.now 0))) s.db.runs)
            (λ k.
              rw
                (count-update (is_run room_id run_id) (λ (r : RunRow). r.id == k)
                  (finished terminal message (x.to_rfc3339 (d.now 0))) s.db.runs (λ r e. refl))
                (c.one_run k)) in
        ground (arith, q, h, messages, runs)
  ]
