-- ===== src/Store/Runs.antt =====
-- `append_delta`, `finish_run` and `stop_run` of backend/src/store.rs, and the trimming of a room.
pub mod Effect
pub mod Stopping
pub mod Extending
pub mod Growing
pub mod Beginning
pub mod Retention
use Prim.Native.String.{◌++◌ as append}
use ryu_rooms.Prelude.{
  ℕ, String, Bool, true, false, ◌&&◌, ◌||◌, not, Option, none, some, eqb, ltb, if◌then◌else◌, ◌==◌,
}
use ryu_rooms.Result.{Result, ok, err, map_err}
use ryu_rooms.Text.{char_count, is_empty}
use ryu_rooms.Table.{count_where, find_where, trim_by, update_where}
use ryu_rooms.Limits.{max_history_messages, max_message_chars, max_retained_runs, validate_delta}
use ryu_rooms.Model.{RoomSnapshot, RunStatus, is_active, run_status_text}
use ryu_rooms.Store.{
  MessageRow, RunRow, RoomRow, Db, StoreError, invalid, not_found, RoomStore, External, Draw, Exec,
  continue, pure, raise, lift, or_raise, reject_if, query, execute, transaction, insert_message,
  update_rooms, update_runs, ◌>>=◌, ◌>>◌,
}
use ryu_rooms.Store.Ids.{ctx, opaque_id, open_value, seal, seal_opt, validate_room_id}
use ryu_rooms.Store.Read.{newer_message, newer_run, snapshot}

pub record RunTerminal : Type 0 where
  pub status : RunStatus
  pub error_code : Option String
  pub error_message : Option String

abbrev pub is_run : String → String → RunRow → Bool
is_run room_id run_id r = r.id == run_id && r.room_id == room_id

unfoldable pub trim_runs : String → Exec (Unit {0})
unfolding trim_by
trim_runs room_id = execute λ db. record db {
  runs = trim_by (λ r. r.id) newer_run (λ r. r.room_id == room_id) max_retained_runs db.runs;
}

unfoldable pub trim_messages : String → Exec (Unit {0})
unfolding trim_by
trim_messages room_id = execute λ db. record db {
  messages =
      trim_by (λ r. r.id) newer_message (λ r. r.room_id == room_id) max_history_messages
        db.messages;
}

-- `CASE WHEN status = 'closed' THEN 'closed' ELSE … END`.
abbrev pub unless_closed : String → String → String
unless_closed status new = if status == "closed" then "closed" else new

abbrev pub is_completed : RunStatus → Bool
is_completed RunStatus.completed = true
is_completed _ = false

abbrev pub finished : RunTerminal → Option String → String → RunRow → RunRow
finished terminal error_message now r = record r {
  status = run_status_text terminal.status;
  error_code = terminal.error_code;
  error_message = error_message;
  finished_at = some now;
}

abbrev pub canceled : String → String → RunRow → RunRow
canceled message now r = record r {
  status = "canceled";
  error_code = some "canceled";
  error_message = some message;
  finished_at = some now;
}

abbrev pub room_status_after : String → String
room_status_after status = if status == "failed" then "failed" else "idle"

module _ (x : External) where
  unfoldable pub append_delta : Draw → String → String → String → Exec (Unit {0})
  unfolding validate_delta find_where update_where
  append_delta d room_id run_id delta = do
    delta ← lift (map_err invalid (validate_delta delta))
    row ← query (λ db.
        find_where (λ (r : RunRow). is_run room_id run_id r && r.status == "running") db.runs)
    run ← or_raise row not_found
    let context = ctx "room_runs" "partial_text" run_id
    current ← lift (open_value x run.partial_text context)
    let combined = append current delta
    reject_if (ltb max_message_chars (char_count combined)) (invalid "assistant output is too long")
    sealed ← seal x (d.nonce 0) combined context
    _ ←
        update_runs (λ r. is_run room_id run_id r && r.status == "running")
          (λ r. record r { partial_text = sealed })
    _ ← update_rooms (λ r. r.id == room_id) (λ r. record r { updated_at = x.to_rfc3339 (d.now 0) })
    pure tt

  -- The answer of a completed run becomes a message.
  unfoldable pub keep_answer : Draw → String → RunStatus → String → Exec (Unit {0})
  unfolding insert_message
  keep_answer d room_id status partial_text =
      if is_completed status && not (is_empty partial_text)
      then (do
        let message_id = opaque_id "msg_" (d.uuid 0)
        text ← seal x (d.nonce 0) partial_text (ctx "room_messages" "text" message_id)
        insert_message (record {
          id = message_id;
          room_id = room_id;
          role = "assistant";
          text = text;
          participant_id = none;
          created_at = x.to_rfc3339 (d.now 0);
        }))
      else pure tt

  -- The body of `finish_run` for a run that is still active.
  unfoldable pub finish_active : Draw → String → String → RunTerminal → RunRow → Exec (Unit {0})
  unfolding keep_answer update_where trim_runs trim_messages
  finish_active d room_id run_id terminal run = do
    let now = x.to_rfc3339 (d.now 0)
    partial_text ← lift (open_value x run.partial_text (ctx "room_runs" "partial_text" run_id))
    keep_answer d room_id terminal.status partial_text
    error_message ←
        seal_opt x (d.nonce 1) terminal.error_message (ctx "room_runs" "error_message" run_id)
    _ ← update_runs (is_run room_id run_id) (finished terminal error_message now)
    _ ←
        update_rooms (λ r. r.id == room_id)
          (λ r. record r {
            status = unless_closed r.status (room_status_after (run_status_text terminal.status));
            updated_at = now;
          })
    trim_runs room_id
    trim_messages room_id

  abbrev pub finish_if_active : Draw → String → String → RunTerminal → RunRow → Exec (Unit {0})
  finish_if_active d room_id run_id terminal run =
      if is_active run.status then finish_active d room_id run_id terminal run else pure tt

  -- The part of `finish_run` under the transaction.
  unfoldable pub settle : Draw → String → String → RunTerminal → Exec (Unit {0})
  unfolding find_where finish_active
  settle d room_id run_id terminal = transaction do
    row ← query (λ db. find_where (is_run room_id run_id) db.runs)
    run ← or_raise row not_found
    finish_if_active d room_id run_id terminal run

  unfoldable pub finish_run : Draw → String → String → RunTerminal → Exec RoomSnapshot
  finish_run d room_id run_id terminal = do
    room_id ← lift (validate_room_id room_id)
    settle d room_id run_id terminal
    found ← snapshot x room_id
    or_raise found not_found

  unfoldable pub stop_run : Draw → String → String → Exec (Unit {0})
  unfolding validate_room_id count_where update_where
  stop_run d room_id run_id = do
    room_id ← lift (validate_room_id room_id)
    message ← seal x (d.nonce 0) "generation stopped" (ctx "room_runs" "error_message" run_id)
    changed ←
        update_runs (λ r. is_run room_id run_id r && is_active r.status)
          (canceled message (x.to_rfc3339 (d.now 0)))
    reject_if (eqb changed 0) not_found
    _ ←
        update_rooms (λ r. r.id == room_id)
          (λ r. record r {
            status = unless_closed r.status "idle";
            updated_at = x.to_rfc3339 (d.now 1);
          })
    pure tt
