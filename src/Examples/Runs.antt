-- ===== src/Examples/Runs.antt =====
-- A run that grows, ends, and is recovered, in the concrete world.
use ryu_rooms.Examples.{codes, decimal, numeral}
use ryu_rooms.Limits.{
  is_bad_origin, is_local_host, is_unsupported, validate_delta, validate_display_name,
  validate_model_id, validate_non_empty, validate_share_origin,
}
use ryu_rooms.Seal.{for_id}
use ryu_rooms.Seal.StoreSeal.{
  ensure_writable, open_text, open_text_detailed, seal_text, strip_prefix,
}
use ryu_rooms.Store.{
  ct_eq, insert_invite, insert_message, insert_participant, insert_room, insert_run, insert_session,
}
use ryu_rooms.Store.Closing.{recover_each}
use ryu_rooms.Store.Ids.{future_timestamp, is_id_character}
use ryu_rooms.Store.Rooms.{create_rows, insert_new_room}
use ryu_rooms.Store.Runs.{finish_active, keep_answer, trim_messages, trim_runs}
use ryu_rooms.Store.Turns.{accept_turn, seal_turn, start_turn}
use ryu_rooms.Table.{any_where, delete_where, first_by, select, sort_by, trim_by, update_where}
use ryu_rooms.Text.{
  any_char, byte_len, is_ascii_alphanumeric, is_control, is_whitespace, starts_with, trim,
  trim_end_matches, trim_start_matches,
}
use Prim.Native.String.{◌++◌ as append}
use ryu_rooms.Prelude.{ℕ, ◌≤◌, String, ◌≡◌, refl, ◌⊎◌, true, false, none, some, ◌==◌}
use ryu_rooms.Result.{ok, err}
use ryu_rooms.Text.{char_count}
use ryu_rooms.Limits.{max_history_messages, max_message_chars, max_retained_runs}
use ryu_rooms.Model.{RunStatus, is_active}
use ryu_rooms.Seal.StoreSeal.{to_sealing, unhealthy}
use ryu_rooms.Table.{count_where, find_where}
use ryu_rooms.Store.{External, MessageRow, RoomRow, RoomStore, RunRow, StoreError}
use ryu_rooms.Store.Ids.{validate_room_id}
use ryu_rooms.Store.Consistent.Restart.{recover_running_clears, recover_running_total}
use ryu_rooms.Store.Turns.Effect.{Outcome, accept_turn_cases}
use ryu_rooms.Store.Runs.{RunTerminal, append_delta, is_run, settle, stop_run}
use ryu_rooms.Store.Runs.Effect.{Finishes, settle_cases, settling}
use ryu_rooms.Store.Ids.{ctx}
use ryu_rooms.Store.Runs.Stopping.{is_active_run, stop_run_cases, stopped}
use ryu_rooms.Store.Runs.Beginning.{accept_turn-Says}
use ryu_rooms.Store.Runs.Growing.{Says, append_delta-Says}
use ryu_rooms.Store.Runs.Retention.{settle-IsTrimmed}
use ryu_rooms.Store.Closing.{recover_running}
use ryu_rooms.Store.Lifecycle.{Reach-IsConsistent, accepts, creates, here, next}
use ryu_rooms.Examples.{draw, input, new_store, room, world, world-IsFaithful}
use ryu_rooms.Examples.Turns.{run, with_room, with_turn}

abbrev pub running_row : RunRow
running_row = record {
  id = run;
  room_id = room;
  request_id = "req_0123456789ab302";
  idempotency_key = some "k";
  input_text = "hello";
  status = "running";
  partial_text = "";
  error_code = none;
  error_message = none;
  started_at = some "3000";
  finished_at = none;
  created_at = "3000";
}

abbrev terminal : RunTerminal
terminal = record { status = RunStatus.completed; error_code = none; error_message = none }

abbrev grown : RoomStore
grown = (append_delta world (draw 4) room run "Hi" with_turn).1

abbrev ended : RoomStore
ended = (settle world (draw 5) room run terminal with_turn).1

append_delta-Says_example :
    (current : String) × Says world room run with_turn current
    × Says world room run grown (append current "Hi")
    × (char_count (append current "Hi") ≤ max_message_chars)
unfolding any_char byte_len char_count is_ascii_alphanumeric is_control is_whitespace starts_with
    trim trim_end_matches trim_start_matches codes decimal numeral seal_text open_text
    open_text_detailed strip_prefix to_sealing ensure_writable is_bad_origin is_local_host
    validate_model_id validate_share_origin validate_non_empty validate_display_name validate_delta
    validate_room_id is_id_character is_unsupported for_id any_where count_where find_where
    update_where delete_where select insert_room insert_invite insert_participant insert_message
    insert_run insert_session insert_new_room ct_eq future_timestamp create_rows accept_turn
    start_turn seal_turn append_delta
append_delta-Says_example =
    append_delta-Says world room run (draw 4) "Hi" with_turn grown world-IsFaithful refl

settle-IsTrimmed_example :
    (count_where (λ (r : MessageRow). r.room_id == room) ended.db.messages ≤ max_history_messages)
    × (count_where (λ (r : RunRow). r.room_id == room) ended.db.runs ≤ max_retained_runs)
unfolding any_char byte_len char_count is_ascii_alphanumeric is_control is_whitespace starts_with
    trim trim_end_matches trim_start_matches codes decimal numeral seal_text open_text
    open_text_detailed strip_prefix to_sealing ensure_writable is_bad_origin is_local_host
    validate_model_id validate_share_origin validate_non_empty validate_display_name validate_delta
    validate_room_id is_id_character is_unsupported for_id any_where count_where find_where
    update_where delete_where select insert_room insert_invite insert_participant insert_message
    insert_run insert_session insert_new_room ct_eq future_timestamp create_rows accept_turn
    start_turn seal_turn settle finish_active keep_answer trim_messages trim_runs trim_by first_by
    sort_by
settle-IsTrimmed_example =
    settle-IsTrimmed world (draw 5) room run terminal running_row with_turn ended
      (Reach-IsConsistent world {s = new_store} refl (
        next (next here (creates (draw 1) input))
          (accepts (draw 3) room "member_a" (some "k") "hello")))
      refl refl refl

settle_cases_example :
    ((e : StoreError) × (settling world (draw 5) room run terminal with_turn ≡ (err e, with_turn)))
    ⊎ ((row : RunRow) × (find_where (is_run room run) with_turn.db.runs ≡ some row)
        × (((is_active row.status ≡ false)
              × (settling world (draw 5) room run terminal with_turn ≡ (ok tt, with_turn)))
            ⊎ ((is_active row.status ≡ true)
                × Finishes world
                    (draw 5)
                    room
                    run
                    terminal
                    with_turn
                    row
                    (settling world (draw 5) room run terminal with_turn))))
settle_cases_example = settle_cases world (draw 5) room run terminal with_turn

accept_turn_cases_example : Outcome world (draw 3) room "member_a" (some "k") "hello" with_room
accept_turn_cases_example =
    accept_turn_cases world (draw 3) room "member_a" (some "k") "hello" with_room

stop_run_cases_example :
    ((e : StoreError) × (stop_run world (draw 5) room run with_turn ≡ (err e, with_turn)))
    ⊎ ((id : String) × (message : String) × (validate_room_id room ≡ ok id)
        × (world.sealing.seal_text
              ((draw 5).nonce 0)
              "generation stopped"
              (ctx "room_runs" "error_message" run)
            ≡ ok message)
        × (1 ≤ count_where (is_active_run id run) with_turn.db.runs)
        × (count_where
              (is_active_run id run)
              (stopped world (draw 5) run id message with_turn.db).runs
            ≡ 0)
        × (stop_run world (draw 5) room run with_turn ≡ (
          ok tt,
          record with_turn { db = stopped world (draw 5) run id message with_turn.db },
        )))
stop_run_cases_example = stop_run_cases world (draw 5) run room with_turn

recover_running_clears_example :
    (count_where
        (λ (r : RunRow). is_active r.status)
        (recover_running world (draw 6) with_turn).1.db.runs
      ≡ 0)
    × (count_where
          (λ (r : RoomRow). r.status == "running")
          (recover_running world (draw 6) with_turn).1.db.rooms
        ≡ 0)
unfolding any_char byte_len char_count is_ascii_alphanumeric is_control is_whitespace starts_with
    trim trim_end_matches trim_start_matches codes decimal numeral seal_text open_text
    open_text_detailed strip_prefix to_sealing ensure_writable is_bad_origin is_local_host
    validate_model_id validate_share_origin validate_non_empty validate_display_name validate_delta
    validate_room_id is_id_character is_unsupported for_id any_where count_where find_where
    update_where delete_where select insert_room insert_invite insert_participant insert_message
    insert_run insert_session insert_new_room ct_eq future_timestamp create_rows accept_turn
    start_turn seal_turn recover_running recover_each
recover_running_clears_example = recover_running_clears world (draw 6) with_turn 1 refl

-- The same world when its key is gone.
abbrev locked : External
locked = record world { sealing = to_sealing (unhealthy "no key") }

recover_running_total_example : (n : ℕ) × ((recover_running locked (draw 6) with_turn).0 ≡ ok n)
unfolding to_sealing ensure_writable
recover_running_total_example = recover_running_total locked (draw 6) with_turn refl

accept_turn-Says_example : Says world room run with_turn ""
unfolding any_char byte_len char_count is_ascii_alphanumeric is_control is_whitespace starts_with
    trim trim_end_matches trim_start_matches codes decimal numeral seal_text open_text
    open_text_detailed strip_prefix to_sealing ensure_writable is_bad_origin is_local_host
    validate_model_id validate_share_origin validate_non_empty validate_display_name validate_delta
    validate_room_id is_id_character is_unsupported for_id any_where count_where find_where
    update_where delete_where select insert_room insert_invite insert_participant insert_message
    insert_run insert_session insert_new_room ct_eq future_timestamp create_rows accept_turn
    start_turn seal_turn
accept_turn-Says_example =
    accept_turn-Says world world-IsFaithful (draw 3) room "member_a" (some "k") "hello" run
      "msg_0123456789ab300" with_room with_turn refl
