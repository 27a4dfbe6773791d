-- ===== src/Examples/Running.antt =====
-- The runtime with one generation, in the concrete world.
use ryu_rooms.Model.{parse_message_role, parse_participant_role}
use ryu_rooms.Runtime.{RoomEvent}
use ryu_rooms.Runtime.Generating.{fail_generation}
use ryu_rooms.Store.Read.{snapshot, snapshot_from_connection}
use ryu_rooms.Store.Runs.{finish_active, finish_run, settle}
use ryu_rooms.Examples.{codes, decimal, numeral}
use ryu_rooms.Limits.{
  is_bad_origin, is_local_host, is_unsupported, validate_delta, validate_display_name,
  validate_model_id, validate_non_empty, validate_share_origin,
}
use ryu_rooms.Runtime.{publish}
use ryu_rooms.Runtime.Generating.{on_delta, on_event}
use ryu_rooms.Seal.{for_id}
use ryu_rooms.Seal.StoreSeal.{
  ensure_writable, open_text, open_text_detailed, seal_text, strip_prefix, to_sealing,
}
use ryu_rooms.Store.{
  ct_eq, insert_invite, insert_message, insert_participant, insert_room, insert_run, insert_session,
}
use ryu_rooms.Store.Ids.{future_timestamp, is_id_character, validate_room_id}
use ryu_rooms.Store.Rooms.{create_rows, insert_new_room}
use ryu_rooms.Store.Runs.{append_delta}
use ryu_rooms.Store.Turns.{accept_turn, seal_turn, start_turn}
use ryu_rooms.Table.{any_where, delete_where, find_where, select, update_where}
use ryu_rooms.Text.{
  any_char, byte_len, char_count, is_ascii_alphanumeric, is_control, is_whitespace, starts_with,
  trim, trim_end_matches, trim_start_matches,
}
use ryu_rooms.Prelude.{
  String, map, ◌≡◌, ◌<◌, sym, ap, ◌∙◌, inl, inr, refl, ◌⊎◌, true, none, some, [], ◌∷◌, ◌==◌, ◌&&◌,
  arith,
}
use ryu_rooms.Result.{ok, err}
use ryu_rooms.Model.{MessageRole, ParticipantRole, RoomRun, RoomSession, RoomStatus, RunStatus}
use ryu_rooms.Table.{count_where}
use ryu_rooms.Store.{StoreError}
use ryu_rooms.Store.Turns.{SubmitTurnInput}
use ryu_rooms.Runtime.{ActiveRun, Generation, RoomRuntime, is_canceled, is_entry_of, stop_run}
use ryu_rooms.Runtime.Generating.{changed, generation_step, next, task_step, text_delta}
use ryu_rooms.Runtime.Moves.{cancels, move, start, streams}
use ryu_rooms.Runtime.Wired.{In, IsWired}
use ryu_rooms.Runtime.Wired.Told.{stop_run_tells_only}
use ryu_rooms.Runtime.Wired.Entries.{Moves-In}
use ryu_rooms.Runtime.Quiet.{generation_step-IsOver}
use ryu_rooms.Runtime.Partial.{HasStreamed, generation_step-InStep}
use ryu_rooms.Runtime.Active.{stop_run_tells}
use ryu_rooms.Examples.{draw, room, world, world-IsFaithful}
use ryu_rooms.Examples.Turns.{run, with_turn}
use ryu_rooms.Examples.Runs.{running_row}

abbrev host : RoomSession
host = record {
  room_id = room;
  participant_id = "member_0123456789ab101";
  role = ParticipantRole.host;
  display_name = "Host";
  secret = "";
}

abbrev turn : SubmitTurnInput
turn = record { text = "hello"; idempotency_key = some "k" }

abbrev room_run : RoomRun
room_run = record {
  run_id = run;
  request_id = "req_0123456789ab302";
  idempotency_key = some "k";
  status = RunStatus.running;
  partial_text = "";
  error_code = none;
  error_message = none;
  started_at = some "3000";
  finished_at = none;
}

abbrev task : Generation
task = record {
  accepted = record {
    run = room_run;
    user_message = record {
      id = "msg_0123456789ab300";
      role = MessageRole.user;
      text = "hello";
      participant_id = some "member_0123456789ab101";
      created_at = "3000";
    };
    snapshot = record {
      contract = "rooms/1";
      schema_version = 1;
      id = room;
      status = RoomStatus.running;
      model_id = "qwen";
      engine = "mesh-llm";
      messages = [];
      current_run = some room_run;
      participants = [];
      updated_at = "3000";
    };
  };
  channel = 0;
  partial = "";
}

abbrev entry : ActiveRun
entry = record { room_id = room; run_id = run; channel = 0 }

abbrev runtime : RoomRuntime
runtime = record {
  store = with_turn;
  active = entry ∷ [];
  canceled = [];
  channels = 1;
  published = [];
  spawned = task ∷ [];
}

abbrev after_step : RoomRuntime
after_step =
    (generation_step world (draw 4) (draw 5) task
      (next (some (ok (text_delta "req_0123456789ab302" "Hi")))) runtime).1

generation_step-InStep_example :
    HasStreamed world world-IsFaithful task "Hi" (record task { partial = "Hi" }) after_step
unfolding any_char byte_len char_count is_ascii_alphanumeric is_control is_whitespace starts_with
    trim trim_end_matches trim_start_matches codes decimal numeral seal_text open_text
    open_text_detailed strip_prefix to_sealing ensure_writable is_bad_origin is_local_host
    validate_model_id validate_share_origin validate_non_empty validate_display_name validate_delta
    validate_room_id is_id_character is_unsupported for_id any_where count_where find_where
    update_where delete_where select insert_room insert_invite insert_participant insert_message
    insert_run insert_session insert_new_room ct_eq future_timestamp create_rows accept_turn
    start_turn seal_turn generation_step on_event on_delta append_delta publish
generation_step-InStep_example =
    generation_step-InStep world world-IsFaithful (draw 4) (draw 5) task
      (record task { partial = "Hi" }) (next (some (ok (text_delta "req_0123456789ab302" "Hi"))))
      runtime after_step (record { run = running_row; found = refl; opened = refl }) refl

wired : IsWired runtime
wired = record {
  given = λ g h. only_given g h;
  unique = λ g h i j e. only g i ∙ sym (only h j);
  task = λ q h. (
    task,
    inl refl,
    sym (ap (λ (a : ActiveRun). a.channel) (only_entry q h)),
    sym (ap (λ (a : ActiveRun). a.room_id) (only_entry q h)),
    sym (ap (λ (a : ActiveRun). a.run_id) (only_entry q h)),
  );
}
  where
    only : (g : Generation) → In g (task ∷ []) → g ≡ task
    only g (inl e) = e
    only g (inr h) = absurd h

    only_entry : (q : ActiveRun) → In q (entry ∷ []) → q ≡ entry
    only_entry q (inl e) = e
    only_entry q (inr h) = absurd h

    only_given : (g : Generation) → In g (task ∷ []) → g.channel < 1
    only_given g (inl e) = omega (arith, ap (λ (k : Generation). k.channel) e)
    only_given g (inr h) = absurd h

-- Another run of the room, after a late signal of the task.
abbrev later : RoomRuntime
later = (task_step world (draw 6) (draw 7) task (changed true) runtime).1

stop_run_tells_only_example :
    is_canceled 0 (stop_run world (draw 8) room "run_0123456789ab999" later).1.canceled
    ≡ is_canceled 0 later.canceled
unfolding task_step generation_step is_canceled
stop_run_tells_only_example =
    stop_run_tells_only world (draw 8) room "run_0123456789ab999" runtime later task wired
      (move start (streams (draw 6) (draw 7) task (changed true))) (inl refl) refl

-- Stopping another run leaves the entry.
Moves-In_example : In entry (stop_run world (draw 8) room "run_0123456789ab999" runtime).1.active
Moves-In_example =
    Moves-In world entry (cancels (draw 8) room "run_0123456789ab999") refl (inl refl)

stop_run_tells_example :
    (is_canceled 0 (stop_run world (draw 5) room run runtime).1.canceled ≡ true)
    × (((e : StoreError) × ((stop_run world (draw 5) room run runtime).0 ≡ err e))
        ⊎ (count_where
              (λ (q : ActiveRun). is_entry_of room q && q.run_id == run)
              (stop_run world (draw 5) room run runtime).1.active
            ≡ 0))
unfolding find_where
stop_run_tells_example = stop_run_tells world (draw 5) room run runtime entry refl refl

-- The run was canceled, and its task has not been told yet.
abbrev over_runtime : RoomRuntime
over_runtime = record runtime {
  store = record with_turn {
    db = record with_turn.db { runs = record running_row { status = "canceled" } ∷ [] };
  };
}

generation_step-IsOver_example :
    (generation_step world (draw 6) (draw 7) task (next none) over_runtime).1.store.db
    ≡ over_runtime.store.db
unfolding count_where
generation_step-IsOver_example =
    generation_step-IsOver world (draw 6) (draw 7) task (next none) over_runtime refl

-- The end of the stream of a run that was canceled is published as a failure.
late_end :
    map
      (λ (e : String × RoomEvent). e.1.name)
      (generation_step world (draw 6) (draw 7) task (next none) over_runtime).1.published
    ≡ "turn.failed" ∷ []
unfolding any_char byte_len char_count is_ascii_alphanumeric is_control is_whitespace starts_with
    trim trim_end_matches trim_start_matches codes decimal numeral seal_text open_text
    open_text_detailed strip_prefix to_sealing ensure_writable is_bad_origin is_local_host
    validate_model_id validate_share_origin validate_non_empty validate_display_name validate_delta
    validate_room_id is_id_character is_unsupported for_id any_where count_where find_where
    update_where delete_where select insert_room insert_invite insert_participant insert_message
    insert_run insert_session insert_new_room ct_eq future_timestamp create_rows generation_step
    fail_generation finish_run settle finish_active snapshot snapshot_from_connection publish
    accept_turn parse_message_role parse_participant_role
late_end = refl
