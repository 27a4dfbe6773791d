-- ===== src/Runtime/Generating.antt =====
-- `run_generation` and `fail_generation` of backend/src/inference.rs: what the task of a run does
-- with each thing it waits for, a change of its channel or an item of the model's stream.
use Prim.Native.String.{◌++◌ as append}
use ryu_rooms.Prelude.{
  ℕ, String, Bool, ◌&&◌, not, Option, none, some, List, [], ◌∷◌, if◌then◌else◌, ◌==◌,
}
use ryu_rooms.Result.{Result, ok, err}
use ryu_rooms.Text.{is_empty}
use ryu_rooms.Model.{MessageRole, RoomMessage, RoomSnapshot, RunStatus}
use ryu_rooms.Store.{StoreError, External, Draw}
use ryu_rooms.Store.Turns.{AcceptedRun}
use ryu_rooms.Store.Runs.{RunTerminal, append_delta, finish_run}
use ryu_rooms.Runtime.{
  Generation, RoomRuntime, on_store, publish, is_canceled, remove_active, turn_completed,
  turn_delta, turn_failed,
}

-- `ModelStreamEvent` and `ModelStreamError` of the app-events crate.
pub data ModelStreamEvent : Type 0 where
  text_delta : (request_id delta : String) → ModelStreamEvent
  completed : (request_id : String) → ModelStreamEvent
  failed : (request_id code message : String) → ModelStreamEvent

pub data ModelStreamError : Type 0 where
  not_hosted : ModelStreamError
  invalid transport protocol : String → ModelStreamError
  rejected : (status : ℕ) (code : String) → ModelStreamError

-- What `select!` gives: whether `changed` is an error, or the next item of the stream.
pub data Signal : Type 0 where
  changed : (is_ok : Bool) → Signal
  next : Option (Result ModelStreamError ModelStreamEvent) → Signal

unfoldable pub model_error_code : ModelStreamError → String
model_error_code not_hosted = "modelHostUnavailable"
model_error_code (invalid _) = "modelRequestRejected"
model_error_code (transport _) = "modelTransport"
model_error_code (rejected _ _) = "modelRejected"
model_error_code (protocol _) = "modelProtocol"

pub record ModelStreamMessage : Type 0 where
  pub role : String
  pub content : String

pub record ModelStreamRequest : Type 0 where
  pub messages : List ModelStreamMessage
  pub model : String
  pub provider : Option String
  pub request_id : String
  pub max_tokens : Option ℕ

abbrev role_text : MessageRole → String
role_text MessageRole.user = "user"
role_text MessageRole.assistant = "assistant"

stream_messages : List RoomMessage → List ModelStreamMessage
stream_messages [] = []
stream_messages (message ∷ messages) =
    record { role = role_text message.role; content = message.text } ∷ stream_messages messages

-- The temperature, a constant 0.2 that nothing reads again, is left out.
unfoldable pub request_of : AcceptedRun → ModelStreamRequest
unfolding stream_messages
request_of accepted = record {
  messages = stream_messages accepted.snapshot.messages;
  model = accepted.snapshot.model_id;
  provider = some "local";
  request_id = accepted.run.request_id;
  max_tokens = some 2048;
}

abbrev pub failure : String → RunTerminal
failure code = record {
  status = RunStatus.failed;
  error_code = some code;
  error_message = some "the local model could not complete this turn";
}

abbrev pub completion : RunTerminal
completion = record { status = RunStatus.completed; error_code = none; error_message = none }

abbrev pub room_of : Generation → String
room_of g = g.accepted.snapshot.id

abbrev pub run_of : Generation → String
run_of g = g.accepted.run.run_id

abbrev pub request_id_of : Generation → String
request_id_of g = g.accepted.run.request_id

-- What a step of the loop leads to: another wait, or the end of the task.
abbrev pub goes_on : Generation → RoomRuntime → Option Generation × RoomRuntime
goes_on g rt = (some g, rt)

abbrev pub ends : RoomRuntime → Option Generation × RoomRuntime
ends rt = (none, rt)

module _ (x : External) where
  abbrev pub report :
      String → String → String → String → Result StoreError RoomSnapshot → RoomRuntime → RoomRuntime
  report room_id run_id request_id code (ok snapshot) rt =
      (publish room_id "turn.failed" (turn_failed run_id request_id code snapshot) rt).1
  report room_id run_id request_id code (err _) rt = rt

  unfoldable pub fail_generation : Draw → Generation → String → RoomRuntime → RoomRuntime
  fail_generation d g code rt =
      let (r, rt') = on_store (finish_run x d (room_of g) (run_of g) (failure code)) rt in
      report (room_of g) (run_of g) (request_id_of g) code r rt'

  -- The task when the request for the stream is answered.
  unfoldable pub open_stream :
      Draw
      → Generation
      → Result ModelStreamError (Unit {0})
      → RoomRuntime
      → Option Generation × RoomRuntime
  open_stream d g (ok _) rt = goes_on g rt
  open_stream d g (err error) rt = ends (fail_generation d g (model_error_code error) rt)

  abbrev pub told : Generation → RoomRuntime → Bool
  told g rt = is_canceled g.channel rt.canceled

  -- Fails the run unless the task has been told to stop.
  abbrev pub fail_unless_told :
      Draw → Generation → String → RoomRuntime → Option Generation × RoomRuntime
  fail_unless_told d g code rt = if told g rt then ends rt else ends (fail_generation d g code rt)

  abbrev pub after_delta :
      Draw
      → Generation
      → String
      → Result StoreError (Unit {0})
      → RoomRuntime
      → Option Generation × RoomRuntime
  after_delta d g delta (ok _) rt =
      goes_on g
        (publish (room_of g) "turn.delta" (turn_delta (run_of g) (request_id_of g) delta g.partial)
          rt).1
  after_delta d g delta (err _) rt = fail_unless_told d g "outputRejected" rt

  abbrev pub after_finish :
      Draw
      → Generation
      → Result StoreError RoomSnapshot
      → RoomRuntime
      → Option Generation × RoomRuntime
  after_finish d g (ok snapshot) rt =
      ends
        (publish (room_of g) "turn.completed" (turn_completed (run_of g) (request_id_of g) snapshot)
          rt).1
  after_finish d g (err _) rt = ends (fail_generation d g "storeUnavailable" rt)

  -- The text is added to what the task has streamed before the store is asked.
  unfoldable pub on_delta :
      Draw → Draw → Generation → String → RoomRuntime → Option Generation × RoomRuntime
  on_delta d d' g delta rt =
      let g' = record g { partial = append g.partial delta } in
      let (r, rt') = on_store (append_delta x d (room_of g) (run_of g) delta) rt in
      after_delta d' g' delta r rt'

  unfoldable pub on_completed :
      Draw → Draw → Generation → RoomRuntime → Option Generation × RoomRuntime
  on_completed d d' g rt =
      if told g rt
      then ends rt
      else (let (r, rt') = on_store (finish_run x d (room_of g) (run_of g) completion) rt in
          after_finish d' g r rt')

  -- An event of the model's stream.
  unfoldable pub on_event :
      Draw → Draw → Generation → ModelStreamEvent → RoomRuntime → Option Generation × RoomRuntime
  on_event d d' g (text_delta request_id delta) rt =
      if not (request_id == request_id_of g)
      then ends (fail_generation d g "modelProtocol" rt)
      else if is_empty delta
      then goes_on g rt
      else on_delta d d' g delta rt
  on_event d d' g (completed request_id) rt =
      if not (request_id == request_id_of g)
      then ends (fail_generation d g "modelProtocol" rt)
      else on_completed d d' g rt
  on_event d d' g (failed request_id _ _) rt =
      if not (request_id == request_id_of g)
      then ends (fail_generation d g "modelProtocol" rt)
      else fail_unless_told d g "modelFailed" rt

  -- One turn of the loop of `run_generation`.
  unfoldable pub generation_step :
      Draw → Draw → Generation → Signal → RoomRuntime → Option Generation × RoomRuntime
  generation_step d d' g (changed is_ok) rt = if is_ok && told g rt then ends rt else goes_on g rt
  generation_step d d' g (next none) rt = ends (fail_generation d g "modelStreamEnded" rt)
  generation_step d d' g (next (some (err error))) rt =
      fail_unless_told d g (model_error_code error) rt
  generation_step d d' g (next (some (ok event))) rt = on_event d d' g event rt

  -- What follows in the spawned task: when the loop has ended, the entry is removed.
  abbrev pub settle_task :
      Generation → Option Generation × RoomRuntime → Option Generation × RoomRuntime
  settle_task g (some g', rt) = (some g', rt)
  settle_task g (none, rt) = (none, (remove_active (room_of g) (run_of g) rt).1)

  unfoldable pub task_step :
      Draw → Draw → Generation → Signal → RoomRuntime → Option Generation × RoomRuntime
  task_step d d' g signal rt = settle_task g (generation_step d d' g signal rt)

  -- The task up to the loop: where the stream is not there, it ends.
  unfoldable pub task_open :
      Draw
      → Generation
      → Result ModelStreamError (Unit {0})
      → RoomRuntime
      → Option Generation × RoomRuntime
  task_open d g answer rt = settle_task g (open_stream d g answer rt)
