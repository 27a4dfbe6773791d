-- ===== src/Runtime.antt =====
-- backend/src/inference.rs and backend/src/realtime.rs: the runtime over the store. It keeps the one
-- generation of each room, and publishes named changes; an operation returns the runtime beside its
-- result. A watch channel is a number, and its value is whether the number is among the canceled.
pub mod Generating
pub mod Follows
pub mod Moves
pub mod Partial
pub mod Quiet
pub mod Active
pub mod Guards
pub mod Wired
use ryu_rooms.Prelude.{
  ℕ, ◌+◌, String, Bool, true, false, ◌&&◌, ◌||◌, not, Option, none, some, List, [], ◌∷◌, ◌++◌, eqb,
  if◌then◌else◌, ◌==◌,
}
use ryu_rooms.Result.{Result, ok, err}
use ryu_rooms.Table.{any_where, delete_where, find_where}
use ryu_rooms.Model.{RoomMessage, RoomRun, RoomSession, RoomSnapshot, RunStatus}
use ryu_rooms.Store.{StoreError, not_found, RoomStore, External, Draw, Exec}
use ryu_rooms.Store.Read.{snapshot as read_snapshot}
use ryu_rooms.Store.Turns.{AcceptedRun, SubmitTurnInput, append_user_turn}
use ryu_rooms.Store.Runs.{stop_run as stop_run_in_store}
use ryu_rooms.Store.Closing.{close_room as close_room_in_store}

-- The JSON of each named change.
pub data EventData : Type 0 where
  turn_accepted : RoomRun → RoomMessage → RoomSnapshot → EventData
  turn_canceled : String → RoomSnapshot → EventData
  room_closed : RoomSnapshot → EventData
  turn_delta : (run_id request_id delta partial_text : String) → EventData
  turn_completed : (run_id request_id : String) → RoomSnapshot → EventData
  turn_failed : (run_id request_id error_code : String) → RoomSnapshot → EventData

pub record RoomEvent : Type 0 where
  pub name : String
  pub data_of : EventData

-- An entry of `active`: its room, its run, and the channel that cancels it.
pub record ActiveRun : Type 0 where
  pub room_id : String
  pub run_id : String
  pub channel : ℕ

-- A spawned generation: what it was accepted with, its channel, and the text that it has streamed.
pub record Generation : Type 0 where
  pub accepted : AcceptedRun
  pub channel : ℕ
  pub partial : String

pub record RoomRuntime : Type 0 where
  pub store : RoomStore
  pub active : List ActiveRun
  pub canceled : List ℕ
  pub channels : ℕ
  pub published : List (String × RoomEvent)
  pub spawned : List Generation

abbrev pub Act {ℓ} : Type ℓ → Type ℓ
Act A = RoomRuntime → Result StoreError A × RoomRuntime

abbrev pub continue {ℓ κ} :
    {A : Type ℓ} {B : Type κ}
    → Result StoreError A
    → (A → Act B)
    → RoomRuntime
    → Result StoreError B × RoomRuntime
continue (ok a) f rt = f a rt
continue (err e) f rt = (err e, rt)

infixl 5 ◌>>=◌ ◌>>◌
abbrev pub ◌>>=◌ {ℓ κ} : {A : Type ℓ} {B : Type κ} → Act A → (A → Act B) → Act B
◌>>=◌ m f rt = let (r, rt') = m rt in continue r f rt'

abbrev pub ◌>>◌ {ℓ} : {B : Type ℓ} → Act (Unit {0}) → Act B → Act B
m >> k = m >>= λ _. k

abbrev pub pure {ℓ} : {A : Type ℓ} → A → Act A
pure a rt = (ok a, rt)

-- A call of the store, and a change of what the runtime itself keeps.
abbrev pub on_store {ℓ} : {A : Type ℓ} → Exec A → Act A
on_store m rt = let (r, s) = m rt.store in (r, record rt { store = s })

abbrev pub change : (RoomRuntime → RoomRuntime) → Act (Unit {0})
change f rt = (ok tt, f rt)

-- `let _ = …`: the result is dropped.
abbrev pub ignore {ℓ} : {A : Type ℓ} → Act A → Act (Unit {0})
ignore m rt = (ok tt, (m rt).1)

abbrev pub or_missing {ℓ} : {A : Type ℓ} → Option A → Act A
or_missing none rt = (err not_found, rt)
or_missing (some a) rt = (ok a, rt)

-- `publish`: the hub of the room and Core's channel both get the change.
unfoldable pub publish : String → String → EventData → Act (Unit {0})
publish room_id name data_of = change λ rt. record rt {
  published = rt.published ++ (room_id, record { name = name; data_of = data_of }) ∷ [];
}

abbrev pub is_entry_of : String → ActiveRun → Bool
is_entry_of room_id run = run.room_id == room_id

unfoldable pub remove_active : String → String → Act (Unit {0})
unfolding delete_where
remove_active room_id run_id = change λ rt. record rt {
  active = delete_where (λ run. is_entry_of room_id run && run.run_id == run_id) rt.active;
}

unfoldable pub remove_active_for_room : String → Act (Unit {0})
unfolding delete_where
remove_active_for_room room_id =
    change λ rt. record rt { active = delete_where (is_entry_of room_id) rt.active }

-- The value of a watch channel.
unfoldable pub is_canceled : ℕ → List ℕ → Bool
is_canceled channel [] = false
is_canceled channel (c ∷ cs) = eqb channel c || is_canceled channel cs

abbrev pub cancel_entry : String → Option ActiveRun → List ℕ → List ℕ
cancel_entry run_id none canceled = canceled
cancel_entry run_id (some run) canceled =
    if run.run_id == run_id then run.channel ∷ canceled else canceled

-- The first part of `stop_run`: the generation of the run is told, if the room has it.
unfoldable pub send_cancel : String → String → Act (Unit {0})
unfolding find_where
send_cancel room_id run_id = change λ rt. record rt {
  canceled = cancel_entry run_id (find_where (is_entry_of room_id) rt.active) rt.canceled;
}

-- `start_run`, for a room that has no generation: a new channel, an entry and a task.
unfoldable pub start_run : AcceptedRun → Act (Unit {0})
unfolding any_where
start_run accepted = change λ rt.
    if any_where (is_entry_of accepted.snapshot.id) rt.active then rt else record rt {
      active =
          record {
            room_id = accepted.snapshot.id;
            run_id = accepted.run.run_id;
            channel = rt.channels;
          }
          ∷ rt.active;
      channels = rt.channels + 1;
      spawned =
          rt.spawned ++ record { accepted = accepted; channel = rt.channels; partial = "" } ∷ [];
    }

abbrev pub is_running : RunStatus → Bool
is_running RunStatus.running = true
is_running _ = false

-- `matches!(run.status, Queued | Running)`.
abbrev pub is_busy : RunStatus → Bool
is_busy RunStatus.queued = true
is_busy RunStatus.running = true
is_busy _ = false

module _ (x : External) where
  unfoldable pub snapshot : String → Act RoomSnapshot
  snapshot room_id = do found ← on_store (read_snapshot x room_id); or_missing found

  abbrev start_if_running : AcceptedRun → Act (Unit {0})
  start_if_running accepted = if is_running accepted.run.status then start_run accepted else pure tt

  unfoldable pub submit_turn : Draw → RoomSession → SubmitTurnInput → Act AcceptedRun
  submit_turn d session input = do
    accepted ← on_store (append_user_turn x d session input)
    publish accepted.snapshot.id "turn.accepted"
        (turn_accepted accepted.run accepted.user_message accepted.snapshot)
    start_if_running accepted
    pure accepted

  unfoldable pub stop_run : Draw → String → String → Act RoomSnapshot
  stop_run d room_id run_id = do
    send_cancel room_id run_id
    on_store (stop_run_in_store x d room_id run_id)
    remove_active room_id run_id
    found ← snapshot room_id
    publish room_id "turn.canceled" (turn_canceled run_id found)
    pure found

  -- The run that closing stops first.
  abbrev pub stop_current : Draw → String → Option RoomRun → Act (Unit {0})
  stop_current d room_id none = pure tt
  stop_current d room_id (some run) =
      if is_busy run.status then ignore (stop_run d room_id run.run_id) else pure tt

  unfoldable pub close_room : Draw → Draw → String → Act RoomSnapshot
  close_room d d' room_id = do
    current ← snapshot room_id
    stop_current d room_id current.current_run
    on_store (close_room_in_store x d' room_id)
    remove_active_for_room room_id
    found ← snapshot room_id
    publish room_id "room.closed" (room_closed found)
    pure found
