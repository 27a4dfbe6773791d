-- ===== src/Runtime/Guards.antt =====
-- What the operations of backend/src/inference.rs do to the map `active` and the tasks: all of it
-- is done by `start_run`, `remove_active` and `remove_active_for_room`.
use ryu_rooms.Prelude.{ℕ, String, Bool, true, false, Option, none, some, List, if◌then◌else◌}
use ryu_rooms.Result.{Result, ok, err}
use ryu_rooms.Model.{RoomRun, RoomSession}
use ryu_rooms.Store.{StoreError, External, Draw, Exec}
use ryu_rooms.Store.Read.{snapshot as read_snapshot}
use ryu_rooms.Store.Turns.{AcceptedRun, SubmitTurnInput, append_user_turn}
use ryu_rooms.Store.Runs.{stop_run as stop_run_in_store}
use ryu_rooms.Store.Closing.{close_room as close_room_in_store}
use ryu_rooms.Runtime.{
  ActiveRun, Act, EventData, RoomRuntime, continue, on_store, ignore, or_missing, publish,
  remove_active, remove_active_for_room, send_cancel, start_run, snapshot, start_if_running,
  submit_turn, stop_run, stop_current, close_room, is_busy, is_running, turn_accepted,
  turn_canceled, room_closed, pure, ◌>>=◌,
}
use ryu_rooms.Runtime.{Generation}

module _ (P : List ActiveRun → ℕ → List Generation → Type 0) where
  abbrev pub Holds : RoomRuntime → Type 0
  Holds rt = P rt.active rt.channels rt.spawned

  -- An action that keeps `P` of the map, the number of channels and the tasks.
  pub record Guards {ℓ} {A : Type ℓ} (m : Act A) : Type ℓ where
    pub at : (rt : RoomRuntime) → Holds rt → Holds (m rt).1

  Guards-bind {ℓ κ} :
      {A : Type ℓ} {B : Type κ} (m : Act A) (f : A → Act B)
      → Guards m
      → ((a : A) → Guards (f a))
      → Guards (m >>= f)
  Guards-bind m f h k = record { at = λ rt c. rest (m rt).0 (m rt).1 (h.at rt c) }
    where
      rest : (r : Result StoreError _) (t : RoomRuntime) → Holds t → Holds (continue r f t).1
      rest (ok a) t c = (k a).at t c
      rest (err e) t c = c

  Guards-on_store {ℓ} : {A : Type ℓ} (m : Exec A) → Guards (on_store m)
  Guards-on_store m = record { at = λ rt c. c }

  Guards-or_missing {ℓ} : {A : Type ℓ} (o : Option A) → Guards (or_missing o)
  Guards-or_missing none = record { at = λ rt c. c }
  Guards-or_missing (some a) = record { at = λ rt c. c }

  publish-Guards :
      (room_id name : String) (data_of : EventData) → Guards (publish room_id name data_of)
  unfolding publish
  publish-Guards room_id name data_of = record { at = λ rt c. c }

  send_cancel-Guards : (room_id run_id : String) → Guards (send_cancel room_id run_id)
  unfolding send_cancel
  send_cancel-Guards room_id run_id = record { at = λ rt c. c }

  module _ (x : External) where
    start_if_running-Guards :
        (accepted : AcceptedRun)
        → Guards (start_run accepted)
        → Guards (start_if_running x accepted)
    start_if_running-Guards accepted starts = by_case (is_running accepted.run.status)
      where
        by_case : (b : Bool) → Guards (if b then start_run accepted else pure tt)
        by_case true = record { at = λ rt c. starts.at rt c }
        by_case false = record { at = λ rt c. c }

    snapshot-Guards : (room_id : String) → Guards (snapshot x room_id)
    unfolding snapshot
    snapshot-Guards room_id =
        Guards-bind (on_store (read_snapshot x room_id)) or_missing
          (Guards-on_store (read_snapshot x room_id)) Guards-or_missing

    pub stop_run-Guards :
        (d : Draw) (room_id run_id : String)
        → Guards (remove_active room_id run_id)
        → Guards (stop_run x d room_id run_id)
    unfolding stop_run
    stop_run-Guards d room_id run_id removes =
        Guards-bind (send_cancel room_id run_id) _ (send_cancel-Guards room_id run_id) λ told.
          Guards-bind (on_store (stop_run_in_store x d room_id run_id)) _
            (Guards-on_store (stop_run_in_store x d room_id run_id))
            λ stopped. Guards-bind (remove_active room_id run_id) _ removes λ removed.
              Guards-bind (snapshot x room_id) _ (snapshot-Guards room_id) λ found.
                Guards-bind (publish room_id "turn.canceled" (turn_canceled run_id found)) _
                  (publish-Guards room_id "turn.canceled" (turn_canceled run_id found))
                  λ published. record { at = λ rt c. c }

    stop_current-Guards :
        (d : Draw) (room_id : String) (run : Option RoomRun)
        → ((run_id : String) → Guards (remove_active room_id run_id))
        → Guards (stop_current x d room_id run)
    stop_current-Guards d room_id none removes = record { at = λ rt c. c }
    stop_current-Guards d room_id (some run) removes = by_case (is_busy run.status)
      where
        by_case :
            (b : Bool) → Guards (if b then ignore (stop_run x d room_id run.run_id) else pure tt)
        by_case true = record {
          at = λ rt c. (stop_run-Guards d room_id run.run_id (removes run.run_id)).at rt c;
        }
        by_case false = record { at = λ rt c. c }

    pub close_room-Guards :
        (d d' : Draw) (room_id : String)
        → ((run_id : String) → Guards (remove_active room_id run_id))
        → Guards (remove_active_for_room room_id)
        → Guards (close_room x d d' room_id)
    unfolding close_room
    close_room-Guards d d' room_id removes clears =
        Guards-bind (snapshot x room_id) _ (snapshot-Guards room_id) λ current.
          Guards-bind (stop_current x d room_id current.current_run) _
            (stop_current-Guards d room_id current.current_run removes)
            λ stopped.
              Guards-bind (on_store (close_room_in_store x d' room_id)) _
                (Guards-on_store (close_room_in_store x d' room_id))
                λ closed. Guards-bind (remove_active_for_room room_id) _ clears λ removed.
                  Guards-bind (snapshot x room_id) _ (snapshot-Guards room_id) λ found.
                    Guards-bind (publish room_id "room.closed" (room_closed found)) _
                      (publish-Guards room_id "room.closed" (room_closed found))
                      λ published. record { at = λ rt c. c }

    pub submit_turn-Guards :
        (d : Draw) (session : RoomSession) (input : SubmitTurnInput)
        → ((accepted : AcceptedRun) → Guards (start_run accepted))
        → Guards (submit_turn x d session input)
    unfolding submit_turn
    submit_turn-Guards d session input starts =
        Guards-bind (on_store (append_user_turn x d session input)) _
          (Guards-on_store (append_user_turn x d session input))
          λ accepted.
            Guards-bind
              (publish accepted.snapshot.id "turn.accepted"
                (turn_accepted accepted.run accepted.user_message accepted.snapshot))
              _
              (publish-Guards accepted.snapshot.id "turn.accepted"
                (turn_accepted accepted.run accepted.user_message accepted.snapshot))
              λ published.
                Guards-bind (start_if_running x accepted) _
                  (start_if_running-Guards accepted (starts accepted))
                  λ started. record { at = λ rt c. c }
