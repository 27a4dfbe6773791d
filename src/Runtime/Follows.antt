-- ===== src/Runtime/Follows.antt =====
-- The operations of backend/src/inference.rs and the locked sections of the store under them.
use ryu_rooms.Prelude.{
  ◌==◌, ◌&&◌, inl, inr, Option-cases, String, ◌≡◌, refl, sym, subst, Bool, true, false, not, Option,
  none, some, if◌then◌else◌, arith,
}
use ryu_rooms.Table.{find_where}
use ryu_rooms.Result.{Result-cases, Result, ok, err, map_err}
use ryu_rooms.Limits.{validate_prompt}
use ryu_rooms.Model.{RoomRun, RoomSession, RoomSnapshot, is_active, run_status_text}
use ryu_rooms.Store.{
  RunRow, StoreError, forbidden, invalid, not_found, RoomStore, External, Draw, Exec, or_raise,
  reject_if, continue as continue_in_store, ◌>>=◌ as bind,
}
use ryu_rooms.Store.Ids.{validate_room_id}
use ryu_rooms.Store.Read.{open_run, row_to_run, snapshot as read_snapshot}
use ryu_rooms.Store.Rooms.{run_by_id_sync}
use ryu_rooms.Store.Turns.{
  AcceptedRun, SubmitTurnInput, accept_turn, append_user_turn, may_submit, read_accepted,
  validate_key, find_user_message, read_accepted_run,
}
use ryu_rooms.Store.Runs.{RunTerminal, finish_run, settle, stop_run as stop_run_in_store}
use ryu_rooms.Store.Closing.{close_room as close_room_in_store}
use ryu_rooms.Store.Lifecycle.{Reach, here, next, accepts, closes, reads, settles, stops}
use ryu_rooms.Runtime.{
  Act, EventData, turn_accepted, turn_canceled, room_closed, pure, RoomRuntime, continue, on_store,
  ignore, or_missing, publish, remove_active, remove_active_for_room, send_cancel, start_run,
  snapshot, start_if_running, submit_turn, stop_run, stop_current, close_room, is_busy, ◌>>=◌,
}

module _ (x : External) where
  pub trans : {r s t : RoomStore} → Reach x r s → Reach x s t → Reach x r t
  trans h here = h
  trans h (next k st) = next (trans h k) st

  -- An action of the store that is a sequence of sections.
  pub record Runs {ℓ} {A : Type ℓ} (m : Exec A) : Type ℓ where
    pub at : (s : RoomStore) → Reach x s (m s).1

  -- An action of the runtime that is a sequence of sections.
  pub record Follows {ℓ} {A : Type ℓ} (m : Act A) : Type ℓ where
    pub at : (rt : RoomRuntime) → Reach x rt.store (m rt).1.store

  Runs-bind {ℓ κ} :
      {A : Type ℓ} {B : Type κ} (m : Exec A) (f : A → Exec B)
      → Runs m
      → ((a : A) → Runs (f a))
      → Runs (bind m f)
  Runs-bind m f h k = record { at = λ s. trans (h.at s) (rest (m s).0 (m s).1) }
    where
      rest : (r : Result StoreError _) (t : RoomStore) → Reach x t (continue_in_store r f t).1
      rest (ok a) t = (k a).at t
      rest (err e) t = here

  Runs-lift {ℓ} : {A : Type ℓ} (r : Result StoreError A) → Runs {A = A} (λ s. (r, s))
  Runs-lift r = record { at = λ s. here }

  Runs-reject_if : (b : Bool) (e : StoreError) → Runs (reject_if b e)
  Runs-reject_if true e = record { at = λ s. here }
  Runs-reject_if false e = record { at = λ s. here }

  Runs-or_raise {ℓ} : {A : Type ℓ} (o : Option A) (e : StoreError) → Runs (or_raise o e)
  Runs-or_raise none e = record { at = λ s. here }
  Runs-or_raise (some a) e = record { at = λ s. here }

  Follows-bind {ℓ κ} :
      {A : Type ℓ} {B : Type κ} (m : Act A) (f : A → Act B)
      → Follows m
      → ((a : A) → Follows (f a))
      → Follows (m >>= f)
  Follows-bind m f h k = record { at = λ rt. trans (h.at rt) (rest (m rt).0 (m rt).1) }
    where
      rest : (r : Result StoreError _) (t : RoomRuntime) → Reach x t.store (continue r f t).1.store
      rest (ok a) t = (k a).at t
      rest (err e) t = here

  Follows-on_store {ℓ} : {A : Type ℓ} (m : Exec A) → Runs m → Follows (on_store m)
  Follows-on_store m h = record { at = λ rt. h.at rt.store }

  Follows-or_missing {ℓ} : {A : Type ℓ} (o : Option A) → Follows (or_missing o)
  Follows-or_missing none = record { at = λ rt. here }
  Follows-or_missing (some a) = record { at = λ rt. here }

  snapshot-Runs : (room_id : String) → Runs (read_snapshot x room_id)
  snapshot-Runs room_id = record { at = λ s. next here (reads room_id) }

  snapshot-Follows : (room_id : String) → Follows (snapshot x room_id)
  unfolding snapshot
  snapshot-Follows room_id =
      Follows-bind (on_store (read_snapshot x room_id)) or_missing
        (Follows-on_store (read_snapshot x room_id) (snapshot-Runs room_id)) Follows-or_missing

  run_by_id_sync-same :
      (room_id run_id : String) (s : RoomStore) → (run_by_id_sync x room_id run_id s).1 ≡ s
  unfolding run_by_id_sync
  run_by_id_sync-same room_id run_id s =
      elim (Option-cases
        (find_where (λ (r : RunRow). r.room_id == room_id && r.id == run_id) s.db.runs)) [
          | inl f ↦ rw f refl
          | inr (row, f) ↦ elim (Option-cases (row_to_run row)) [
            | inl g ↦ rw (f, g) refl
            | inr (run, g) ↦ elim (Result-cases (open_run x run)) [
              | inl (opened, o) ↦ rw (f, g, o) refl
              | inr (e, o) ↦ rw (f, g, o) refl
            ]
          ]
        ]

  run_by_id_sync-Runs : (room_id run_id : String) → Runs (run_by_id_sync x room_id run_id)
  run_by_id_sync-Runs room_id run_id = record {
    at = λ s. subst (λ t. Reach x s t) (sym (run_by_id_sync-same room_id run_id s)) here;
  }

  read_accepted_run-Runs :
      (room_id run_id : String) (message_id : Option String) (current : RoomSnapshot)
      → Runs (read_accepted_run x room_id run_id message_id current)
  read_accepted_run-Runs room_id run_id none current =
      Runs-bind (run_by_id_sync x room_id run_id) _ (run_by_id_sync-Runs room_id run_id)
        λ run. Runs-or_raise run not_found
  read_accepted_run-Runs room_id run_id (some _) current =
      Runs-or_raise current.current_run not_found

  read_accepted-Runs :
      (room_id text run_id : String) (message_id : Option String)
      → Runs (read_accepted x room_id text run_id message_id)
  unfolding read_accepted
  read_accepted-Runs room_id text run_id message_id =
      Runs-bind (read_snapshot x room_id) _ (snapshot-Runs room_id) λ found.
        Runs-bind (or_raise found not_found) _ (Runs-or_raise found not_found) λ current.
          Runs-bind (read_accepted_run x room_id run_id message_id current) _
            (read_accepted_run-Runs room_id run_id message_id current)
            λ run.
              Runs-bind (or_raise (find_user_message text message_id current.messages) not_found) _
                (Runs-or_raise (find_user_message text message_id current.messages) not_found)
                λ user_message. record { at = λ s. here }

  append_user_turn-Runs :
      (d : Draw) (session : RoomSession) (input : SubmitTurnInput)
      → Runs (append_user_turn x d session input)
  unfolding append_user_turn
  append_user_turn-Runs d session input =
      Runs-bind _ _ (Runs-reject_if (not (may_submit session.role)) forbidden) λ allowed.
        Runs-bind _ _ (Runs-lift (map_err invalid (validate_prompt input.text))) λ text.
          Runs-bind _ _ (Runs-lift (map_err invalid (validate_key input.idempotency_key))) λ key.
            Runs-bind (accept_turn x d session.room_id session.participant_id key text) _
              (record {
                at = λ s. next here (accepts d session.room_id session.participant_id key text);
              })
              λ (run_id, message_id). read_accepted-Runs session.room_id text run_id message_id

  pub finish_run-Runs :
      (d : Draw) (room_id run_id : String) (terminal : RunTerminal)
      → is_active (run_status_text terminal.status) ≡ false
      → Runs (finish_run x d room_id run_id terminal)
  unfolding finish_run
  finish_run-Runs d room_id run_id terminal final =
      Runs-bind _ _ (Runs-lift (validate_room_id room_id)) λ room_id.
        Runs-bind (settle x d room_id run_id terminal) _
          (record { at = λ s. next here (settles d room_id run_id terminal final) })
          λ done.
            Runs-bind (read_snapshot x room_id) _ (snapshot-Runs room_id)
              λ found. Runs-or_raise found not_found

  start_if_running-Follows : (accepted : AcceptedRun) → Follows (start_if_running x accepted)
  unfolding start_run
  start_if_running-Follows accepted = record {
    at = λ rt. subst (λ t. Reach x rt.store t) (sym (same rt)) here;
  }
    where
      same : (rt : RoomRuntime) → (start_if_running x accepted rt).1.store ≡ rt.store
      same rt = ground arith

  publish-Follows :
      (room_id name : String) (data_of : EventData) → Follows (publish room_id name data_of)
  unfolding publish
  publish-Follows room_id name data_of = record { at = λ rt. here }

  pub submit_turn-Follows :
      (d : Draw) (session : RoomSession) (input : SubmitTurnInput)
      → Follows (submit_turn x d session input)
  unfolding submit_turn
  submit_turn-Follows d session input =
      Follows-bind (on_store (append_user_turn x d session input)) _
        (Follows-on_store (append_user_turn x d session input)
          (append_user_turn-Runs d session input))
        λ accepted.
          Follows-bind
            (publish accepted.snapshot.id "turn.accepted"
              (turn_accepted accepted.run accepted.user_message accepted.snapshot))
            _
            (publish-Follows accepted.snapshot.id "turn.accepted"
              (turn_accepted accepted.run accepted.user_message accepted.snapshot))
            λ published.
              Follows-bind (start_if_running x accepted) _ (start_if_running-Follows accepted)
                λ started. record { at = λ rt. here }

  send_cancel-Follows : (room_id run_id : String) → Follows (send_cancel room_id run_id)
  unfolding send_cancel
  send_cancel-Follows room_id run_id = record { at = λ rt. here }

  remove_active-Follows : (room_id run_id : String) → Follows (remove_active room_id run_id)
  unfolding remove_active
  remove_active-Follows room_id run_id = record { at = λ rt. here }

  remove_active_for_room-Follows : (room_id : String) → Follows (remove_active_for_room room_id)
  unfolding remove_active_for_room
  remove_active_for_room-Follows room_id = record { at = λ rt. here }

  pub stop_run-Follows :
      (d : Draw) (room_id run_id : String) → Follows (stop_run x d room_id run_id)
  unfolding stop_run
  stop_run-Follows d room_id run_id =
      Follows-bind (send_cancel room_id run_id) _ (send_cancel-Follows room_id run_id) λ told.
        Follows-bind (on_store (stop_run_in_store x d room_id run_id)) _
          (Follows-on_store (stop_run_in_store x d room_id run_id)
            (record { at = λ s. next here (stops d room_id run_id) }))
          λ stopped.
            Follows-bind (remove_active room_id run_id) _ (remove_active-Follows room_id run_id)
              λ removed. Follows-bind (snapshot x room_id) _ (snapshot-Follows room_id) λ found.
                Follows-bind (publish room_id "turn.canceled" (turn_canceled run_id found)) _
                  (publish-Follows room_id "turn.canceled" (turn_canceled run_id found))
                  λ published. record { at = λ rt. here }

  stop_current-Follows :
      (d : Draw) (room_id : String) (run : Option RoomRun) → Follows (stop_current x d room_id run)
  stop_current-Follows d room_id none = record { at = λ rt. here }
  stop_current-Follows d room_id (some run) = by_case (is_busy run.status)
    where
      by_case :
          (b : Bool) → Follows (if b then ignore (stop_run x d room_id run.run_id) else pure tt)
      by_case true = record { at = λ rt. (stop_run-Follows d room_id run.run_id).at rt }
      by_case false = record { at = λ rt. here }

  pub close_room-Follows : (d d' : Draw) (room_id : String) → Follows (close_room x d d' room_id)
  unfolding close_room
  close_room-Follows d d' room_id =
      Follows-bind (snapshot x room_id) _ (snapshot-Follows room_id) λ current.
        Follows-bind (stop_current x d room_id current.current_run) _
          (stop_current-Follows d room_id current.current_run)
          λ stopped.
            Follows-bind (on_store (close_room_in_store x d' room_id)) _
              (Follows-on_store (close_room_in_store x d' room_id)
                (record { at = λ s. next here (closes d' room_id) }))
              λ closed.
                Follows-bind (remove_active_for_room room_id) _
                  (remove_active_for_room-Follows room_id)
                  λ removed. Follows-bind (snapshot x room_id) _ (snapshot-Follows room_id) λ found.
                    Follows-bind (publish room_id "room.closed" (room_closed found)) _
                      (publish-Follows room_id "room.closed" (room_closed found))
                      λ published. record { at = λ rt. here }
