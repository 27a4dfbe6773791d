-- ===== src/Store/Read/Keeps.antt =====
-- The database through the reading operations of backend/src/store.rs.
use ryu_rooms.Prelude.{String, ◌≡◌, refl, ◌∙◌, Option, none, some, ◌==◌, List, [], ◌∷◌, arith}
use ryu_rooms.Result.{Result, ok, err}
use mathlib.Core.List.{reverse}
use ryu_rooms.Table.{find_where, first_by, select, sort_by}
use ryu_rooms.Limits.{max_history_messages}
use ryu_rooms.Model.{RoomMessage, RoomParticipantSummary, RoomRun}
use ryu_rooms.Store.{
  RoomRow, MessageRow, ParticipantRow, StoreError, RoomStore, External, Exec, ◌>>=◌, continue,
}
use ryu_rooms.Store.Ids.{ctx, open_value, validate_room_id}
use ryu_rooms.Store.Read.{
  newer_message, newer_run, older_participant, is_current, collect, row_to_message,
  row_to_participant, opened_message, open_messages, load_messages, opened_participant,
  open_participants, load_participants, open_run, or_blank, open_run_or_blank, read_run,
  open_current, current_run, snapshot_of, snapshot_from_connection, snapshot,
}

-- The action leaves the database as it is.
pub record IsReading {ℓ} {A : Type ℓ} (m : Exec A) : Type ℓ where
  pub same : (s : RoomStore) → (m s).1.db ≡ s.db

pub IsReading-bind {ℓ κ} :
    {A : Type ℓ} {B : Type κ} (m : Exec A) (f : A → Exec B)
    → IsReading m
    → ((a : A) → IsReading (f a))
    → IsReading (m >>= f)
IsReading-bind m f h k = record { same = λ s. rest (m s).0 (m s).1 ∙ h.same s }
  where
    rest : (r : Result StoreError _) (t : RoomStore) → (continue r f t).1.db ≡ t.db
    rest (ok a) t = (k a).same t
    rest (err e) t = refl

-- A result that is there already.
pub IsReading-lift {ℓ} : {A : Type ℓ} (r : Result StoreError A) → IsReading {A = A} (λ s. (r, s))
IsReading-lift r = record { same = λ s. refl }

module _ (x : External) where
  opened_message-IsReading :
      (m : RoomMessage) (r : Result StoreError String) → IsReading (opened_message x m r)
  opened_message-IsReading m (ok t) = record { same = λ s. refl }
  opened_message-IsReading m (err e) = record { same = λ s. refl }

  open_messages-IsReading : (l : List RoomMessage) → IsReading (open_messages x l)
  unfolding open_messages
  open_messages-IsReading [] = record { same = λ s. refl }
  open_messages-IsReading (m ∷ l) =
      IsReading-bind (opened_message x m (open_value x m.text (ctx "room_messages" "text" m.id))) _
        (opened_message-IsReading m _)
        (λ opened.
          IsReading-bind (open_messages x l) _ (open_messages-IsReading l)
            (λ rest. record { same = λ s. refl }))

  pub load_messages-IsReading : (id : String) → IsReading (load_messages x id)
  unfolding load_messages
  load_messages-IsReading id = record { same = λ s. by_cases (collect row_to_message (rows s)) s }
    where
      rows : RoomStore → List MessageRow
      rows s =
          first_by newer_message max_history_messages
            (select (λ (r : MessageRow). r.room_id == id) s.db.messages)

      by_cases :
          (r : Result StoreError (List RoomMessage)) (s : RoomStore)
          → (continue r (λ messages. open_messages x (reverse messages)) s).1.db ≡ s.db
      by_cases (ok messages) s = (open_messages-IsReading (reverse messages)).same s
      by_cases (err e) s = refl

  opened_participant-IsReading :
      (p : RoomParticipantSummary) (r : Result StoreError String)
      → IsReading (opened_participant x p r)
  opened_participant-IsReading p (ok t) = record { same = λ s. refl }
  opened_participant-IsReading p (err e) = record { same = λ s. refl }

  open_participants-IsReading :
      (l : List RoomParticipantSummary) → IsReading (open_participants x l)
  unfolding open_participants
  open_participants-IsReading [] = record { same = λ s. refl }
  open_participants-IsReading (p ∷ l) =
      IsReading-bind
        (opened_participant x p
          (open_value x p.display_name (ctx "room_participants" "display_name" p.id)))
        _ (opened_participant-IsReading p _)
        (λ opened.
          IsReading-bind (open_participants x l) _ (open_participants-IsReading l)
            (λ rest. record { same = λ s. refl }))

  pub load_participants-IsReading : (id : String) → IsReading (load_participants x id)
  unfolding load_participants
  load_participants-IsReading id = record {
    same = λ s. by_cases (collect row_to_participant (rows s)) s;
  }
    where
      rows : RoomStore → List ParticipantRow
      rows s =
          sort_by older_participant
            (select (λ (r : ParticipantRow). r.room_id == id) s.db.participants)

      by_cases :
          (r : Result StoreError (List RoomParticipantSummary)) (s : RoomStore)
          → (continue r (λ participants. open_participants x participants) s).1.db ≡ s.db
      by_cases (ok participants) s = (open_participants-IsReading participants).same s
      by_cases (err e) s = refl

  or_blank-IsReading :
      (run : RoomRun) (r : Result StoreError RoomRun) → IsReading (or_blank x run r)
  or_blank-IsReading run (ok opened) = record { same = λ s. refl }
  or_blank-IsReading run (err e) = record { same = λ s. refl }

  open_current-IsReading : (run : Option RoomRun) → IsReading (open_current x run)
  unfolding open_run_or_blank
  open_current-IsReading none = record { same = λ s. refl }
  open_current-IsReading (some run) =
      IsReading-bind (open_run_or_blank x run) _ (or_blank-IsReading run (open_run x run))
        (λ opened. record { same = λ s. refl })

  pub current_run-IsReading : (id : String) → IsReading (current_run x id)
  unfolding current_run
  current_run-IsReading id = record {
    same = λ s. by_cases (read_run x (first_by newer_run 1 (select (is_current x id) s.db.runs))) s;
  }
    where
      by_cases :
          (r : Result StoreError (Option RoomRun)) (s : RoomStore)
          → (continue r (λ run. open_current x run) s).1.db ≡ s.db
      by_cases (ok run) s = (open_current-IsReading run).same s
      by_cases (err e) s = refl

  snapshot_of-IsReading : (id : String) (room : Option RoomRow) → IsReading (snapshot_of x id room)
  snapshot_of-IsReading id none = record { same = λ s. refl }
  snapshot_of-IsReading id (some room) =
      IsReading-bind (load_messages x id) _ (load_messages-IsReading id) λ messages.
        IsReading-bind (current_run x id) _ (current_run-IsReading id) λ run.
          IsReading-bind (load_participants x id) _ (load_participants-IsReading id)
            λ participants. record { same = λ s. ground arith }

  pub snapshot_from_connection-IsReading : (id : String) → IsReading (snapshot_from_connection x id)
  unfolding snapshot_from_connection
  snapshot_from_connection-IsReading id = record {
    same = λ s.
        (snapshot_of-IsReading id (find_where (λ (r : RoomRow). r.id == id) s.db.rooms)).same s;
  }

  -- Reading a snapshot leaves every table as it was, whether it returns a room, none, or an error.
  pub snapshot-IsReading : (id : String) → IsReading (snapshot x id)
  unfolding snapshot
  snapshot-IsReading id =
      IsReading-bind (λ s. (validate_room_id id, s)) (snapshot_from_connection x)
        (IsReading-lift (validate_room_id id)) snapshot_from_connection-IsReading
