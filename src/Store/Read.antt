-- ===== src/Store/Read.antt =====
-- `snapshot_from_connection` of backend/src/store.rs and what it loads. A row that does not open is
-- skipped and counted.
pub mod Keeps
pub mod Total
use Prim.Native.String.{compare}
use ryu_rooms.Prelude.{
  ℕ, ◌+◌, String, Bool, true, false, ◌&&◌, ◌||◌, not, Option, none, some, List, [], ◌∷◌, ◌++◌, eqb,
  if◌then◌else◌, ◌==◌,
}
use mathlib.Core.List.{reverse}
use text.Mathlib.Text.{is_lt}
use ryu_rooms.Result.{Result, ok, err}
use ryu_rooms.Table.{find_where, first_by, select, sort_by}
use ryu_rooms.Limits.{max_history_messages}
use ryu_rooms.Model.{
  RoomMessage, RoomRun, RoomParticipantSummary, RoomSnapshot, is_active, parse_room_status,
  parse_run_status, parse_message_role, parse_participant_role,
}
use ryu_rooms.Store.{
  RoomRow, MessageRow, RunRow, ParticipantRow, Db, StoreError, database, RoomStore, External, Exec,
  continue, pure, lift, or_raise, query, ◌>>=◌, ◌>>◌,
}
use ryu_rooms.Store.Ids.{contract, engine, ctx, open_value, validate_room_id}

-- `created_at DESC, id DESC`, and `created_at ASC, id ASC`.
abbrev pub newer : String → String → String → String → Bool
newer created id created' id' =
    is_lt (compare created' created) || (created == created' && is_lt (compare id' id))

abbrev pub newer_message : MessageRow → MessageRow → Bool
newer_message a b = newer a.created_at a.id b.created_at b.id

abbrev pub newer_run : RunRow → RunRow → Bool
newer_run a b = newer a.created_at a.id b.created_at b.id

abbrev pub older_participant : ParticipantRow → ParticipantRow → Bool
older_participant a b = newer b.created_at b.id a.created_at a.id

-- A row that cannot be read ends the query with an error.
unfoldable pub collect {ℓ κ} :
    {A : Type ℓ} {B : Type κ} → (A → Option B) → List A → Result StoreError (List B)
collect f [] = ok []
collect f (a ∷ l) =
    let rest = collect f l in
    elim (f a) [ none ↦ err database | some b ↦ elim rest [ ok bs ↦ ok (b ∷ bs) | err e ↦ err e ] ]

unfoldable pub row_to_message : MessageRow → Option RoomMessage
row_to_message row = elim (parse_message_role row.role) [
  | none ↦ none
  | some role ↦ some (record {
    id = row.id;
    role = role;
    text = row.text;
    participant_id = row.participant_id;
    created_at = row.created_at;
  })
]

unfoldable pub row_to_run : RunRow → Option RoomRun
row_to_run row = elim (parse_run_status row.status) [
  | none ↦ none
  | some status ↦ some (record {
    run_id = row.id;
    request_id = row.request_id;
    idempotency_key = row.idempotency_key;
    status = status;
    partial_text = row.partial_text;
    error_code = row.error_code;
    error_message = row.error_message;
    started_at = row.started_at;
    finished_at = row.finished_at;
  })
]

unfoldable pub row_to_participant : ParticipantRow → Option RoomParticipantSummary
row_to_participant row = elim (parse_participant_role row.role) [
  | none ↦ none
  | some role ↦ some (record {
    id = row.id;
    display_name = row.display_name;
    role = role;
    online = not (eqb row.online 0);
  })
]

-- `Sealing::skip`: one more row that does not open.
abbrev pub skip : Exec (Unit {0})
skip s = (ok tt, record s { unreadable = s.unreadable + 1 })

module _ (x : External) where
  abbrev pub opened_message : RoomMessage → Result StoreError String → Exec (List RoomMessage)
  opened_message message (ok text) = pure (record message { text = text } ∷ [])
  opened_message message (err e) = do skip; pure []

  -- A message that does not open is counted and left out.
  unfoldable pub open_messages : List RoomMessage → Exec (List RoomMessage)
  open_messages [] = pure []
  open_messages (message ∷ messages) = do
    opened ←
        opened_message message (open_value x message.text (ctx "room_messages" "text" message.id))
    rest ← open_messages messages
    pure (opened ++ rest)

  unfoldable pub load_messages : String → Exec (List RoomMessage)
  unfolding first_by select collect row_to_message open_messages
  load_messages room_id = do
    rows ← query (λ db.
        first_by newer_message max_history_messages
          (select (λ (r : MessageRow). r.room_id == room_id) db.messages))
    messages ← lift (collect row_to_message rows)
    open_messages (reverse messages)

  abbrev pub opened_participant :
      RoomParticipantSummary → Result StoreError String → Exec (List RoomParticipantSummary)
  opened_participant participant (ok name) = pure (record participant { display_name = name } ∷ [])
  opened_participant participant (err e) = do skip; pure []

  unfoldable pub open_participants :
      List RoomParticipantSummary → Exec (List RoomParticipantSummary)
  open_participants [] = pure []
  open_participants (participant ∷ participants) = do
    opened ← opened_participant participant (
        open_value x participant.display_name
          (ctx "room_participants" "display_name" participant.id))
    rest ← open_participants participants
    pure (opened ++ rest)

  unfoldable pub load_participants : String → Exec (List RoomParticipantSummary)
  unfolding sort_by select collect row_to_participant open_participants
  load_participants room_id = do
    rows ← query (λ db.
        sort_by older_participant
          (select (λ (r : ParticipantRow). r.room_id == room_id) db.participants))
    participants ← lift (collect row_to_participant rows)
    open_participants participants

  abbrev open_opt : Option String → String → Result StoreError (Option String)
  open_opt none id = ok none
  open_opt (some stored) id = elim (open_value x stored (ctx "room_runs" "error_message" id)) [
    | ok value ↦ ok (some value)
    | err e ↦ err e
  ]

  abbrev with_partial :
      RoomRun
      → Result StoreError String
      → Result StoreError (Option String)
      → Result StoreError RoomRun
  with_partial run (ok partial) (ok message) =
      ok (record run { partial_text = partial; error_message = message })
  with_partial run (ok partial) (err e) = err e
  with_partial run (err e) message = err e

  unfoldable pub open_run : RoomRun → Result StoreError RoomRun
  open_run run =
      with_partial run (open_value x run.partial_text (ctx "room_runs" "partial_text" run.run_id))
        (open_opt run.error_message run.run_id)

  abbrev pub or_blank : RoomRun → Result StoreError RoomRun → Exec RoomRun
  or_blank run (ok opened) = pure opened
  or_blank run (err e) = do skip; pure (record run { partial_text = ""; error_message = none })

  unfoldable pub open_run_or_blank : RoomRun → Exec RoomRun
  unfolding open_run
  open_run_or_blank run = or_blank run (open_run run)

  abbrev pub is_current : String → RunRow → Bool
  is_current room_id r = r.room_id == room_id && (is_active r.status || r.status == "failed")

  -- `query_row(…).optional()`: no row, one that reads, or one that does not.
  abbrev pub read_run : List RunRow → Result StoreError (Option RoomRun)
  read_run [] = ok none
  read_run (row ∷ _) = elim (row_to_run row) [ none ↦ err database | some run ↦ ok (some run) ]

  abbrev pub open_current : Option RoomRun → Exec (Option RoomRun)
  open_current none = pure none
  open_current (some run) = do opened ← open_run_or_blank run; pure (some opened)

  unfoldable pub current_run : String → Exec (Option RoomRun)
  unfolding first_by select row_to_run open_run_or_blank
  current_run room_id = do
    rows ← query (λ db. first_by newer_run 1 (select (is_current room_id) db.runs))
    run ← lift (read_run rows)
    open_current run

  abbrev pub assemble :
      String
      → RoomRow
      → List RoomMessage
      → Option RoomRun
      → List RoomParticipantSummary
      → Exec (Option RoomSnapshot)
  assemble room_id room messages run participants = do
    status ← or_raise (parse_room_status room.status) database
    pure (
        some (record {
          contract = contract;
          schema_version = 1;
          id = room_id;
          status = status;
          model_id = room.model_id;
          engine = engine;
          messages = messages;
          current_run = run;
          participants = participants;
          updated_at = room.updated_at;
        }))

  abbrev pub snapshot_of : String → Option RoomRow → Exec (Option RoomSnapshot)
  snapshot_of room_id none = pure none
  snapshot_of room_id (some room) = do
    messages ← load_messages room_id
    run ← current_run room_id
    participants ← load_participants room_id
    assemble room_id room messages run participants

  unfoldable pub snapshot_from_connection : String → Exec (Option RoomSnapshot)
  unfolding load_messages current_run load_participants find_where parse_room_status
  snapshot_from_connection room_id = do
    room ← query (λ db. find_where (λ (r : RoomRow). r.id == room_id) db.rooms)
    snapshot_of room_id room

  unfoldable pub snapshot : String → Exec (Option RoomSnapshot)
  unfolding snapshot_from_connection validate_room_id
  snapshot room_id = do room_id ← lift (validate_room_id room_id); snapshot_from_connection room_id
