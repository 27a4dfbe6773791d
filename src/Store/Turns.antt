-- ===== src/Store/Turns.antt =====
-- `append_user_turn` of backend/src/store.rs: the transaction that accepts a turn, and the reading
-- of the accepted run and message, for which the connection is taken anew.
pub mod Effect
pub mod Replay
use ryu_rooms.Prelude.{
  ℕ, ◌+◌, String, Bool, true, false, ◌&&◌, ◌||◌, not, Option, none, some, List, [], ◌∷◌, ltb,
  same_key, if◌then◌else◌, ◌==◌,
}
use mathlib.Core.List.{reverse}
use ryu_rooms.Result.{Result, ok, err, map_err}
use ryu_rooms.Table.{count_where, find_where, update_where}
use ryu_rooms.Limits.{max_idempotency_key_chars, validate_non_empty, validate_prompt}
use ryu_rooms.Model.{
  MessageRole, ParticipantRole, RoomMessage, RoomRun, RoomSession, RoomSnapshot, is_active,
}
use ryu_rooms.Store.{
  RoomRow, MessageRow, RunRow, Db, StoreError, invalid, not_found, room_busy, conflict, closed,
  forbidden, RoomStore, External, Draw, Exec, continue, pure, raise, lift, or_raise, reject_if,
  query, transaction, insert_message, insert_run, update_rooms, ◌>>=◌, ◌>>◌,
}
use ryu_rooms.Store.Ids.{ctx, opaque_id, open_value, seal}
use ryu_rooms.Store.Read.{snapshot}
use ryu_rooms.Store.Rooms.{run_by_id_sync}

pub record SubmitTurnInput : Type 0 where
  pub text : String
  pub idempotency_key : Option String

pub record AcceptedRun : Type 0 where
  pub run : RoomRun
  pub user_message : RoomMessage
  pub snapshot : RoomSnapshot

-- A run of the room that is queued or running.
abbrev pub holds : String → RunRow → Bool
holds room_id r = r.room_id == room_id && is_active r.status

-- The run of the room under an idempotency key.
abbrev pub has_key : String → String → RunRow → Bool
has_key room_id key r = r.room_id == room_id && same_key r.idempotency_key key

pub record SealedTurn : Type 0 where
  pub message : String
  pub input : String
  pub partial : String

abbrev pub validate_key : Option String → Result String (Option String)
validate_key none = ok none
validate_key (some value) =
    elim (validate_non_empty value max_idempotency_key_chars "idempotencyKey") [
      | ok key ↦ ok (some key)
      | err e ↦ err e
    ]

-- The run that already has the turn's key.
abbrev pub find_key : String → Option String → Db → Option RunRow
find_key room_id none db = none
find_key room_id (some key) db = find_where (has_key room_id key) db.runs

-- `matches!(session.role, Host | Guest)`.
abbrev pub may_submit : ParticipantRole → Bool
may_submit ParticipantRole.host = true
may_submit ParticipantRole.guest = true
may_submit ParticipantRole.viewer = false

is_user : MessageRole → Bool
is_user MessageRole.user = true
is_user MessageRole.assistant = false

abbrev is_none_or : Option String → String → Bool
is_none_or none id = true
is_none_or (some message_id) id = id == message_id

-- The newest user message with the text, and with the id if the turn is new.
unfoldable pub find_user_message : String → Option String → List RoomMessage → Option RoomMessage
unfolding find_where is_user
find_user_message text message_id messages =
    find_where (λ m. is_user m.role && m.text == text && is_none_or message_id m.id)
      (reverse messages)

module _ (x : External) where
  unfoldable pub seal_turn : Draw → String → String → String → Exec SealedTurn
  seal_turn d message_id run_id text = do
    message ← seal x (d.nonce 0) text (ctx "room_messages" "text" message_id)
    input ← seal x (d.nonce 1) text (ctx "room_runs" "input_text" run_id)
    partial ← seal x (d.nonce 2) "" (ctx "room_runs" "partial_text" run_id)
    pure (record { message = message; input = input; partial = partial })

  -- A new run: refused while another holds the room.
  unfoldable pub start_turn :
      Draw → String → String → Option String → String → Exec (String × Option String)
  unfolding count_where seal_turn insert_message insert_run update_where
  start_turn d room_id participant_id idempotency_key text = do
    running ← query (λ db. count_where (holds room_id) db.runs)
    reject_if (ltb 0 running) room_busy
    let now = x.to_rfc3339 (d.now 0)
    let message_id = opaque_id "msg_" (d.uuid 0)
    let run_id = opaque_id "run_" (d.uuid 1)
    let request_id = opaque_id "req_" (d.uuid 2)
    sealed ← seal_turn d message_id run_id text
    insert_message (record {
      id = message_id;
      room_id = room_id;
      role = "user";
      text = sealed.message;
      participant_id = some participant_id;
      created_at = now;
    })
    insert_run (record {
      id = run_id;
      room_id = room_id;
      request_id = request_id;
      idempotency_key = idempotency_key;
      input_text = sealed.input;
      status = "running";
      partial_text = sealed.partial;
      error_code = none;
      error_message = none;
      started_at = some now;
      finished_at = none;
      created_at = now;
    })
    _ ← update_rooms (λ r. r.id == room_id) (λ r. record r { status = "running"; updated_at = now })
    pure (run_id, some message_id)

  -- A turn whose key is known: the same text gives the same run, another text a conflict.
  abbrev pub known_turn : String → RunRow → Exec (String × Option String)
  known_turn text run = do
    previous_text ← lift (open_value x run.input_text (ctx "room_runs" "input_text" run.id))
    reject_if (not (previous_text == text)) conflict
    pure (run.id, none)

  abbrev pub known_or_new :
      Draw
      → String
      → String
      → Option String
      → String
      → Option RunRow
      → Exec (String × Option String)
  known_or_new d room_id participant_id key text (some run) = known_turn text run
  known_or_new d room_id participant_id key text none = start_turn d room_id participant_id key text

  -- The part of `append_user_turn` under the transaction.
  unfoldable pub accept_turn :
      Draw → String → String → Option String → String → Exec (String × Option String)
  unfolding find_where start_turn
  accept_turn d room_id participant_id key text = transaction do
    row ← query (λ db. find_where (λ (r : RoomRow). r.id == room_id) db.rooms)
    room ← or_raise row not_found
    reject_if (room.status == "closed") closed
    existing ← query (find_key room_id key)
    known_or_new d room_id participant_id key text existing

  abbrev pub read_accepted_run : String → String → Option String → RoomSnapshot → Exec RoomRun
  read_accepted_run room_id run_id (some _) snapshot = or_raise snapshot.current_run not_found
  read_accepted_run room_id run_id none snapshot = do
    run ← run_by_id_sync x room_id run_id
    or_raise run not_found

  -- The part of `append_user_turn` after the commit.
  unfoldable pub read_accepted : String → String → String → Option String → Exec AcceptedRun
  read_accepted room_id text run_id message_id = do
    found ← snapshot x room_id
    current ← or_raise found not_found
    run ← read_accepted_run room_id run_id message_id current
    user_message ← or_raise (find_user_message text message_id current.messages) not_found
    pure (record { run = run; user_message = user_message; snapshot = current })

  unfoldable pub append_user_turn : Draw → RoomSession → SubmitTurnInput → Exec AcceptedRun
  append_user_turn d session input = do
    reject_if (not (may_submit session.role)) forbidden
    text ← lift (map_err invalid (validate_prompt input.text))
    key ← lift (map_err invalid (validate_key input.idempotency_key))
    (run_id, message_id) ← accept_turn d session.room_id session.participant_id key text
    read_accepted session.room_id text run_id message_id
