-- ===== src/Store/Rooms.antt =====
-- `create_room`, `list_rooms`, `host_session` and `run_by_id_sync` of backend/src/store.rs.
pub mod Effect
use Prim.Native.String.{compare}
use ryu_rooms.Prelude.{
  ℕ, ◌+◌, String, Bool, true, false, ◌&&◌, ◌||◌, Option, none, some, List, [], ◌∷◌, ◌++◌,
  if◌then◌else◌, ◌==◌,
}
use text.Mathlib.Text.{is_lt}
use ryu_rooms.Result.{Result, ok, err, map_err}
use ryu_rooms.Table.{find_where, sort_by}
use ryu_rooms.Limits.{invite_ttl_secs, validate_model_id, validate_share_origin}
use ryu_rooms.Model.{ParticipantRole, RoomSnapshot, RoomRun, RoomSession}
use ryu_rooms.Store.{
  RoomRow, RunRow, InviteRow, ParticipantRow, Db, StoreError, invalid, not_found, database,
  RoomStore, External, Draw, Exec, continue, pure, raise, lift, or_raise, query, transaction,
  insert_room, insert_invite, insert_participant, ◌>>=◌, ◌>>◌,
}
use ryu_rooms.Store.Ids.{
  contract, engine, ctx, opaque_id, open_value, seal, seconds, validate_room_id,
}
use ryu_rooms.Store.Read.{newer, open_run, row_to_run, snapshot}

pub record CreateRoomInput : Type 0 where
  pub model_id : String
  pub share_origin : String

pub record CreatedRoom : Type 0 where
  pub room : RoomSnapshot
  pub invite : String
  pub share_origin : String

-- The three rows of a new room, inserted together.
unfoldable pub insert_new_room : RoomRow → InviteRow → ParticipantRow → Exec (Unit {0})
unfolding insert_room insert_invite insert_participant
insert_new_room room invite host =
    transaction do insert_room room; insert_invite invite; insert_participant host

abbrev pub new_room : String → String → String → String → RoomRow
new_room room_id model_id share_origin now_text = record {
  id = room_id;
  schema_version = 1;
  contract = contract;
  status = "idle";
  model_id = model_id;
  engine = engine;
  share_origin = share_origin;
  created_at = now_text;
  updated_at = now_text;
}

module _ (x : External) where
  -- The part of `create_room` up to the commit: the id of the room, the invite and the origin.
  unfoldable pub create_rows : Draw → CreateRoomInput → Exec (String × String × String)
  unfolding validate_model_id validate_share_origin
  create_rows d input = do
    model_id ← lift (map_err invalid (validate_model_id input.model_id))
    share_origin ← lift (map_err invalid (validate_share_origin x.parse_url input.share_origin))
    let now_text = x.to_rfc3339 (d.now 0)
    let room_id = opaque_id "room_" (d.uuid 0)
    let participant_id = opaque_id "member_" (d.uuid 1)
    let invite = d.uuid 2
    let expires_at = x.to_rfc3339 (d.now 0 + seconds invite_ttl_secs)
    host_name ← seal x (d.nonce 0) "Host" (ctx "room_participants" "display_name" participant_id)
    insert_new_room (new_room room_id model_id share_origin now_text)
        (record {
          room_id = room_id;
          digest = x.sha256 invite;
          expires_at = expires_at;
          revoked_at = none;
        })
        (record {
          id = participant_id;
          room_id = room_id;
          display_name = host_name;
          role = "host";
          online = 1;
          created_at = now_text;
          last_seen_at = now_text;
        })
    pure (room_id, invite, share_origin)

  unfoldable pub create_room : Draw → CreateRoomInput → Exec CreatedRoom
  unfolding create_rows snapshot
  create_room d input = do
    (room_id, invite, share_origin) ← create_rows d input
    found ← snapshot x room_id
    room ← or_raise found not_found
    pure (record { room = room; invite = invite; share_origin = share_origin })

  abbrev newer_room : RoomRow → RoomRow → Bool
  newer_room a b = newer a.updated_at a.id b.updated_at b.id

  abbrev with_room : Option RoomSnapshot → List RoomSnapshot → List RoomSnapshot
  with_room none rooms = rooms
  with_room (some room) rooms = room ∷ rooms

  snapshots : List RoomRow → Exec (List RoomSnapshot)
  snapshots [] = pure []
  snapshots (row ∷ rows) = do
    room ← snapshot x row.id
    rooms ← snapshots rows
    pure (with_room room rooms)

  unfoldable pub list_rooms : Exec (List RoomSnapshot)
  unfolding sort_by snapshot snapshots
  list_rooms = do rows ← query (λ db. sort_by newer_room db.rooms); snapshots rows

  -- The host of a room, for a route that Core has authorised.
  unfoldable pub host_session : String → Exec RoomSession
  unfolding find_where validate_room_id
  host_session room_id = do
    room_id ← lift (validate_room_id room_id)
    found ← query (λ db.
        find_where (λ (p : ParticipantRow). p.room_id == room_id && p.role == "host")
          db.participants)
    participant ← or_raise found not_found
    display_name ← lift (
        open_value x participant.display_name
          (ctx "room_participants" "display_name" participant.id))
    pure (record {
      room_id = room_id;
      participant_id = participant.id;
      role = ParticipantRole.host;
      display_name = display_name;
      secret = "";
    })

  abbrev open_found : Option RunRow → Exec (Option RoomRun)
  open_found none = pure none
  open_found (some row) = do
    run ← or_raise (row_to_run row) database
    opened ← lift (open_run x run)
    pure (some opened)

  unfoldable pub run_by_id_sync : String → String → Exec (Option RoomRun)
  unfolding find_where row_to_run open_run
  run_by_id_sync room_id run_id = do
    row ← query (λ db. find_where (λ (r : RunRow). r.room_id == room_id && r.id == run_id) db.runs)
    open_found row
