-- ===== src/Examples/Guests.antt =====
-- A guest who enters, comes back, and is shut out, in the concrete world.
use ryu_rooms.Examples.{decimal, numeral}
use ryu_rooms.Limits.{
  is_bad_origin, is_local_host, is_unsupported, validate_delta, validate_display_name,
  validate_model_id, validate_non_empty, validate_share_origin,
}
use ryu_rooms.Model.{parse_participant_role}
use ryu_rooms.Seal.{for_id}
use ryu_rooms.Seal.StoreSeal.{
  ensure_writable, open_text, open_text_detailed, seal_text, strip_prefix, to_sealing,
}
use ryu_rooms.Store.{
  ct_eq, insert_invite, insert_message, insert_participant, insert_room, insert_run, insert_session,
}
use ryu_rooms.Store.Ids.{future_timestamp, is_id_character}
use ryu_rooms.Store.Invites.{admit, join, session_row}
use ryu_rooms.Store.Rooms.{insert_new_room}
use ryu_rooms.Table.{any_where, delete_where, select, update_where}
use ryu_rooms.Text.{
  any_char, byte_len, char_count, is_ascii_alphanumeric, is_control, is_whitespace, starts_with,
  trim, trim_end_matches, trim_start_matches,
}
use ryu_rooms.Prelude.{
  ℕ, ◌≤◌, String, ◌≡◌, refl, ◌⊎◌, false, none, some, ◌==◌, arith, List, [], ◌∷◌,
}
use ryu_rooms.Result.{ok, err}
use ryu_rooms.Limits.{max_participants}
use ryu_rooms.Model.{ParticipantRole, RoomSession}
use ryu_rooms.Table.{count_where, find_where}
use ryu_rooms.Store.{InviteRow, ParticipantRow, RoomRow, SessionRow, RoomStore, StoreError}
use ryu_rooms.Store.Ids.{validate_room_id}
use ryu_rooms.Store.Rooms.{create_rows}
use ryu_rooms.Store.Invites.{
  enter, guest_row, guest_session, live_participants, resolve_session, rotate,
}
use ryu_rooms.Store.Invites.Admission.{Admitted, admitting, admit_cases}
use ryu_rooms.Store.Invites.Capacity.{live_participants-enter}
use ryu_rooms.Store.Invites.Entering.{resolve_session-enter}
use ryu_rooms.Store.Invites.Revoking.{by_rotate, resolve_session-Ends}
use ryu_rooms.Examples.{codes, draw, input, invite, new_store, room, world, world-IsFaithful}

abbrev pub with_room : RoomStore
with_room = (create_rows world (draw 1) input new_store).1

abbrev pub with_guest : RoomStore
with_guest = (enter world (draw 2) invite "Ada" with_room).1

abbrev pub guest : RoomSession
guest = record {
  room_id = room;
  participant_id = "member_0123456789ab201";
  role = ParticipantRole.guest;
  display_name = "Ada";
  secret = "0123456789ab200";
}

-- Two open rooms, each with its invite and a guest.
abbrev row_of : String → RoomRow
row_of id = record {
  id = id;
  schema_version = 1;
  contract = "rooms/1";
  status = "idle";
  model_id = "qwen";
  engine = "mesh-llm";
  share_origin = "https://rooms.example.org";
  created_at = "1";
  updated_at = "1";
}

abbrev invite_of : String → List ℕ → InviteRow
invite_of id digest = record { room_id = id; digest = digest; expires_at = "99"; revoked_at = none }

abbrev member_of : String → String → ParticipantRow
member_of id name = record {
  id = name;
  room_id = id;
  display_name = name;
  role = "guest";
  online = 1;
  created_at = "1";
  last_seen_at = "1";
}

abbrev session_of : String → String → List ℕ → SessionRow
session_of id name digest = record {
  digest = digest;
  room_id = id;
  participant_id = name;
  role = "guest";
  expires_at = "99";
  revoked_at = none;
}

abbrev two_guests : RoomStore
two_guests = record {
  db = record {
    rooms = row_of "room_one" ∷ row_of "room_two" ∷ [];
    messages = [];
    runs = [];
    invites = invite_of "room_one" (1 ∷ []) ∷ invite_of "room_two" (2 ∷ []) ∷ [];
    participants = member_of "room_one" "Ada" ∷ member_of "room_two" "Bo" ∷ [];
    sessions =
        session_of "room_one" "Ada" (codes "a") ∷ session_of "room_two" "Bo" (codes "b") ∷ [];
  };
  unreadable = 0;
}

abbrev other : RoomSession
other = record {
  room_id = "room_two";
  participant_id = "Bo";
  role = ParticipantRole.guest;
  display_name = "Bo";
  secret = "b";
}

entered : enter world (draw 2) invite "Ada" with_room ≡ (ok guest, with_guest)
unfolding any_char byte_len char_count is_ascii_alphanumeric is_control is_whitespace starts_with
    trim trim_end_matches trim_start_matches codes decimal numeral seal_text open_text
    open_text_detailed strip_prefix to_sealing ensure_writable is_bad_origin is_local_host
    validate_model_id validate_share_origin validate_non_empty validate_display_name validate_delta
    validate_room_id is_id_character is_unsupported for_id any_where count_where find_where
    update_where delete_where select insert_room insert_invite insert_participant insert_message
    insert_run insert_session insert_new_room ct_eq future_timestamp create_rows enter admit join
    live_participants
entered = refl

resolve_session-enter_example :
    resolve_session world 3000 guest.secret with_guest ≡ (ok (some guest), with_guest)
unfolding any_char byte_len char_count is_ascii_alphanumeric is_control is_whitespace starts_with
    trim trim_end_matches trim_start_matches codes decimal numeral seal_text open_text
    open_text_detailed strip_prefix to_sealing ensure_writable is_bad_origin is_local_host
    validate_model_id validate_share_origin validate_non_empty validate_display_name validate_delta
    validate_room_id is_id_character is_unsupported for_id any_where count_where find_where
    update_where delete_where select insert_room insert_invite insert_participant insert_message
    insert_run insert_session insert_new_room ct_eq future_timestamp create_rows enter admit join
    live_participants
resolve_session-enter_example =
    resolve_session-enter world world-IsFaithful (draw 2) invite "Ada" guest 3000 with_room
      with_guest refl refl (omega arith) refl

live_participants-enter_example : live_participants world 2000 room with_guest.db ≤ max_participants
unfolding any_char byte_len char_count is_ascii_alphanumeric is_control is_whitespace starts_with
    trim trim_end_matches trim_start_matches codes decimal numeral seal_text open_text
    open_text_detailed strip_prefix to_sealing ensure_writable is_bad_origin is_local_host
    validate_model_id validate_share_origin validate_non_empty validate_display_name validate_delta
    validate_room_id is_id_character is_unsupported for_id any_where count_where find_where
    update_where delete_where select insert_room insert_invite insert_participant insert_message
    insert_run insert_session insert_new_room ct_eq future_timestamp create_rows enter admit join
    live_participants
live_participants-enter_example =
    live_participants-enter world (draw 2) invite "Ada" guest with_room with_guest refl

-- The invite of the first room is renewed, and the guest of the second still comes in.
resolve_session-Ends_example : ("room_two" == "room_one") ≡ false
unfolding any_char byte_len char_count is_ascii_alphanumeric is_control is_whitespace starts_with
    trim trim_end_matches trim_start_matches codes decimal numeral seal_text open_text
    open_text_detailed strip_prefix to_sealing ensure_writable for_id any_where count_where
    find_where update_where delete_where select ct_eq future_timestamp rotate resolve_session
    session_row parse_participant_role
resolve_session-Ends_example =
    resolve_session-Ends world (draw 8) "room_one" two_guests
      (rotate "room_one" [] "9" "8" two_guests).1 7 "b" other
      (by_rotate [] "9" "8" "https://rooms.example.org" refl) refl

admit_cases_example :
    ((e : StoreError) × (admitting world 2000
          (codes invite)
          (guest_row world (draw 2) "Ada")
          (guest_session world (draw 2))
          with_room
        ≡ (err e, with_room)))
    ⊎ Admitted world 2000
        (codes invite)
        (guest_row world (draw 2) "Ada")
        (guest_session world (draw 2))
        with_room
        (admitting world 2000
          (codes invite)
          (guest_row world (draw 2) "Ada")
          (guest_session world (draw 2))
          with_room)
admit_cases_example =
    admit_cases world 2000 (codes invite) (guest_row world (draw 2) "Ada")
      (guest_session world (draw 2)) with_room
