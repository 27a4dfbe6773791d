-- ===== src/Examples/Turns.antt =====
-- A turn, and the same turn again, in the concrete world.
use ryu_rooms.Examples.{codes, decimal, numeral}
use ryu_rooms.Limits.{
  is_bad_origin, is_local_host, is_unsupported, validate_delta, validate_display_name,
  validate_model_id, validate_non_empty, validate_share_origin,
}
use ryu_rooms.Seal.{for_id}
use ryu_rooms.Seal.StoreSeal.{
  ensure_writable, open_text, open_text_detailed, seal_text, strip_prefix, to_sealing,
}
use ryu_rooms.Store.{
  ct_eq, insert_invite, insert_message, insert_participant, insert_room, insert_run, insert_session,
}
use ryu_rooms.Store.Ids.{future_timestamp, is_id_character, validate_room_id}
use ryu_rooms.Store.Rooms.{insert_new_room}
use ryu_rooms.Store.Turns.{seal_turn, start_turn}
use ryu_rooms.Table.{any_where, count_where, delete_where, find_where, select, update_where}
use ryu_rooms.Text.{
  any_char, byte_len, char_count, is_ascii_alphanumeric, is_control, is_whitespace, starts_with,
  trim, trim_end_matches, trim_start_matches,
}
use ryu_rooms.Prelude.{String, ◌≡◌, refl, none, some, ◌==◌, if◌then◌else◌}
use ryu_rooms.Result.{ok, err}
use ryu_rooms.Store.{RoomStore, conflict}
use ryu_rooms.Store.Rooms.{create_rows}
use ryu_rooms.Store.Turns.{accept_turn}
use ryu_rooms.Store.Turns.Replay.{accept_turn-accept_turn}
use ryu_rooms.Examples.{draw, input, new_store, room, world, world-IsFaithful}

abbrev pub with_room : RoomStore
with_room = (create_rows world (draw 1) input new_store).1

abbrev pub with_turn : RoomStore
with_turn = (accept_turn world (draw 3) room "member_a" (some "k") "hello" with_room).1

abbrev pub run : String
run = "run_0123456789ab301"

created :
    (create_rows world (draw 1) input new_store).0
    ≡ ok (room, "0123456789ab102", "https://rooms.example.org")
unfolding any_char byte_len char_count is_ascii_alphanumeric is_control is_whitespace starts_with
    trim trim_end_matches trim_start_matches codes decimal numeral seal_text open_text
    open_text_detailed strip_prefix to_sealing ensure_writable is_bad_origin is_local_host
    validate_model_id validate_share_origin validate_non_empty validate_display_name validate_delta
    validate_room_id is_id_character is_unsupported for_id any_where count_where find_where
    update_where delete_where select insert_room insert_invite insert_participant insert_message
    insert_run insert_session insert_new_room ct_eq future_timestamp create_rows
created = refl

accepted :
    (accept_turn world (draw 3) room "member_a" (some "k") "hello" with_room).0
    ≡ ok (run, some "msg_0123456789ab300")
unfolding any_char byte_len char_count is_ascii_alphanumeric is_control is_whitespace starts_with
    trim trim_end_matches trim_start_matches codes decimal numeral seal_text open_text
    open_text_detailed strip_prefix to_sealing ensure_writable is_bad_origin is_local_host
    validate_model_id validate_share_origin validate_non_empty validate_display_name validate_delta
    validate_room_id is_id_character is_unsupported for_id any_where count_where find_where
    update_where delete_where select insert_room insert_invite insert_participant insert_message
    insert_run insert_session insert_new_room ct_eq future_timestamp create_rows accept_turn
    start_turn seal_turn
accepted = refl

accept_turn-accept_turn_example :
    accept_turn world (draw 4) room "member_b" (some "k") "bye" with_turn
    ≡ ((if "hello" == "bye" then ok (run, none) else err conflict), with_turn)
unfolding any_char byte_len char_count is_ascii_alphanumeric is_control is_whitespace starts_with
    trim trim_end_matches trim_start_matches codes decimal numeral seal_text open_text
    open_text_detailed strip_prefix to_sealing ensure_writable is_bad_origin is_local_host
    validate_model_id validate_share_origin validate_non_empty validate_display_name validate_delta
    validate_room_id is_id_character is_unsupported for_id any_where count_where find_where
    update_where delete_where select insert_room insert_invite insert_participant insert_message
    insert_run insert_session insert_new_room ct_eq future_timestamp create_rows accept_turn
    start_turn seal_turn
accept_turn-accept_turn_example =
    accept_turn-accept_turn world world-IsFaithful (draw 3) (draw 4) room "member_a" "member_b" "k"
      "hello" "bye" run "msg_0123456789ab300" with_room with_turn refl
