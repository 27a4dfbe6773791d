-- ===== src/Examples/Life.antt =====
-- A life of a store in the concrete world: a room is made, used, and closed.
use ryu_rooms.Examples.{codes, decimal, numeral}
use ryu_rooms.Limits.{
  is_bad_origin, is_local_host, is_unsupported, validate_delta, validate_display_name,
  validate_model_id, validate_non_empty, validate_share_origin,
}
use ryu_rooms.Seal.{for_id}
use ryu_rooms.Seal.StoreSeal.{
  ensure_writable, open_text, open_text_detailed, seal_text, strip_prefix, to_sealing,
}
use ryu_rooms.Store.{
  ct_eq, insert_invite, insert_message, insert_participant, insert_room, insert_run, insert_session,
}
use ryu_rooms.Store.Ids.{future_timestamp, is_id_character, validate_room_id}
use ryu_rooms.Store.Rooms.{create_rows, insert_new_room}
use ryu_rooms.Store.Turns.{seal_turn, start_turn}
use ryu_rooms.Table.{any_where, count_where, delete_where, find_where, select, update_where}
use ryu_rooms.Text.{
  any_char, byte_len, char_count, is_ascii_alphanumeric, is_control, is_whitespace, starts_with,
  trim, trim_end_matches, trim_start_matches,
}
use ryu_rooms.Prelude.{refl, none, some, arith}
use ryu_rooms.Store.{RoomStore}
use ryu_rooms.Store.Consistent.{IsConsistent}
use ryu_rooms.Store.Turns.{accept_turn}
use ryu_rooms.Store.Closing.{close_room, recover_running}
use ryu_rooms.Store.Lifecycle.{
  Reach, Reach-IsConsistent, accepts, closes, creates, here, next, recovers,
}
use ryu_rooms.Store.Lifecycle.Closed.{IsClosed}
use ryu_rooms.Store.Lifecycle.Ending.{Reach-IsClosed}
use ryu_rooms.Examples.{draw, input, new_store, room, world}
use ryu_rooms.Examples.Turns.{with_turn}

abbrev shut : RoomStore
shut = (close_room world (draw 4) room with_turn).1

abbrev again : RoomStore
again = (accept_turn world (draw 5) room "member_a" none "again" shut).1

abbrev to_shut : Reach world new_store shut
to_shut =
    next
      (next (next here (creates (draw 1) input))
        (accepts (draw 3) room "member_a" (some "k") "hello"))
      (closes (draw 4) room)

Reach-IsConsistent_example : IsConsistent again.db
Reach-IsConsistent_example =
    Reach-IsConsistent world refl (next to_shut (accepts (draw 5) room "member_a" none "again"))

Reach-IsClosed_example : IsClosed room (recover_running world (draw 6) again).1.db
unfolding any_char byte_len char_count is_ascii_alphanumeric is_control is_whitespace starts_with
    trim trim_end_matches trim_start_matches codes decimal numeral seal_text open_text
    open_text_detailed strip_prefix to_sealing ensure_writable is_bad_origin is_local_host
    validate_model_id validate_share_origin validate_non_empty validate_display_name validate_delta
    validate_room_id is_id_character is_unsupported for_id any_where count_where find_where
    update_where delete_where select insert_room insert_invite insert_participant insert_message
    insert_run insert_session insert_new_room ct_eq future_timestamp create_rows accept_turn
    start_turn seal_turn close_room
Reach-IsClosed_example =
    Reach-IsClosed world room refl to_shut (omega arith)
      (next (next here (accepts (draw 5) room "member_a" none "again")) (recovers (draw 6)))
