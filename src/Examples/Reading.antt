-- ===== src/Examples/Reading.antt =====
-- A room whose texts do not open, in a world without a key.
use ryu_rooms.Examples.{codes, decimal, numeral}
use ryu_rooms.Model.{
  parse_message_role, parse_participant_role, parse_room_status, parse_run_status,
}
use ryu_rooms.Store.Ids.{is_id_character, validate_room_id}
use ryu_rooms.Store.Read.{row_to_message, row_to_participant, row_to_run}
use ryu_rooms.Table.{count_where, find_where}
use ryu_rooms.Text.{
  any_char, byte_len, char_count, is_ascii_alphanumeric, is_control, is_whitespace, starts_with,
  trim, trim_end_matches, trim_start_matches,
}
use ryu_rooms.Prelude.{◌≡◌, refl, false, none, some, [], ◌∷◌}
use ryu_rooms.Result.{ok, err}
use ryu_rooms.Model.{RoomSnapshot}
use ryu_rooms.Store.{External, MessageRow, RoomRow, RoomStore}
use ryu_rooms.Store.Read.{snapshot}
use ryu_rooms.Store.Read.Total.{IsLegible, snapshot_total}
use ryu_rooms.Examples.{room, world}
use ryu_rooms.Examples.Runs.{running_row}

-- The concrete world, where no value opens.
abbrev blind : External
blind = record world {
  sealing = record {
    seal_text = λ nonce value context. err "no key";
    open_text = λ stored context. err "no key";
    is_writable = false;
  };
}

abbrev row : RoomRow
row = record {
  id = room;
  schema_version = 1;
  contract = "rooms/1";
  status = "running";
  model_id = "qwen";
  engine = "mesh-llm";
  share_origin = "https://rooms.example.org";
  created_at = "1";
  updated_at = "3";
}

abbrev message : MessageRow
message = record {
  id = "msg_0123456789ab300";
  room_id = room;
  role = "user";
  text = "encb:v1:";
  participant_id = none;
  created_at = "3";
}

abbrev sealed_store : RoomStore
sealed_store = record {
  db = record {
    rooms = row ∷ [];
    messages = message ∷ [];
    runs = running_row ∷ [];
    invites = [];
    participants = [];
    sessions = [];
  };
  unreadable = 0;
}

sealed_store-IsLegible : IsLegible sealed_store.db
unfolding count_where row_to_message row_to_run row_to_participant parse_room_status
    parse_run_status parse_message_role parse_participant_role
sealed_store-IsLegible = record { rooms = refl; messages = refl; runs = refl; participants = refl }

snapshot_total_example :
    (snap : RoomSnapshot) × ((snapshot blind room sealed_store).0 ≡ ok (some snap))
unfolding any_char byte_len char_count is_ascii_alphanumeric is_control is_whitespace starts_with
    trim trim_end_matches trim_start_matches codes decimal numeral validate_room_id is_id_character
    find_where
snapshot_total_example =
    snapshot_total blind room room row sealed_store sealed_store-IsLegible refl refl
