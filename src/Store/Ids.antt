-- ===== src/Store/Ids.antt =====
-- The helpers of backend/src/store.rs: ids, digests, times and the sealing of single values.
use Prim.Native.Char.{Char, code as char_code}
use Prim.Native.String.{◌++◌}
use ryu_rooms.Prelude.{
  ℕ, ◌*◌, String, Bool, false, ◌||◌, not, Option, none, some, ltb, eqb, if◌then◌else◌,
}
use ryu_rooms.Result.{Result, ok, err, map_err}
use ryu_rooms.Text.{any_char, byte_len, is_ascii_alphanumeric, starts_with, trim}
use ryu_rooms.Seal.{ContentContext, for_id}
use ryu_rooms.Store.{StoreError, invalid, seal as seal_failed, External, Exec, lift, pure, ◌>>=◌}

abbrev pub contract : String
contract = "rooms/1"

abbrev pub engine : String
engine = "mesh-llm"

abbrev pub ctx : String → String → String → ContentContext
ctx table column id = for_id (table ++ "." ++ column) id

abbrev pub opaque_id : String → String → String
opaque_id prefix uuid = prefix ++ uuid

unfoldable pub is_id_character : Char → Bool
is_id_character c = is_ascii_alphanumeric c || eqb (char_code c) b'_' || eqb (char_code c) b'-'

unfoldable pub validate_room_id : String → Result StoreError String
unfolding is_id_character
validate_room_id value =
    let value = trim value in
    if ltb (byte_len value) 13
      || ltb 105 (byte_len value)
      || not (starts_with value "room_")
      || any_char (λ c. not (is_id_character c)) value
    then err (invalid "roomId is invalid")
    else ok value

-- One second in the nanoseconds of a time.
abbrev pub seconds : ℕ → ℕ
seconds n = n * 1000000000

module _ (x : External) where
  abbrev pub later_than : ℕ → Option ℕ → Bool
  later_than now none = false
  later_than now (some parsed) = ltb now parsed

  unfoldable pub future_timestamp : String → ℕ → Bool
  future_timestamp value now = later_than now (x.parse_from_rfc3339 value)

  abbrev pub seal : ℕ → String → ContentContext → Exec String
  seal nonce value context = lift (map_err seal_failed (x.sealing.seal_text nonce value context))

  abbrev pub seal_opt : ℕ → Option String → ContentContext → Exec (Option String)
  seal_opt nonce none context = pure none
  seal_opt nonce (some value) context = do sealed ← seal nonce value context; pure (some sealed)

  abbrev pub open_value : String → ContentContext → Result StoreError String
  open_value stored context = map_err seal_failed (x.sealing.open_text stored context)
