-- ===== src/Examples.antt =====
-- A concrete world for the examples: its digest of a text is the list of its code points, its times
-- are decimal numerals, and it seals in the compatibility mode of the store's seal.
pub mod Limits
pub mod Turns
pub mod Guests
pub mod Runs
pub mod Life
pub mod Running
pub mod Reading
pub mod Primitives
pub mod Sealing
pub mod Logs
pub mod Files
pub mod Keys
use Prim.Native.Char.{code}
use Prim.Native.String.{[] as nil, ◌∷◌ as cons, ◌++◌ as append}
use ryu_rooms.Prelude.{
  ℕ, zero, suc, ◌+◌, ◌-◌, ◌*◌, ◌/◌, ◌%◌, String, Bool, true, false, Option, none, some, List, [],
  ◌∷◌, ltb, if◌then◌else◌,
}
use ryu_rooms.Result.{Result, ok, err}
use ryu_rooms.Limits.{Url}
use ryu_rooms.Seal.{IsFaithful}
use ryu_rooms.Seal.StoreSeal.{compat, to_sealing}
use ryu_rooms.Seal.StoreSeal.Faithful.{to_sealing-IsFaithful}
use ryu_rooms.Store.{Db, RoomStore, External, Draw, empty}
use ryu_rooms.Store.Rooms.{CreateRoomInput}

unfoldable pub codes : String → List ℕ
codes nil = []
codes (cons c s) = code c ∷ codes s

-- The n-th character of a text.
nth : String → ℕ → String
nth nil n = nil
nth (cons c s) zero = cons c nil
nth (cons c s) (suc n) = nth s n

unfoldable pub decimal : ℕ → ℕ → String
unfolding nth
decimal zero n = ""
decimal (suc fuel) n =
    let rest = decimal fuel (n / 10) in
    if ltb n 10 then nth "0123456789" n else append rest (nth "0123456789" (n % 10))

unfoldable pub numeral : ℕ → String → ℕ
numeral n nil = n
numeral n (cons c s) = numeral (n * 10 + (code c - 48)) s

abbrev pub url : Url
url = record {
  scheme = "https";
  host_str = some "rooms.example.org";
  username = "";
  password = none;
  query = none;
  fragment = none;
  path = "/";
}

abbrev pub world : External
world = record {
  sha256 = codes;
  to_rfc3339 = decimal 20;
  parse_from_rfc3339 = λ s. some (numeral 0 s);
  parse_url = λ s. some url;
  sealing = to_sealing compat;
}

-- The draws of the n-th call.
abbrev pub draw : ℕ → Draw
draw n = record {
  now = λ i. 1000 * n + i;
  uuid = λ i. append "0123456789ab" (decimal 20 (100 * n + i));
  nonce = λ i. i;
}

abbrev pub new_store : RoomStore
new_store = record { db = empty; unreadable = 0 }

abbrev pub input : CreateRoomInput
input = record { model_id = "qwen"; share_origin = "https://rooms.example.org" }

abbrev pub room : String
room = "room_0123456789ab100"

abbrev pub invite : String
invite = "0123456789ab102"

-- The compatibility mode opens what it seals.
pub world-IsFaithful : IsFaithful world.sealing
world-IsFaithful = to_sealing-IsFaithful compat tt
