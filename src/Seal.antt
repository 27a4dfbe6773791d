-- ===== src/Seal.antt =====
-- How the store seals the text of a row: the interface that backend/src/store.rs uses (its struct
-- `Sealing`), and the context that binds a value to its place (crates/core/crypto/src/content.rs).
pub mod StoreSeal
use Prim.Native.String.{◌++◌}
use ryu_rooms.Prelude.{ℕ, String, ◌≡◌, Bool, true, Option, none, some, List, [], ◌∷◌}
use ryu_rooms.Result.{Result, ok, ◌>>=◌}

-- `ContentContext`: a purpose and labelled ids.
pub record ContentContext : Type 0 where
  pub purpose : String
  pub fields : List (String × String)

unfoldable pub for_id : String → String → ContentContext
for_id purpose id = record { purpose = purpose; fields = ("id", id) ∷ [] }

-- A nonce is an argument: the code draws a fresh one for every value. An error is its message.
pub record Sealing : Type 0 where
  pub seal_text : ℕ → String → ContentContext → Result String String
  pub open_text : String → ContentContext → Result String String
  pub is_writable : Bool

-- What the store relies on: a sealed value opens in its own context, under any nonce.
pub record IsFaithful (s : Sealing) : Type 0 where
  pub open-seal :
      (nonce : ℕ) (value : String) (context : ContentContext) (sealed : String)
      → s.seal_text nonce value context ≡ ok sealed
      → s.open_text sealed context ≡ ok value
