-- ===== src/Seal/StoreSeal.antt =====
-- crates/core/crypto/src/plugin_keys/store_seal.rs: how one store seals, decided when it opens.
-- The cipher's two operations are arguments (`ContentCipher`).
pub mod Opens
pub mod Faithful
use Prim.Native.Char.{code}
use Prim.Native.String.{[], ◌∷◌, ◌++◌}
use ryu_rooms.Prelude.{
  ℕ, String, ◌≡◌, refl, Bool, true, false, arith, Option, none, some, eqb, if◌then◌else◌,
  Bool-cases, Option-cases, inl, inr, eq_iff, ◌&&◌,
}
use ryu_rooms.Result.{Result, ok, err, ◌>>=◌}
use ryu_rooms.Text.{starts_with}
use ryu_rooms.Seal.{ContentContext, Sealing, IsFaithful}

-- What `seal_text` and `open_text` of the cipher do: the second also says whether to seal again.
pub record ContentCipher : Type 0 where
  pub seal_text : ℕ → String → ContentContext → Result String String
  pub open_text : String → ContentContext → Result String (String × Bool)

pub data StoreSeal : Type 0 where
  sealing : ContentCipher → StoreSeal
  compat : StoreSeal
  unhealthy : String → StoreSeal

abbrev pub compat_escape : String
compat_escape = "encb:raw:"

abbrev pub content_text_prefix : String
content_text_prefix = "encb:v1:"

unfoldable pub strip_prefix : String → String → Option String
strip_prefix s [] = some s
strip_prefix [] (d ∷ p) = none
strip_prefix (c ∷ s) (d ∷ p) = if eqb (code c) (code d) then strip_prefix s p else none

unfoldable pub label : StoreSeal → String
label (sealing _) = "ok"
label compat = "compat"
label (unhealthy _) = "unhealthy"

unfoldable pub is_sealing : StoreSeal → Bool
is_sealing (sealing _) = true
is_sealing _ = false

unfoldable pub ensure_writable : StoreSeal → Result String (Unit {0})
ensure_writable (unhealthy reason) = err reason
ensure_writable _ = ok tt

unfoldable pub seal_text : StoreSeal → ℕ → String → ContentContext → Result String String
seal_text (sealing cipher) nonce value context = cipher.seal_text nonce value context
seal_text compat nonce value context =
    if starts_with value "encb:" then ok (compat_escape ++ value) else ok value
seal_text (unhealthy reason) nonce value context = err reason

abbrev no_key : String
no_key = "a sealed value cannot be opened: this process has no key for it"

-- A value that carries no escape.
open_stored : StoreSeal → String → ContentContext → Result String (String × Bool)
open_stored (sealing cipher) stored context = cipher.open_text stored context
open_stored _ stored context =
    if starts_with stored content_text_prefix then err no_key else ok (stored, false)

abbrev open_unescaped :
    StoreSeal → String → ContentContext → Option String → Result String (String × Bool)
open_unescaped s stored context (some inner) = ok (inner, is_sealing s)
open_unescaped s stored context none = open_stored s stored context

unfoldable pub open_text_detailed :
    StoreSeal → String → ContentContext → Result String (String × Bool)
unfolding open_stored
open_text_detailed s stored context =
    open_unescaped s stored context (strip_prefix stored compat_escape)

unfoldable pub open_text : StoreSeal → String → ContentContext → Result String String
unfolding open_text_detailed
open_text s stored context = do opened ← open_text_detailed s stored context; ok opened.0

pub is_ok {ℓ κ} : {E : Type ℓ} {A : Type κ} → Result E A → Bool
is_ok (ok _) = true
is_ok (err _) = false

-- The interface that the rooms store takes.
unfoldable pub to_sealing : StoreSeal → Sealing
unfolding seal_text open_text ensure_writable is_ok
to_sealing s = record {
  seal_text = seal_text s;
  open_text = open_text s;
  is_writable = is_ok (ensure_writable s);
}
