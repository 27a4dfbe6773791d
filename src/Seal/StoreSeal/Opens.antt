-- ===== src/Seal/StoreSeal/Opens.antt =====
-- Opening what crates/core/crypto/src/plugin_keys/store_seal.rs has sealed.
use Prim.Native.String.{[], ◌∷◌, ◌++◌}
use text.Mathlib.TextLemmas.{nil-append, cons-append}
use ryu_rooms.Prelude.{
  ap, ℕ, String, ◌≡◌, refl, Bool, true, false, arith, none, some, Bool-cases, Option-cases, inl,
  inr,
}
use ryu_rooms.Result.{ok}
use ryu_rooms.Text.{starts_with}
use ryu_rooms.Seal.{ContentContext}
use ryu_rooms.Seal.StoreSeal.{
  ContentCipher, StoreSeal, sealing, compat, unhealthy, compat_escape, content_text_prefix,
  strip_prefix, seal_text, open_text,
}

pub strip_prefix-append : (p s : String) → strip_prefix (p ++ s) p ≡ some s
unfolding strip_prefix
strip_prefix-append [] s = ap some (nil-append s)
strip_prefix-append (c ∷ p) s = rw cons-append (ground (arith, strip_prefix-append p s))

starts_with_of_strip_prefix : (s p r : String) → strip_prefix s p ≡ some r → starts_with s p ≡ true
unfolding strip_prefix starts_with
starts_with_of_strip_prefix s [] r h = refl
starts_with_of_strip_prefix [] (d ∷ p) r h = absurd (ground arith)
starts_with_of_strip_prefix (c ∷ s) (d ∷ p) r h = ground (arith, starts_with_of_strip_prefix s p r)

starts_with_weaken : (s p q : String) → starts_with s (p ++ q) ≡ true → starts_with s p ≡ true
unfolding starts_with
starts_with_weaken s [] q h = refl
starts_with_weaken [] (d ∷ p) q h = rw cons-append at h
starts_with_weaken (c ∷ s) (d ∷ p) q h =
    let k = rw cons-append at h in ground (arith, starts_with_weaken s p q)

-- The law of the cipher: what it seals it opens, and a sealed value is no compatibility escape.
pub record IsCipher (c : ContentCipher) : Type 0 where
  pub open-seal :
      (nonce : ℕ) (value : String) (context : ContentContext) (sealed : String)
      → c.seal_text nonce value context ≡ ok sealed
      → (again : Bool) × (c.open_text sealed context ≡ ok (value, again))
  pub no_escape :
      (nonce : ℕ) (value : String) (context : ContentContext) (sealed : String)
      → c.seal_text nonce value context ≡ ok sealed
      → strip_prefix sealed compat_escape ≡ none

-- The condition on the mode: a cipher that is held obeys its law.
abbrev pub IsSound : StoreSeal → Type 0
IsSound (sealing c) = IsCipher c
IsSound compat = Unit {0}
IsSound (unhealthy _) = Unit {0}

compat-plain :
    (value : String)
    → starts_with value "encb:" ≡ false
    → (strip_prefix value compat_escape ≡ none) × (starts_with value content_text_prefix ≡ false)
compat-plain value h = (
  elim (Option-cases (strip_prefix value compat_escape)) [
    | inl e ↦ e
    | inr (r, e) ↦ absurd (
        ground (
          arith,
          starts_with_weaken value "encb:" "raw:"
              (starts_with_of_strip_prefix value compat_escape r e),
        ))
  ],
  elim (Bool-cases (starts_with value content_text_prefix)) [
    | inl e ↦ absurd (ground (arith, starts_with_weaken value "encb:" "v1:" e))
    | inr e ↦ e
  ],
)

-- What `seal_text` returns `open_text` opens to the value that was sealed, in the same context: by
-- the cipher's law when a key is held, and in the compatibility mode for every value, those that
-- look like an envelope included.
pub open_text-seal_text :
    (s : StoreSeal) (nonce : ℕ) (value : String) (context : ContentContext) (sealed : String)
    → IsSound s
    → seal_text s nonce value context ≡ ok sealed
    → open_text s sealed context ≡ ok value
unfolding seal_text open_text
open_text-seal_text (sealing c) nonce value context sealed law h =
    let (again, e) = law.open-seal nonce value context sealed h in
    rw (law.no_escape nonce value context sealed h) (rw e refl)
open_text-seal_text compat nonce value context sealed law h =
    ground (arith, compat-plain value, strip_prefix-append compat_escape value)
open_text-seal_text (unhealthy reason) nonce value context sealed law h = cc
