-- ===== src/Examples/Limits.antt =====
-- Validated texts and statuses, and the store's seal, at concrete values.
use Prim.Native.String.{◌++◌ as append}
use text.Mathlib.TextLemmas.{cons-append}
use ryu_rooms.Prelude.{String, ◌≡◌, refl, false, Option, none, some, Bool, arith}
use ryu_rooms.Result.{Result, ok, err}
use ryu_rooms.Seal.{IsFaithful}
use ryu_rooms.Seal.StoreSeal.{ContentCipher, compat_escape, strip_prefix, sealing, to_sealing}
use ryu_rooms.Seal.StoreSeal.Opens.{IsCipher, strip_prefix-append}
use ryu_rooms.Seal.StoreSeal.Faithful.{to_sealing-IsFaithful}

abbrev Same : String → String → Type 0
Same s t = s ≡ t

abbrev unmarked : Option String → Result String (String × Bool)
unmarked none = err "not sealed"
unmarked (some value) = ok (value, false)

abbrev seal_marked : String → Result String String
seal_marked value = ok (append "encb:v1:" value)

-- A cipher that marks what it seals.
abbrev marking : ContentCipher
marking = record {
  seal_text = λ nonce value context. seal_marked value;
  open_text = λ stored context. unmarked (strip_prefix stored "encb:v1:");
}

sealed_text :
    (value sealed : String) → seal_marked value ≡ ok sealed → append "encb:v1:" value ≡ sealed
sealed_text value sealed h = ground (arith, h)

opened :
    (value sealed : String)
    → seal_marked value ≡ ok sealed
    → unmarked (strip_prefix sealed "encb:v1:") ≡ ok (value, false)
opened value sealed h =
    rw (← sealed_text value sealed h) (rw (strip_prefix-append "encb:v1:" value) refl)

escaped :
    (value sealed : String)
    → seal_marked value ≡ ok sealed
    → strip_prefix sealed compat_escape ≡ none
unfolding strip_prefix
escaped value sealed h =
    rw (← sealed_text value sealed h)
      (rw (cons-append, cons-append, cons-append, cons-append, cons-append, cons-append) refl)

marking-IsCipher : IsCipher marking
unfolding strip_prefix
marking-IsCipher = record {
  open-seal = λ nonce value context sealed h. (false, opened value sealed h);
  no_escape = λ nonce value context sealed h. escaped value sealed h;
}

to_sealing-IsFaithful_example : IsFaithful (to_sealing (sealing marking))
to_sealing-IsFaithful_example = to_sealing-IsFaithful (sealing marking) marking-IsCipher
