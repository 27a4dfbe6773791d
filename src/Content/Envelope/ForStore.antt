-- ===== src/Content/Envelope/ForStore.antt =====
-- The cipher under the seal of a store (crates/core/crypto/src/content.rs under
-- crates/core/crypto/src/plugin_keys/store_seal.rs).
use Prim.Native.Char.{code}
use Prim.Native.String.{[] as nil, ◌∷◌ as cons, ◌++◌ as append}
use text.Mathlib.TextLemmas.{cons-append}
use ryu_rooms.Prelude.{◌≡◌, refl, arith, String, Bool, true, false, none, eqb, if◌then◌else◌}
use ryu_rooms.Result.{Result, ok, err, map_err}
use ryu_rooms.Seal.{IsFaithful}
use ryu_rooms.Seal.StoreSeal.{
  ContentCipher as StoreCipher, sealing, to_sealing, content_text_prefix, compat_escape,
  strip_prefix,
}
use ryu_rooms.Seal.StoreSeal.Opens.{IsCipher}
use ryu_rooms.Seal.StoreSeal.Faithful.{to_sealing-IsFaithful}
use ryu_rooms.Content.{Primitives, IsLawful, Error, to_message}
use ryu_rooms.Content.Keys.{ContentCipher}
use ryu_rooms.Content.Envelope.{Opened, seal_text, open_text}
use ryu_rooms.Content.Envelope.Opening.{seal_text_ok, open_text-seal_text_with_nonce}

abbrev opened_pair : Result String Opened → Result String (String × Bool)
opened_pair (ok o) = ok (o.value, o.needs_reseal)
opened_pair (err e) = err e

-- The two operations of a cipher as a store holds them; an error is its message.
unfoldable pub to_store_cipher : Primitives → ContentCipher → StoreCipher
to_store_cipher x c = record {
  seal_text = λ draw value context. map_err to_message (seal_text x c draw value context);
  open_text = λ stored context. opened_pair (map_err to_message (open_text x c stored context));
}

-- Whether two texts differ at a place that both have.
apart : String → String → Bool
apart (cons c p) (cons d q) = if eqb (code c) (code d) then apart p q else true
apart _ _ = false

strip_prefix-apart : (p s q : String) → apart p q ≡ true → strip_prefix (append p s) q ≡ none
unfolding apart strip_prefix
strip_prefix-apart nil s q h = absurd (ground arith)
strip_prefix-apart (cons c p) s nil h = absurd (ground arith)
strip_prefix-apart (cons c p) s (cons d q) h =
    rw cons-append (ground (arith, strip_prefix-apart p s q))

map_err-ok : {A : Type 0} (r : Result Error A) (a : A) → map_err to_message r ≡ ok a → r ≡ ok a
map_err-ok (ok b) a h = ground arith
map_err-ok (err e) a h = absurd (ground arith)

-- A content cipher of lawful primitives obeys the law that the seal of a store asks of it.
pub to_store_cipher-IsCipher :
    (x : Primitives) (c : ContentCipher) → IsLawful x → IsCipher (to_store_cipher x c)
unfolding to_store_cipher seal_text apart
to_store_cipher-IsCipher x c law = record {
  open-seal = λ draw value context sealed h. (
    false,
    rw
        (open_text-seal_text_with_nonce law c value context _ sealed (law.length-fill_bytes draw 12)
          (map_err-ok _ sealed h))
        refl,
  );
  no_escape = λ draw value context sealed h.
      let (ciphertext, e, f) = seal_text_ok law c value context _ sealed (map_err-ok _ sealed h) in
      rw f (strip_prefix-apart content_text_prefix _ compat_escape refl);
}

-- A store that seals with a content cipher of lawful primitives gives the rooms store what it relies
-- on: each value it seals, under any draw, it opens again in its own context.
pub to_store_cipher-IsFaithful :
    (x : Primitives) (c : ContentCipher)
    → IsLawful x
    → IsFaithful (to_sealing (sealing (to_store_cipher x c)))
to_store_cipher-IsFaithful x c law =
    to_sealing-IsFaithful (sealing (to_store_cipher x c)) (to_store_cipher-IsCipher x c law)
