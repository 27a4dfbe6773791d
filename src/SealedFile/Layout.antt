-- ===== src/SealedFile/Layout.antt =====
-- What the length of a sealed file says (crates/core/crypto/src/sealed_file.rs).
use mathlib.Core.List.{append-nil, append_assoc}
use native.Mathlib.Decide.{dec_lt}
use native.Mathlib.Nat.{
  mod-eq_of_lt, div-eq_of_lt, mul-add-div_right, mul-add-mod_self_right, suc-mul,
}
use ryu_rooms.Prelude.{
  ℕ, suc, ◌+◌, ◌*◌, ◌/◌, ◌%◌, ◌≤◌, ◌<◌, ◌≡◌, refl, sym, ap, ◌∙◌, arith, List, [], ◌∷◌, ◌++◌, length,
  length-append, some, false,
}
use ryu_rooms.Result.{ok}
use ryu_rooms.Bytes.{Bytes}
use ryu_rooms.Content.{Primitives}
use ryu_rooms.SealedFile.{chunk_nonce}
use ryu_rooms.SealedFile.Reader.{measure}

divide : (n d r : ℕ) → r < d → ((n * d + r) / d ≡ n) × ((n * d + r) % d ≡ r)
divide n d r h = (
  mul-add-div_right (omega arith) n r ∙ (let e = div-eq_of_lt h in omega (arith, e)),
  mul-add-mod_self_right n d r ∙ mod-eq_of_lt h,
)

-- Of the length that full chunks and then a last one take, opening computes how many chunks there are
-- and how long they are together.
pub measure_lem :
    (size n last : ℕ)
    → 0 < size
    → last ≤ size
    → measure size (n * (size + 16) + (last + 16)) ≡ ok (n + 1, n * size + last)
unfolding measure
measure_lem size n last p b = elim (dec_lt last size) [
  | yes h ↦ let (q, r) = divide n (size + 16) (last + 16) (omega arith) in rw (q, r) (ground arith)
  | no h ↦
      let whole : n * (size + 16) + (last + 16) ≡ suc n * (size + 16) + 0 =
        omega (arith, suc-mul n (size + 16)) in
      let (q, r) = divide (suc n) (size + 16) 0 (omega arith) in
      rw (whole, q, r) (ground (arith, suc-mul n size))
]

-- The plaintext of full chunks.
unfoldable pub concat_chunks : List Bytes → Bytes
concat_chunks [] = []
concat_chunks (c ∷ cs) = c ++ concat_chunks cs

module _ (x : Primitives) (key header : Bytes) (size : ℕ) where
  -- The bytes are the sealed full chunks, the first of which has this index.
  abbrev pub Fulls : ℕ → List Bytes → Bytes → Type 0
  Fulls index [] bytes = bytes ≡ []
  Fulls index (c ∷ cs) bytes =
      (sealed : Bytes) × (more : Bytes) × (length c ≡ size)
      × (length sealed ≡ size + 16)
      × (x.decrypt key (chunk_nonce index false) sealed header ≡ some c)
      × (bytes ≡ sealed ++ more)
      × Fulls (suc index) cs more

  pub Fulls-snoc :
      (index : ℕ) (cs : List Bytes) (bytes c sealed : Bytes)
      → length c ≡ size
      → length sealed ≡ size + 16
      → x.decrypt key (chunk_nonce (index + length cs) false) sealed header ≡ some c
      → Fulls index cs bytes
      → Fulls index (cs ++ c ∷ []) (bytes ++ sealed)
  Fulls-snoc index [] bytes c sealed l k d f =
      let start : index + 0 ≡ index = omega arith in
      (sealed, [], l, k, rw start at d, rw f (sym (append-nil sealed)), refl)
  Fulls-snoc index (r ∷ rs) bytes c sealed l k d (s', more, l', k', d', e, f) =
      let next : index + suc (length rs) ≡ suc index + length rs = omega arith in
      (
        s',
        more ++ sealed,
        l',
        k',
        d',
        rw e (append_assoc s' more sealed),
        Fulls-snoc (suc index) rs more c sealed l k (rw next at d) f,
      )

  pub length-Fulls :
      (index : ℕ) (cs : List Bytes) (bytes : Bytes)
      → Fulls index cs bytes
      → length bytes ≡ length cs * (size + 16)
  length-Fulls index [] bytes f = omega (arith, ap length f)
  length-Fulls index (c ∷ cs) bytes (s, more, l, k, d, e, f) = omega (
    arith,
    ap length e,
    length-append s more,
    length-Fulls (suc index) cs more f,
    suc-mul (length cs) (size + 16),
  )

  pub length-concat_chunks :
      (index : ℕ) (cs : List Bytes) (bytes : Bytes)
      → Fulls index cs bytes
      → length (concat_chunks cs) ≡ length cs * size
  unfolding concat_chunks
  length-concat_chunks index [] bytes f = omega arith
  length-concat_chunks index (c ∷ cs) bytes (s, more, l, k, d, e, f) = omega (
    arith,
    length-append c (concat_chunks cs),
    length-concat_chunks (suc index) cs more f,
    suc-mul (length cs) size,
  )
