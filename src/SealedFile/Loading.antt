-- ===== src/SealedFile/Loading.antt =====
-- Loading one chunk of a sealed file (crates/core/crypto/src/sealed_file.rs).
use mathlib.Core.List.{append_assoc}
use native.Mathlib.Nat.{suc-mul}
use ryu_rooms.Prelude.{
  ℕ, zero, suc, ◌+◌, ◌*◌, ◌≤◌, ◌<◌, ◌≡◌, refl, arith, true, false, some, List, [], ◌∷◌, ◌++◌,
  length, take,
}
use ryu_rooms.Bytes.{Bytes, drop}
use ryu_rooms.Bytes.Slices.{take_exact}
use ryu_rooms.Content.{Primitives}
use ryu_rooms.SealedFile.{chunk_nonce}
use ryu_rooms.SealedFile.Layout.{Fulls, concat_chunks}

-- The part of a text at an index, in chunks of a size.
abbrev pub chunk_at : ℕ → ℕ → Bytes → Bytes
chunk_at size index plain = take size (drop (index * size) plain)

pub drop-append : (n : ℕ) (xs ys : Bytes) → drop (length xs + n) (xs ++ ys) ≡ drop n ys
drop-append n [] ys = let e : 0 + n ≡ n = omega arith in rw e refl
drop-append n (b ∷ xs) ys =
    let e : suc (length xs) + n ≡ suc (length xs + n) = omega arith in rw e (drop-append n xs ys)

-- A chunk and what follows it: the next index is one chunk further.
drop_chunk :
    (k index : ℕ) (c rest : Bytes)
    → length c ≡ k
    → drop (suc index * k) (c ++ rest) ≡ drop (index * k) rest
drop_chunk k index c rest h =
    let e : suc index * k ≡ length c + index * k = omega (arith, suc-mul index k) in
    rw e (drop-append (index * k) c rest)

module _ (x : Primitives) (key header : Bytes) (size : ℕ) where
  -- A full chunk: its sealed bytes stand at its place in the file, and its text at its place in the
  -- plaintext.
  pub full_chunk :
      (start index : ℕ) (cs : List Bytes) (bytes tail last : Bytes)
      → Fulls x key header size start cs bytes
      → index < length cs
      → (x.decrypt key
            (chunk_nonce (start + index) false)
            (take (size + 16) (drop (index * (size + 16)) (bytes ++ tail)))
            header
          ≡ some (chunk_at size index (concat_chunks cs ++ last)))
  unfolding concat_chunks
  full_chunk start index [] bytes tail last f h = absurd (omega arith)
  full_chunk start zero (c ∷ cs) bytes tail last (sealed, more, l, k, d, e, f) h =
      let here : start + 0 ≡ start = omega arith in
      let first : 0 * (size + 16) ≡ 0 = omega arith in
      let zeroth : 0 * size ≡ 0 = omega arith in
      rw
        (
          here,
          first,
          zeroth,
          e,
          append_assoc sealed more tail,
          take_exact sealed (more ++ tail) k,
          append_assoc c (concat_chunks cs) last,
          take_exact c (concat_chunks cs ++ last) l,
        )
        d
  full_chunk start (suc j) (c ∷ cs) bytes tail last (sealed, more, l, k, d, e, f) h =
      let next : start + suc j ≡ suc start + j = omega arith in
      rw
        (
          next,
          e,
          append_assoc sealed more tail,
          drop_chunk (size + 16) j sealed (more ++ tail) k,
          append_assoc c (concat_chunks cs) last,
          drop_chunk size j c (concat_chunks cs ++ last) l,
        )
        (full_chunk (suc start) j cs more tail last f (omega arith))

  -- A file of full chunks and a last one.
  pub record IsFile (body plain : Bytes) (count : ℕ) : Type 0 where
    pub chunks : List Bytes
    pub bytes : Bytes
    pub tail : Bytes
    pub last : Bytes
    pub bodied : body ≡ bytes ++ tail
    pub layout : Fulls x key header size 0 chunks bytes
    pub ends : x.decrypt key (chunk_nonce (length chunks) true) tail header ≡ some last
    pub sized : length tail ≡ length last + 16
    pub small : length last ≤ size
    pub text : plain ≡ concat_chunks chunks ++ last
    pub counted : count ≡ length chunks + 1
