-- ===== src/SealedFile/Pieces.antt =====
-- Writing a sealed file in pieces (crates/core/crypto/src/sealed_file.rs), against a writer that takes
-- one byte at a time.
use mathlib.Core.List.{append-nil, append_assoc}
use ryu_rooms.Prelude.{
  ℕ, zero, suc, ◌+◌, ◌-◌, ◌≤◌, ◌<◌, ◌≡◌, refl, sym, ap, ◌∙◌, arith, false, [], ◌∷◌, ◌++◌, length,
  length-append, take, Option-cases, inl, inr,
}
use ryu_rooms.Result.{Result, ok, ◌>>=◌, Result-cases}
use ryu_rooms.Bytes.{Bytes, drop}
use ryu_rooms.Bytes.Slices.{length-take_of_le, length-drop}
use ryu_rooms.Content.{Primitives, Error}
use ryu_rooms.SealedFile.{
  SealedFileWriter, seal_chunk, make_room, taken, fill, write_loop, smaller, chunk_nonce,
}

-- What every writer keeps: the buffer is no longer than a chunk.
abbrev pub IsRoomy : SealedFileWriter → Type 0
IsRoomy w = (0 < w.chunk_size) × (length w.buffer ≤ w.chunk_size)

unfoldable pub put : SealedFileWriter → Bytes → SealedFileWriter
put w bs = record w { buffer = w.buffer ++ bs }

take-append-drop : (n : ℕ) (xs : Bytes) → take n xs ++ drop n xs ≡ xs
take-append-drop zero xs = refl
take-append-drop (suc n) [] = refl
take-append-drop (suc n) (b ∷ xs) = ap (λ (r : Bytes). b ∷ r) (take-append-drop n xs)

module _ (x : Primitives) where
  -- The writer of single bytes.
  unfoldable pub push_bytes : SealedFileWriter → Bytes → Result Error SealedFileWriter
  push_bytes w [] = ok w
  push_bytes w (b ∷ bs) = do roomy ← make_room x w; push_bytes (put roomy (b ∷ [])) bs

  make_room_ok :
      (w v : SealedFileWriter)
      → IsRoomy w
      → make_room x w ≡ ok v
      → (v.chunk_size ≡ w.chunk_size) × (length v.buffer < w.chunk_size)
  unfolding make_room seal_chunk
  make_room_ok w v i h =
      elim (Option-cases (x.encrypt w.key (chunk_nonce w.next_index false) w.buffer w.header)) [
        | inl e ↦ ground (arith, e)
        | inr (sealed, e) ↦ ground (arith, e)
      ]

  -- A buffer that is not full stays as it is.
  make_room_idle : (w : SealedFileWriter) → length w.buffer < w.chunk_size → make_room x w ≡ ok w
  unfolding make_room
  make_room_idle w h = ground arith

  pub push_bytes-append :
      (w : SealedFileWriter) (xs ys : Bytes)
      → push_bytes w (xs ++ ys) ≡ (push_bytes w xs >>= λ v. push_bytes v ys)
  unfolding push_bytes
  push_bytes-append w [] ys = refl
  push_bytes-append w (b ∷ xs) ys = elim (Result-cases (make_room x w)) [
    | inl (v, e) ↦ rw e (push_bytes-append (put v (b ∷ [])) xs ys)
    | inr (e', e) ↦ rw e refl
  ]

  -- Bytes for which there is room.
  push_bytes_fit :
      (w : SealedFileWriter) (bs : Bytes)
      → length w.buffer + length bs ≤ w.chunk_size
      → push_bytes w bs ≡ ok (put w bs)
  unfolding push_bytes put
  push_bytes_fit w [] h = rw (append-nil w.buffer) refl
  push_bytes_fit w (b ∷ bs) h = rw (make_room_idle w (omega arith)) (
      push_bytes_fit (put w (b ∷ [])) bs (omega (arith, length-append w.buffer (b ∷ [])))
      ∙ (rw (append_assoc w.buffer (b ∷ []) bs) refl))

  pub push_bytes-IsRoomy :
      (w v : SealedFileWriter) (bs : Bytes) → IsRoomy w → push_bytes w bs ≡ ok v → IsRoomy v
  unfolding push_bytes put
  push_bytes-IsRoomy w v [] i h = ground arith
  push_bytes-IsRoomy w v (b ∷ bs) i h = elim (Result-cases (make_room x w)) [
    | inl (r, e) ↦
        let (size, room) = make_room_ok w r i e in
        push_bytes-IsRoomy (put r (b ∷ [])) v bs
          (omega (arith, size), omega (arith, size, length-append r.buffer (b ∷ []))) (rw e at h)
    | inr (e', e) ↦ absurd (ground (arith, e))
  ]

  -- Making room first changes nothing for the bytes that follow.
  push_bytes-make_room :
      (w r : SealedFileWriter) (b : ℕ) (rest : Bytes)
      → IsRoomy w
      → make_room x w ≡ ok r
      → push_bytes w (b ∷ rest) ≡ push_bytes r (b ∷ rest)
  unfolding push_bytes
  push_bytes-make_room w r b rest i h =
      let (size, room) = make_room_ok w r i h in rw (h, make_room_idle r (omega (arith, size))) refl

  -- A round of the loop.
  push_bytes-fill :
      (r : SealedFileWriter) (rest : Bytes)
      → length r.buffer ≤ r.chunk_size
      → push_bytes r rest ≡ push_bytes (fill r rest) (drop (taken r rest) rest)
  unfolding fill taken
  push_bytes-fill r rest room =
      let n = smaller (r.chunk_size - length r.buffer) (length rest) in
      let fits : n ≤ length rest = ground arith in
      let small : length r.buffer + n ≤ r.chunk_size = ground arith in
      ap (push_bytes r) (sym (take-append-drop n rest))
      ∙ push_bytes-append r (take n rest) (drop n rest)
      ∙ rw (push_bytes_fit r (take n rest) (omega (arith, small, length-take_of_le n rest fits)))
          (unfold put in refl)

  taken_pos :
      (r : SealedFileWriter) (b : ℕ) (rest : Bytes)
      → length r.buffer < r.chunk_size
      → 0 < taken r (b ∷ rest)
  unfolding taken
  taken_pos r b rest h = ground arith

  fill-IsRoomy : (r : SealedFileWriter) (rest : Bytes) → IsRoomy r → IsRoomy (fill r rest)
  unfolding fill taken
  fill-IsRoomy r rest i =
      let n = smaller (r.chunk_size - length r.buffer) (length rest) in
      let fits : n ≤ length rest = ground arith in
      let small : length r.buffer + n ≤ r.chunk_size = ground arith in
      (
        i.0,
        omega (arith, small, length-append r.buffer (take n rest), length-take_of_le n rest fits),
      )

  pub write_loop-push_bytes :
      (fuel : ℕ) (w : SealedFileWriter) (plain : Bytes)
      → length plain < fuel
      → IsRoomy w
      → write_loop x fuel w plain ≡ push_bytes w plain
  unfolding write_loop
  write_loop-push_bytes zero w plain b i = absurd (omega arith)
  write_loop-push_bytes (suc fuel) w [] b i = unfold push_bytes in refl
  write_loop-push_bytes (suc fuel) w (c ∷ rest) b i = elim (Result-cases (make_room x w)) [
    | inl (r, e) ↦
        let (size, room) = make_room_ok w r i e in
        let n = taken r (c ∷ rest) in
        rw e (
          write_loop-push_bytes fuel (fill r (c ∷ rest)) (drop n (c ∷ rest))
            (omega (arith, length-drop n (c ∷ rest), taken_pos r c rest (omega (arith, size))))
            (fill-IsRoomy r (c ∷ rest) (omega (arith, size), omega (arith, size)))
          ∙ sym (
              push_bytes-make_room w r c rest i e
              ∙ push_bytes-fill r (c ∷ rest) (omega (arith, size))))
    | inr (e', e) ↦ rw e (unfold push_bytes in (rw e refl))
  ]
