-- ===== src/SealedFile/Ranges.antt =====
-- Reading a range of a sealed file (crates/core/crypto/src/sealed_file.rs).
use mathlib.Core.List.{append_assoc, append-nil}
use native.Mathlib.Decide.{dec_lt}
use native.Mathlib.Nat.{div-mul-le_self, lt-div-mul-add, div-lt_iff_lt-mul, add-mul}
use ryu_rooms.Prelude.{
  ℕ, zero, suc, ◌+◌, ◌-◌, ◌*◌, ◌/◌, ◌≤◌, ◌<◌, ◌≡◌, refl, ap, ◌∙◌, arith, true, false, ◌++◌, length,
  length-append, take, ltb, length-take-le,
}
use ryu_rooms.Result.{ok}
use ryu_rooms.Bytes.{Bytes, drop}
use ryu_rooms.Bytes.Slices.{length-drop, length-take_of_le, take_all}
use ryu_rooms.Bytes.Parts.{drop-take, take-take_of_le, drop-drop, take_split}
use ryu_rooms.Content.{Primitives}
use ryu_rooms.SealedFile.{smaller}
use ryu_rooms.SealedFile.Reader.{SealedFileReader, range_loop}
use ryu_rooms.SealedFile.Layout.{length-concat_chunks, concat_chunks}
use ryu_rooms.SealedFile.Loading.{chunk_at}
use ryu_rooms.SealedFile.Chunks.{IsReading, cache_chunk, load_chunk_lem, cache_chunk-IsReading}

module _ (x : Primitives) where
  index_in_range :
      (r : SealedFileReader) (plain : Bytes) (position : ℕ)
      → IsReading x r plain
      → 0 < r.chunk_size
      → position < length plain
      → position / r.chunk_size < r.chunk_count
  index_in_range r plain position i p b =
      let f = i.file in
      (div-lt_iff_lt-mul p).1 (
        omega (
          arith,
          f.counted,
          f.small,
          ap length f.text,
          length-append (concat_chunks f.chunks) f.last,
          length-concat_chunks x r.key r.header r.chunk_size 0 f.chunks f.bytes f.layout,
          ap (λ (t : ℕ). t * r.chunk_size) f.counted,
          add-mul (length f.chunks) 1 r.chunk_size,
        ))

  -- What a round of the loop copies is the part of the plaintext from the position on.
  piece :
      (size position n : ℕ) (plain : Bytes)
      → 0 < size
      → n ≤ length (chunk_at size (position / size) plain) - (position - position / size * size)
      → take n (drop (position - position / size * size) (chunk_at size (position / size) plain))
        ≡ take n (drop position plain)
  piece size position n plain p b =
      let q = position / size in
      let w = position - q * size in
      let here : q * size + w ≡ position = omega (arith, div-mul-le_self position size) in
      rw (drop-take w size (drop (q * size) plain), drop-drop w (q * size) plain, here)
        (take-take_of_le n (size - w) (drop position plain)
          (omega (arith, length-take-le size (drop (q * size) plain))))

  -- A round copies something.
  piece_pos :
      (size position : ℕ) (plain : Bytes)
      → 0 < size
      → position < length plain
      → 0 < length (chunk_at size (position / size) plain) - (position - position / size * size)
  piece_pos size position plain p b =
      let q = position / size in
      let rest = drop (q * size) plain in
      elim (dec_lt (length rest) size) [
        | yes h ↦
            rw (take_all size rest (omega arith))
              (omega (arith, length-drop (q * size) plain, div-mul-le_self position size))
        | no h ↦
            rw (length-take_of_le size rest (omega arith))
              (omega (arith, div-mul-le_self position size, lt-div-mul-add {a = position} p))
      ]

  range_end :
      (fuel : ℕ) (r : SealedFileReader) (end position : ℕ) (out plain : Bytes)
      → end ≤ position
      → range_loop x (suc fuel) r end position out
        ≡ ok (r, out ++ take (end - position) (drop position plain))
  unfolding range_loop
  range_end fuel r end position out plain h =
      let over : ltb position end ≡ false = ground arith in
      let none_left : end - position ≡ 0 = omega arith in rw (over, none_left, append-nil out) refl

  -- How much a round copies.
  abbrev copied : (size end position : ℕ) → Bytes → ℕ
  copied size end position plain =
      smaller (end - position)
        (length (chunk_at size (position / size) plain) - (position - position / size * size))

  copied_bounds :
      (size end position : ℕ) (plain : Bytes)
      → 0 < size
      → position < end
      → end ≤ length plain
      → (0 < copied size end position plain)
        × (copied size end position plain ≤ end - position)
        × (copied size end position plain
            ≤ length (chunk_at size (position / size) plain) - (position - position / size * size))
  copied_bounds size end position plain p b e =
      let some_more = piece_pos size position plain p (omega arith) in
      (ground (arith, some_more), ground arith, ground arith)

  range_step :
      (fuel : ℕ) (r : SealedFileReader) (plain : Bytes) (end position : ℕ) (out : Bytes)
      → IsReading x r plain
      → position / r.chunk_size < r.chunk_count
      → position < end
      → range_loop x (suc fuel) r end position out
        ≡ range_loop x fuel
            (cache_chunk r (position / r.chunk_size) plain)
            end
            (position + copied r.chunk_size end position plain)
            (out
              ++ take (copied r.chunk_size end position plain) (
                  drop
                    (position - position / r.chunk_size * r.chunk_size)
                    (chunk_at r.chunk_size (position / r.chunk_size) plain)))
  unfolding range_loop
  range_step fuel r plain end position out i inside b =
      let more : ltb position end ≡ true = ground arith in
      rw (more, load_chunk_lem x r plain (position / r.chunk_size) i inside)
        (unfold cache_chunk in refl)

  joined :
      (n end position : ℕ) (plain out : Bytes)
      → n ≤ end - position
      → (out ++ take n (drop position plain))
          ++ take (end - (position + n)) (drop (position + n) plain)
        ≡ out ++ take (end - position) (drop position plain)
  joined n end position plain out b =
      let left : end - (position + n) ≡ end - position - n = omega arith in
      rw (left, ← drop-drop n position plain)
        (append_assoc out (take n (drop position plain)) _
          ∙ ap (λ (t : Bytes). out ++ t) (take_split n (end - position) (drop position plain) b))

  pub range_loop_lem :
      (fuel : ℕ) (r : SealedFileReader) (plain : Bytes) (end position : ℕ) (out : Bytes)
      → IsReading x r plain
      → 0 < r.chunk_size
      → end ≤ length plain
      → end - position < fuel
      → (r' : SealedFileReader) × (range_loop x fuel r end position out
          ≡ ok (r', out ++ take (end - position) (drop position plain)))
        × IsReading x r' plain
  unfolding cache_chunk
  range_loop_lem zero r plain end position out i p e b = absurd (omega arith)
  range_loop_lem (suc fuel) r plain end position out i p e b = elim (dec_lt position end) [
    | no h ↦ (r, range_end fuel r end position out plain (omega arith), i)
    | yes h ↦
        let size = r.chunk_size in
        let n = copied size end position plain in
        let (pos, fits, inside) = copied_bounds size end position plain p h e in
        let (r', f, j) =
          range_loop_lem fuel (cache_chunk r (position / size) plain) plain end (position + n)
            (out ++ take n (drop position plain))
            (cache_chunk-IsReading x r plain (position / size) i) p e (omega (arith, pos)) in
        (
          r',
          range_step fuel r plain end position out i
                (index_in_range r plain position i p (omega arith)) h
              ∙ ap
                  (λ (t : Bytes).
                    range_loop x fuel (cache_chunk r (position / size) plain) end (position + n)
                      (out ++ t))
                  (piece size position n plain p inside)
              ∙ f
              ∙ ap (λ (t : Bytes). ok (r', t)) (joined n end position plain out fits),
          j,
        )
  ]
