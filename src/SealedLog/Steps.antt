-- ===== src/SealedLog/Steps.antt =====
-- One round of the loops of crates/core/crypto/src/sealed_log.rs: over the frame of a record, at the
-- end, and at a part of a frame.
use native.Mathlib.Decide.{dec_lt}
use ryu_rooms.Prelude.{
  ℕ, zero, suc, ◌+◌, ◌-◌, ◌%◌, ◌≤◌, ◌<◌, ◌≡◌, refl, ap, ◌∙◌, arith, Bool, some, List, [], ◌++◌,
  length, length-append, take, length-take-le,
}
use ryu_rooms.Result.{ok}
use ryu_rooms.Bytes.{Bytes, drop, be_onto}
use ryu_rooms.Bytes.Numbers.{from_be-be_onto, be_onto-append, length-be_onto}
use ryu_rooms.Bytes.Slices.{take_exact, drop_exact, length-take_of_le}
use ryu_rooms.Content.{Primitives}
use ryu_rooms.SealedLog.{clean, short, scan_from, record_aad, keep_in}
use ryu_rooms.SealedLog.Writer.{frame, count_from}

-- The four bytes of a length, and what follows them.
take_length : (n : ℕ) (xs : Bytes) → take 4 (be_onto 4 n xs) ≡ be_onto 4 n []
unfolding be_onto
take_length n xs = refl

drop_length : (n : ℕ) (xs : Bytes) → drop 4 (be_onto 4 n xs) ≡ xs
unfolding be_onto
drop_length n xs = refl

frame-append :
    (nonce ciphertext more : Bytes)
    → length nonce ≡ 12
    → length ciphertext < 4294967200
    → frame nonce ciphertext ++ more
      ≡ be_onto 4 (12 + length ciphertext) (nonce ++ ciphertext ++ more)
unfolding frame
frame-append nonce ciphertext more l b =
    let small : (12 + length ciphertext) % 4294967296 ≡ 12 + length ciphertext = omega arith in
    rw small (be_onto-append 4 (12 + length ciphertext) (nonce ++ ciphertext) more)

pub length-frame :
    (nonce ciphertext : Bytes)
    → length nonce ≡ 12
    → length (frame nonce ciphertext) ≡ 16 + length ciphertext
unfolding frame
length-frame nonce ciphertext l = omega (
  arith,
  length-be_onto 4 ((12 + length ciphertext) % 4294967296) (nonce ++ ciphertext),
  length-append nonce ciphertext,
)

take_length_on :
    (n j : ℕ) (xs : Bytes)
    → take (suc (suc (suc (suc j)))) (be_onto 4 n xs) ≡ be_onto 4 n (take j xs)
unfolding be_onto
take_length_on n j xs = refl

take-frame :
    (nonce ciphertext : Bytes) (k : ℕ)
    → length nonce ≡ 12
    → length ciphertext < 4294967200
    → 4 ≤ k
    → take k (frame nonce ciphertext)
      ≡ be_onto 4 (12 + length ciphertext) (take (k - 4) (nonce ++ ciphertext))
unfolding frame
take-frame nonce ciphertext k l b c =
    let small : (12 + length ciphertext) % 4294967296 ≡ 12 + length ciphertext = omega arith in
    let e : k ≡ suc (suc (suc (suc (k - 4)))) = omega arith in
    rw small (
      ap (λ (m : ℕ). take m (be_onto 4 (12 + length ciphertext) (nonce ++ ciphertext))) e
      ∙ take_length_on (12 + length ciphertext) (k - 4) (nonce ++ ciphertext))

module _ (x : Primitives) where
  pub scan_from-frame :
      (fuel : ℕ) (header key : Bytes) (keep_records : Bool) (nonce ciphertext plain more : Bytes)
      (position index : ℕ) (records : List Bytes)
      → length nonce ≡ 12
      → 16 ≤ length ciphertext
      → length ciphertext ≤ 16777204
      → x.decrypt key nonce ciphertext (record_aad header index) ≡ some plain
      → scan_from x
          (suc fuel)
          header
          key
          keep_records
          (frame nonce ciphertext ++ more)
          position
          index
          records
        ≡ scan_from x fuel header key keep_records more
            (position + length (frame nonce ciphertext))
            (index + 1)
            (keep_in keep_records records plain)
  unfolding scan_from
  scan_from-frame fuel header key keep_records nonce ciphertext plain more position index records l
        b c d =
      let n = 12 + length ciphertext in
      let body = nonce ++ ciphertext in
      let e : length body ≡ n = omega (arith, length-append nonce ciphertext) in
      let move : position + length (frame nonce ciphertext) ≡ position + 4 + n =
        omega (arith, length-frame nonce ciphertext l) in
      let whole = frame-append nonce ciphertext more l (omega arith) in
      let first = take_length n (body ++ more) in
      let later = drop_length n (body ++ more) in
      let number = from_be-be_onto n (omega arith) in
      rw
        (
          move,
          whole,
          first,
          later,
          number,
          take_exact body more e,
          take_exact nonce ciphertext l,
          drop_exact nonce ciphertext l,
          d,
          whole,
          first,
          later,
          number,
          drop_exact body more e,
        )
        (ground (arith, length-be_onto 4 n (body ++ more), length-append body more))

  pub scan_from_nil :
      (fuel : ℕ) (header key : Bytes) (keep_records : Bool) (position index : ℕ)
      (records : List Bytes)
      → scan_from x (suc fuel) header key keep_records [] position index records
        ≡ ok (record { records = records; committed_end = position; tail = clean })
  unfolding scan_from
  scan_from_nil fuel header key keep_records position index records = refl

  scan_from_few :
      (fuel : ℕ) (header key : Bytes) (keep_records : Bool) (rest : Bytes) (position index : ℕ)
      (records : List Bytes)
      → 0 < length rest
      → length rest < 4
      → scan_from x (suc fuel) header key keep_records rest position index records
        ≡ ok (record { records = records; committed_end = position; tail = short })
  unfolding scan_from
  scan_from_few fuel header key keep_records rest position index records b c = ground arith

  scan_from_cut :
      (fuel : ℕ) (header key : Bytes) (keep_records : Bool) (n : ℕ) (after : Bytes)
      (position index : ℕ) (records : List Bytes)
      → 28 ≤ n
      → n ≤ 16777216
      → length after < n
      → scan_from x (suc fuel) header key keep_records (be_onto 4 n after) position index records
        ≡ ok (record { records = records; committed_end = position; tail = short })
  unfolding scan_from
  scan_from_cut fuel header key keep_records n after position index records b c d =
      rw (take_length n after, drop_length n after, from_be-be_onto n (omega arith))
        (ground (arith, length-be_onto 4 n after))

  -- A part of a frame that is neither empty nor whole.
  pub scan_from_part :
      (fuel : ℕ) (header key : Bytes) (keep_records : Bool) (nonce ciphertext : Bytes) (k : ℕ)
      (position index : ℕ) (records : List Bytes)
      → length nonce ≡ 12
      → 16 ≤ length ciphertext
      → length ciphertext ≤ 16777204
      → 0 < k
      → k < length (frame nonce ciphertext)
      → scan_from x
          (suc fuel)
          header
          key
          keep_records
          (take k (frame nonce ciphertext))
          position
          index
          records
        ≡ ok (record { records = records; committed_end = position; tail = short })
  scan_from_part fuel header key keep_records nonce ciphertext k position index records l b c d e =
      elim (dec_lt k 4) [
        | yes few ↦
            let size = length-take_of_le k (frame nonce ciphertext) (omega arith) in
            scan_from_few fuel header key keep_records (take k (frame nonce ciphertext)) position
              index records (omega arith) (omega arith)
        | no many ↦
            let n = 12 + length ciphertext in
            let cut = take-frame nonce ciphertext k l (omega arith) (omega arith) in
            rw cut (
              scan_from_cut fuel header key keep_records n (take (k - 4) (nonce ++ ciphertext))
                position index records (omega arith) (omega arith)
                (omega (
                  arith,
                  length-take-le (k - 4) (nonce ++ ciphertext),
                  length-frame nonce ciphertext l,
                )))
      ]

pub count_from_nil : (fuel : ℕ) → count_from fuel [] ≡ 0
unfolding count_from
count_from_nil zero = refl
count_from_nil (suc fuel) = refl

pub count_from-frame :
    (fuel : ℕ) (nonce ciphertext more : Bytes)
    → length nonce ≡ 12
    → length ciphertext ≤ 16777204
    → count_from (suc fuel) (frame nonce ciphertext ++ more) ≡ 1 + count_from fuel more
unfolding count_from
count_from-frame fuel nonce ciphertext more l b =
    let n = 12 + length ciphertext in
    let body = nonce ++ ciphertext in
    let e : length body ≡ n = omega (arith, length-append nonce ciphertext) in
    rw
      (
        frame-append nonce ciphertext more l (omega arith),
        take_length n (body ++ more),
        drop_length n (body ++ more),
        from_be-be_onto n (omega arith),
        drop_exact body more e,
      )
      (ground (arith, length-be_onto 4 n (body ++ more)))
