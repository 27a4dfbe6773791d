-- ===== src/SealedLog/Counting.antt =====
-- How many records a log has (crates/core/crypto/src/sealed_log.rs): the scan and `count_records`.
use ryu_rooms.Prelude.{
  ℕ, zero, suc, ◌+◌, ◌-◌, ◌≤◌, ◌≡◌, refl, sym, ap, arith, true, List, [], ◌∷◌, ◌++◌, length,
  length-append, take, ltb, ◌||◌, Bool-cases, Option-cases, inl, inr,
}
use ryu_rooms.Result.{ok}
use ryu_rooms.Bytes.{Bytes, drop, from_be}
use ryu_rooms.Bytes.Slices.{length-drop, length-take_of_le}
use ryu_rooms.Bytes.Parts.{take-take_of_le, drop-take}
use ryu_rooms.Content.{Primitives}
use ryu_rooms.SealedLog.{Scan, scan_from, scan_with, record_aad}
use ryu_rooms.SealedLog.Writer.{count_from, count_records}
use ryu_rooms.SealedLog.Steps.{count_from_nil}

-- One record more, at the start of bytes that hold all of it.
count_from_step :
    (fuel m n : ℕ) (rest : Bytes)
    → m ≡ from_be 0 (take 4 rest)
    → 4 + m + n ≤ length rest
    → count_from (suc fuel) (take (4 + m + n) rest)
      ≡ 1 + count_from fuel (take n (drop m (drop 4 rest)))
unfolding count_from
count_from_step fuel m n rest e b =
    let past : 4 + m + n - 4 ≡ m + n = omega arith in
    let left : m + n - m ≡ n = omega arith in
    rw
      (
        take-take_of_le 4 (4 + m + n) rest (omega arith),
        sym e,
        drop-take 4 (4 + m + n) rest,
        past,
        drop-take m (m + n) (drop 4 rest),
        left,
      )
      (ground (arith, length-take_of_le (4 + m + n) rest b))

module _ (x : Primitives) where
  -- What a scan from a position has committed, and what is counted in it.
  abbrev Counted : (rest : Bytes) → (position : ℕ) → List Bytes → Scan → Type 0
  Counted rest position records s =
      (n : ℕ) × (s.committed_end ≡ position + n)
      × (n ≤ length rest)
      × ((fuel : ℕ) → n ≤ fuel → count_from fuel (take n rest) + length records ≡ length s.records)

  stopped :
      (position : ℕ) (rest : Bytes) (records : List Bytes) (s : Scan)
      → s.committed_end ≡ position
      → s.records ≡ records
      → Counted rest position records s
  stopped position rest records s e f =
      (0, omega (arith, e), omega arith, λ g b. omega (arith, count_from_nil g, ap length f))

  went :
      (position m : ℕ) (rest plain : Bytes) (records : List Bytes) (s : Scan)
      → m ≡ from_be 0 (take 4 rest)
      → 4 + m ≤ length rest
      → Counted (drop m (drop 4 rest)) (position + 4 + m) (records ++ plain ∷ []) s
      → Counted rest position records s
  went position m rest plain records s e b (n, end, fits, count) = (
    4 + m + n,
    omega (arith, end),
    omega (arith, fits, length-drop m (drop 4 rest), length-drop 4 rest),
    went_count,
  )
    where
      went_count :
          (fuel : ℕ)
          → 4 + m + n ≤ fuel
          → count_from fuel (take (4 + m + n) rest) + length records ≡ length s.records
      went_count zero c = absurd (omega arith)
      went_count (suc g) c = omega (
        arith,
        count_from_step g m n rest e
            (omega (arith, fits, length-drop m (drop 4 rest), length-drop 4 rest)),
        count g (omega arith),
        length-append records (plain ∷ []),
      )

  scan_from-Counted :
      (fuel : ℕ) (header key rest : Bytes) (position index : ℕ) (records : List Bytes) (s : Scan)
      → scan_from x fuel header key true rest position index records ≡ ok s
      → Counted rest position records s
  unfolding scan_from
  scan_from-Counted zero header key rest position index records s h = absurd (ground arith)
  scan_from-Counted (suc fuel) header key rest position index records s h =
      let m = from_be 0 (take 4 rest) in
      let body = take m (drop 4 rest) in
      elim (Option-cases (x.decrypt key (take 12 body) (drop 12 body) (record_aad header index))) [
        | inl e ↦ stopped position rest records s (ground (arith, e)) (ground (arith, e))
        | inr (plain, e) ↦
            elim (Bool-cases (ltb (length rest) (4 + m) || ltb m 28 || ltb 16777216 m)) [
              | inl halt ↦
                  stopped position rest records s (ground (arith, e, length-drop 4 rest))
                    (ground (arith, e, length-drop 4 rest))
              | inr go ↦ went position m rest plain records s refl (ground arith) (
                  scan_from-Counted fuel header key (drop m (drop 4 rest)) (position + 4 + m)
                    (index + 1) (records ++ plain ∷ []) s (ground (arith, e, length-drop 4 rest)))
            ]
      ]

  -- Whenever a scan of a file that keeps the records succeeds, whatever the file holds and with
  -- whichever key, what it calls committed lies within the file, and the count that opening to append
  -- makes of the committed part is the number of the records that the scan found.
  pub count_records-scan_with :
      (bytes header key : Bytes) (s : Scan)
      → 32 ≤ length bytes
      → scan_with x bytes header key true ≡ ok s
      → (s.committed_end ≤ length bytes)
        × (count_records (take s.committed_end bytes) ≡ length s.records)
  unfolding scan_with count_records
  count_records-scan_with bytes header key s b h =
      let (n, end, fits, count) =
        scan_from-Counted (suc (length bytes)) header key (drop 32 bytes) 32 0 [] s h in
      let whole : s.committed_end ≤ length bytes = omega (arith, end, fits, length-drop 32 bytes) in
      let size = length-take_of_le s.committed_end bytes whole in
      let left : s.committed_end - 32 ≡ n = omega (arith, end) in
      (
        whole,
        rw (size, drop-take 32 s.committed_end bytes, left)
            (omega (arith, count s.committed_end (omega (arith, end)))),
      )
