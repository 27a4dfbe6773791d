-- ===== src/SealedLog/Recovery.antt =====
-- A write that was interrupted (crates/core/crypto/src/sealed_log.rs): the log is opened again.
use mathlib.Core.List.{append-nil}
use native.Mathlib.Decide.{dec_lt}
use ryu_rooms.Prelude.{
  ℕ, zero, suc, ◌+◌, ◌-◌, ◌≤◌, ◌<◌, ◌≡◌, refl, sym, ap, ◌∙◌, arith, Bool, true, false, some, none,
  List, [], ◌∷◌, ◌++◌, map, length, length-append, take, length-take-le, ltb, All, if◌then◌else◌,
}
use ryu_rooms.Result.{ok}
use ryu_rooms.Bytes.{Bytes, drop}
use ryu_rooms.Bytes.Slices.{take_exact, drop_exact}
use ryu_rooms.Seal.{ContentContext}
use ryu_rooms.Content.{Primitives, IsLawful}
use ryu_rooms.Content.Keys.{ContentCipher}
use ryu_rooms.SealedLog.{
  Tail, clean, short, scan_from, open_log, is_wrong_key, torn_tail, is_torn, open_recovering,
}
use ryu_rooms.SealedLog.Writer.{
  SealedLogWriter, create_with_salt, append_with_nonce, open_append, count_records, frame,
}
use ryu_rooms.SealedLog.Steps.{scan_from_nil, scan_from_part}
use ryu_rooms.SealedLog.Written.{kept, kept_all, count_from-Frames, length-Frames-le}
use ryu_rooms.SealedLog.Reading.{
  IsWritten, open_log-IsWritten, append_with_nonce_ok, length-new_header,
}
use ryu_rooms.SealedLog.RoundTrip.{append_all, record_of, written}

take_past :
    (k : ℕ) (xs ys : Bytes) → length xs ≤ k → take k (xs ++ ys) ≡ xs ++ take (k - length xs) ys
take_past k [] ys h = let e : k - 0 ≡ k = omega arith in rw e refl
take_past zero (b ∷ xs) ys h = absurd (omega arith)
take_past (suc k) (b ∷ xs) ys h =
    let e : suc k - suc (length xs) ≡ k - length xs = omega arith in
    rw e (ap (λ (r : Bytes). b ∷ r) (take_past k xs ys (omega arith)))

append_nothing : (xs ys : Bytes) → length ys ≡ 0 → xs ++ ys ≡ xs
append_nothing xs [] h = append-nil xs
append_nothing xs (y ∷ ys) h = absurd (omega arith)

no_rest : (k : ℕ) (xs ys zs : Bytes) → take k zs ≡ xs ++ ys → ¬ (length xs < k) → length ys ≡ 0
no_rest k xs ys zs cut whole =
    omega (arith, ap length cut, length-append xs ys, length-take-le k zs)

-- How the scan of a log ends whose last write was cut at this length.
abbrev tail_at : ℕ → ℕ → Tail
tail_at end k = if ltb end k then short else clean

count_records-IsWritten :
    (x : Primitives) (c : ContentCipher) (context : ContentContext) (w : SealedLogWriter)
    (records : List Bytes)
    → IsWritten x c context w records
    → count_records w.file ≡ w.next_index
unfolding count_records
count_records-IsWritten x c context w records i =
    let head : length w.header ≡ 32 =
      omega (arith, ap length i.headed, length-new_header i.salt, i.size) in
    let rest : drop 32 w.file ≡ i.bytes = ap (drop 32) i.filed ∙ drop_exact w.header i.bytes head in
    let fits = length-Frames-le x w.header w.key 0 records i.bytes i.framed in
    rw rest (
      count_from-Frames x w.header w.key (length w.file) 0 records i.bytes
        (omega (arith, fits, ap length i.filed, length-append w.header i.bytes)) i.framed
      ∙ sym i.counted)

module _ {x : Primitives} (law : IsLawful x) (c : ContentCipher) (context : ContentContext) where
  scan_from_cut_frame :
      (g : ℕ) (header key : Bytes) (keep_records : Bool) (nonce ciphertext : Bytes)
      (end k index : ℕ) (records : List Bytes)
      → length nonce ≡ 12
      → 16 ≤ length ciphertext
      → length ciphertext ≤ 16777204
      → end ≤ k
      → k < end + length (frame nonce ciphertext)
      → scan_from x
          (suc g)
          header
          key
          keep_records
          (take (k - end) (frame nonce ciphertext))
          end
          index
          records
        ≡ ok (record { records = records; committed_end = end; tail = tail_at end k })
  scan_from_cut_frame g header key keep_records nonce ciphertext end k index records l d e b f =
      elim (dec_lt end k) [
        | yes h ↦
            let cut : ltb end k ≡ true = ground arith in
            rw cut (
              scan_from_part x g header key keep_records nonce ciphertext (k - end) end index
                records l d e (omega arith) (omega arith))
        | no h ↦
            let whole : ltb end k ≡ false = ground arith in
            let none_left : k - end ≡ 0 = omega arith in
            rw (whole, none_left) (scan_from_nil x g header key keep_records end index records)
      ]

  right_key :
      (records : List Bytes) (end k : ℕ)
      → is_wrong_key (record { records = records; committed_end = end; tail = tail_at end k })
        ≡ false
  unfolding is_wrong_key
  right_key records end k = ground arith

  open_log_cut :
      (w w' : SealedLogWriter) (records : List Bytes) (plain nonce : Bytes) (index k : ℕ)
      (keep_records : Bool)
      → length nonce ≡ 12
      → IsWritten x c context w records
      → append_with_nonce x w plain nonce ≡ ok (w', index)
      → length w.file ≤ k
      → k < length w'.file
      → (rest : Bytes) × (take k w'.file ≡ w.file ++ rest)
        × (open_log x (w.file ++ rest) c context keep_records
            ≡ ok (record {
              header = w.header;
              key = w.key;
              retired = false;
              scan = record {
                records = kept keep_records [] records;
                committed_end = length w.file;
                tail = tail_at (length w.file) k;
              };
            }))
  open_log_cut w w' records plain nonce index k keep_records l i h b d =
      let (ciphertext, e, small, f, _) = append_with_nonce_ok x w w' plain nonce index h in
      let size = law.length-encrypt w.key nonce plain _ ciphertext e in
      let file : w'.file ≡ w.file ++ frame nonce ciphertext =
        ap (λ (v : SealedLogWriter). v.file) f in
      let end = length w.file in
      let part = take (k - end) (frame nonce ciphertext) in
      (
        part,
        ap (take k) file ∙ take_past k w.file (frame nonce ciphertext) b,
        open_log-IsWritten w records part keep_records
            (record {
              records = kept keep_records [] records;
              committed_end = end;
              tail = tail_at end k;
            })
            i (right_key (kept keep_records [] records) end k)
            (λ g.
              scan_from_cut_frame g w.header w.key keep_records nonce ciphertext end k
                (length records) (kept keep_records [] records) l (omega arith) (omega arith) b
                (omega (arith, ap length file, length-append w.file (frame nonce ciphertext)))),
      )

  -- When a write of one more record to a log that was created with a salt of 20 bytes, and whose
  -- records were appended under nonces of 12 bytes, was interrupted anywhere before its end, opening
  -- the log to append gives the writer as it was before that write: the file without the torn part,
  -- the key, and the index of the next record. A recovering read gives the records that were written
  -- before, in their order, and says that there was a torn tail exactly when some of it was written.
  pub open_append_cut :
      (salt : Bytes) (w0 w w' : SealedLogWriter) (entries : List (Bytes × Bytes))
      (plain nonce : Bytes) (index k draw : ℕ)
      → length salt ≡ 20
      → All (λ (e : Bytes × Bytes). length e.1 ≡ 12) entries
      → length nonce ≡ 12
      → create_with_salt x none c context salt ≡ ok w0
      → append_all x w0 entries ≡ ok w
      → append_with_nonce x w plain nonce ≡ ok (w', index)
      → length w.file ≤ k
      → k < length w'.file
      → (open_append x (some (take k w'.file)) c context draw ≡ ok w)
        × (open_recovering x (some (take k w'.file)) c context
            ≡ ok (record {
              records = map record_of entries;
              torn_tail = ltb (length w.file) k;
              needs_reseal = false;
            }))
  unfolding open_append open_recovering torn_tail is_torn
  open_append_cut salt w0 w w' entries plain nonce index k draw ls le l h0 hs h b d =
      let records = map record_of entries in
      let i = written law c context salt w0 w entries ls le h0 hs in
      let (rest, cut, opened) = open_log_cut w w' records plain nonce index k false l i h b d in
      let (rest', cut', opened') = open_log_cut w w' records plain nonce index k true l i h b d in
      (
        rw
            (
              cut,
              opened,
              take_exact w.file rest refl,
              count_records-IsWritten x c context w records i,
            )
            (elim (dec_lt (length w.file) k) [
              | yes torn ↦ ground arith
              | no whole ↦
                  rw (append_nothing w.file rest (no_rest k w.file rest w'.file cut whole))
                    (ground arith)
            ]),
        rw (cut', opened', kept_all [] records) (ground arith),
      )
