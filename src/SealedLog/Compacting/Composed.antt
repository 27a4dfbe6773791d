-- ===== src/SealedLog/Compacting/Composed.antt =====
-- From the records that were appended to the file that a log is compacted into
-- (crates/core/crypto/src/sealed_log.rs and crates/core/crypto/src/sealed_file.rs).
use mathlib.Core.List.{append-nil, append_assoc}
use ryu_rooms.Prelude.{
  ℕ, ◌+◌, ◌<◌, ◌≡◌, sym, ap, ◌∙◌, subst, arith, some, none, List, [], ◌∷◌, ◌++◌, map, length,
  length-append, take, All, inl, inr,
}
use ryu_rooms.Result.{ok, Result-cases}
use ryu_rooms.Bytes.{Bytes, drop, concat}
use ryu_rooms.Seal.{ContentContext}
use ryu_rooms.Content.{Primitives, IsLawful}
use ryu_rooms.Content.Keys.{ContentCipher}
use ryu_rooms.SealedLog.{read_log_bytes}
use ryu_rooms.SealedLog.Writer.{SealedLogWriter, create_with_salt}
use ryu_rooms.SealedLog.RoundTrip.{append_all, record_of, read_log_bytes-append_all}
use ryu_rooms.SealedLog.Compacting.{read_log, write_records, compact_to_sealed_file}
use ryu_rooms.SealedFile.{SealedFileWriter, FinishedFile, with_params, write_plain, finish}
use ryu_rooms.SealedFile.Reader.{SealedFileReader, open_file, read_range}
use ryu_rooms.SealedFile.Joins.{stamp, write_plain-SameFile}
use ryu_rooms.SealedFile.Written.{IsWritten, with_params-IsWritten, write_plain-IsWritten}
use ryu_rooms.SealedFile.RoundTrip.{read_range-IsWritten, finish_counts, with_params_empty}

module _ {x : Primitives} (law : IsLawful x) where
  write_records-IsWritten :
      (w v : SealedFileWriter) (plain : Bytes) (records : List Bytes)
      → IsWritten x w plain
      → write_records x w records ≡ ok v
      → IsWritten x v (plain ++ concat records)
        × (v.key ≡ w.key)
        × (v.header ≡ w.header)
        × (v.chunk_size ≡ w.chunk_size)
        × (v.plaintext_len ≡ w.plaintext_len + length (concat records))
  unfolding write_records stamp
  write_records-IsWritten w v plain [] i h =
      let same : w ≡ v = cc in
      (
        rw (append-nil plain) (subst (λ u. IsWritten x u plain) same i),
        sym (ap (λ (u : SealedFileWriter). u.key) same),
        sym (ap (λ (u : SealedFileWriter). u.header) same),
        sym (ap (λ (u : SealedFileWriter). u.chunk_size) same),
        omega (arith, ap (λ (u : SealedFileWriter). u.plaintext_len) same),
      )
  write_records-IsWritten w v plain (r ∷ rs) i h = elim (Result-cases (write_plain x w r)) [
    | inl (u, e) ↦
        let (k, d, s, n, _) = write_plain-SameFile x w u r i.roomy e in
        let (j, k', d', s', n') =
          write_records-IsWritten u v (plain ++ r) rs (write_plain-IsWritten law w u plain r i e)
            (rw e at h) in
        (
          rw (← append_assoc plain r (concat rs)) j,
          k' ∙ k,
          d' ∙ d,
          s' ∙ s,
          omega (arith, n', n, length-append r (concat rs)),
        )
    | inr (e', e) ↦ absurd (ground (arith, e))
  ]

  -- The steps of a compaction that succeeded.
  compact_ok :
      (log : Bytes) (c : ContentCipher) (log_context file_context : ContentContext) (draw : ℕ)
      (records : List Bytes) (file : Bytes) (n : ℕ)
      → read_log_bytes x log c log_context ≡ ok records
      → compact_to_sealed_file x (some log) c log_context file_context draw ≡ ok (file, n)
      → (w0 : SealedFileWriter) × (w : SealedFileWriter) × (done : FinishedFile) × (with_params x c
            file_context 16
            (x.fill_bytes draw 20)
          ≡ ok w0)
        × (write_records x w0 records ≡ ok w)
        × (finish x w ≡ ok done)
        × (file ≡ done.sink)
        × (n ≡ done.plaintext_len)
  unfolding compact_to_sealed_file read_log
  compact_ok log c log_context file_context draw records file n r h =
      elim (Result-cases (with_params x c file_context 16 (x.fill_bytes draw 20))) [
        | inr (e', e) ↦ absurd (ground (arith, r, e))
        | inl (w0, e0) ↦ elim (Result-cases (write_records x w0 records)) [
          | inr (e', e) ↦ absurd (ground (arith, r, e0, e))
          | inl (w, e1) ↦ elim (Result-cases (finish x w)) [
            | inr (e', e) ↦ absurd (ground (arith, r, e0, e1, e))
            | inl (done, e2) ↦ (
              w0,
              w,
              done,
              e0,
              e1,
              e2,
              ground (arith, r, e0, e1, e2),
              ground (arith, r, e0, e1, e2),
            )
          ]
        ]
      ]

  -- When a log that was created with a salt of 20 bytes, and whose records were appended under nonces
  -- of 12 bytes and are together shorter than 2 ^ 64 bytes, is compacted, the sealed file opens under
  -- the cipher, in the context of the file: every range of it is that range of the records joined in
  -- the order in which they were appended, and the length that is returned is their length.
  pub compact_to_sealed_file-append_all :
      (c : ContentCipher) (log_context file_context : ContentContext) (salt : Bytes)
      (l0 l : SealedLogWriter) (entries : List (Bytes × Bytes)) (draw : ℕ) (file : Bytes)
      (n start len : ℕ)
      → length salt ≡ 20
      → All (λ (e : Bytes × Bytes). length e.1 ≡ 12) entries
      → length (concat (map record_of entries)) < 18446744073709551616
      → create_with_salt x none c log_context salt ≡ ok l0
      → append_all x l0 entries ≡ ok l
      → compact_to_sealed_file x (some l.file) c log_context file_context draw ≡ ok (file, n)
      → ((r : SealedFileReader) × (r' : SealedFileReader) × (open_file x file c file_context ≡ ok r)
          × (read_range x r start len
              ≡ ok (r', take len (drop start (concat (map record_of entries))))))
        × (n ≡ length (concat (map record_of entries)))
  compact_to_sealed_file-append_all c log_context file_context salt l0 l entries draw file n start
        len ls le small h0 h1 h2 =
      let records = map record_of entries in
      let plain = concat records in
      let r = read_log_bytes-append_all law c log_context salt l0 l entries ls le h0 h1 in
      let (w0, w, done, e0, e1, e2, sink, count) =
        compact_ok l.file c log_context file_context draw records file n r h2 in
      let (i0, _, _, _, _, _) =
        with_params-IsWritten law c file_context 16 (x.fill_bytes draw 20) w0 e0 in
      let (i, k, d, s, written) = write_records-IsWritten w0 w [] records i0 e1 in
      let (n0, _) = with_params_empty x c file_context 16 (x.fill_bytes draw 20) w0 e0 in
      let (n', _) = finish_counts x w done e2 in
      let (reader, reader', opened, _, _, range) =
        read_range-IsWritten law c file_context 16 (x.fill_bytes draw 20) plain w0 w done start len
          (law.length-fill_bytes draw 20) small e0 (k, d, s) i e2 in
      (
        (reader, reader', ap (λ (t : Bytes). open_file x t c file_context) sink ∙ opened, range),
        omega (arith, count, n', written, n0),
      )
