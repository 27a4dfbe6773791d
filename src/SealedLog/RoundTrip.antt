-- ===== src/SealedLog/RoundTrip.antt =====
-- A log that was written from its first record on and is read again
-- (crates/core/crypto/src/sealed_log.rs).
use mathlib.Core.List.{append-nil, append_assoc}
use ryu_rooms.Prelude.{
  ◌≡◌, refl, subst, arith, true, none, List, [], ◌∷◌, ◌++◌, map, length, All, inl, inr,
}
use ryu_rooms.Result.{Result, ok, ◌>>=◌, Result-cases}
use ryu_rooms.Bytes.{Bytes}
use ryu_rooms.Seal.{ContentContext}
use ryu_rooms.Content.{Primitives, IsLawful, Error}
use ryu_rooms.Content.Keys.{ContentCipher}
use ryu_rooms.SealedLog.{clean, Scan, is_wrong_key, torn_tail, read_log_bytes}
use ryu_rooms.SealedLog.Writer.{SealedLogWriter, create_with_salt, append_with_nonce}
use ryu_rooms.SealedLog.Steps.{scan_from_nil}
use ryu_rooms.SealedLog.Written.{kept_all}
use ryu_rooms.SealedLog.Reading.{
  IsWritten, create_with_salt-IsWritten, append_with_nonce-IsWritten, open_log-IsWritten,
}

-- Records appended one after the other, each with its nonce.
unfoldable pub append_all :
    Primitives → SealedLogWriter → List (Bytes × Bytes) → Result Error SealedLogWriter
append_all x w [] = ok w
append_all x w ((plain, nonce) ∷ entries) = do
  step ← append_with_nonce x w plain nonce
  append_all x step.0 entries

abbrev pub record_of : Bytes × Bytes → Bytes
record_of e = e.0

module _ {x : Primitives} (law : IsLawful x) (c : ContentCipher) (context : ContentContext) where
  append_all-IsWritten :
      (w w' : SealedLogWriter) (records : List Bytes) (entries : List (Bytes × Bytes))
      → All (λ (e : Bytes × Bytes). length e.1 ≡ 12) entries
      → IsWritten x c context w records
      → append_all x w entries ≡ ok w'
      → IsWritten x c context w' (records ++ map record_of entries)
  unfolding append_all
  append_all-IsWritten w w' records [] a i h =
      let same : w ≡ w' = cc in
      rw (append-nil records) (subst (λ v. IsWritten x c context v records) same i)
  append_all-IsWritten w w' records ((plain, nonce) ∷ entries) a i h =
      elim (Result-cases (append_with_nonce x w plain nonce)) [
        | inl ((next, index), e) ↦
            rw (← append_assoc records (plain ∷ []) (map record_of entries)) (
              append_all-IsWritten next w' (records ++ plain ∷ []) entries a.1
                (append_with_nonce-IsWritten law w next records plain nonce index a.0 i e)
                (rw e at h))
        | inr (error, e) ↦ absurd (ground (arith, e))
      ]

  pub written :
      (salt : Bytes) (w0 w : SealedLogWriter) (entries : List (Bytes × Bytes))
      → length salt ≡ 20
      → All (λ (e : Bytes × Bytes). length e.1 ≡ 12) entries
      → create_with_salt x none c context salt ≡ ok w0
      → append_all x w0 entries ≡ ok w
      → IsWritten x c context w (map record_of entries)
  written salt w0 w entries l a h k =
      append_all-IsWritten w0 w [] entries a (create_with_salt-IsWritten salt w0 l h) k

  -- A log that was created with a salt of 20 bytes and to which records were appended, each under a
  -- nonce of 12 bytes, is read back strictly under the same cipher and context: its records are those
  -- that were appended, in their order.
  pub read_log_bytes-append_all :
      (salt : Bytes) (w0 w : SealedLogWriter) (entries : List (Bytes × Bytes))
      → length salt ≡ 20
      → All (λ (e : Bytes × Bytes). length e.1 ≡ 12) entries
      → create_with_salt x none c context salt ≡ ok w0
      → append_all x w0 entries ≡ ok w
      → read_log_bytes x w.file c context ≡ ok (map record_of entries)
  unfolding read_log_bytes torn_tail
  read_log_bytes-append_all salt w0 w entries l a h k =
      let records = map record_of entries in
      let s : Scan = record { records = records; committed_end = length w.file; tail = clean } in
      let opened =
        open_log-IsWritten w records [] true s (written salt w0 w entries l a h k)
          (unfold is_wrong_key in refl)
          (λ g.
            rw (kept_all [] records)
              (scan_from_nil x g w.header w.key true (length w.file) (length records) records)) in
      let opened' = rw (append-nil w.file) at opened in ground (arith, opened')
