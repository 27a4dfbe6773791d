-- ===== src/SealedLog/Reading.antt =====
-- Reading back what a writer has written (crates/core/crypto/src/sealed_log.rs).
use mathlib.Core.List.{append-nil, append_assoc}
use ryu_rooms.Prelude.{
  ℕ, suc, ◌+◌, ◌≤◌, ◌≡◌, refl, sym, ap, ◌∙◌, arith, Bool, false, some, none, List, [], ◌∷◌, ◌++◌,
  length, length-append, Option-cases, inl, inr,
}
use ryu_rooms.Result.{ok}
use ryu_rooms.Bytes.{Bytes, drop, begins}
use ryu_rooms.Bytes.Slices.{take_exact, drop_exact, strip_append}
use ryu_rooms.Bytes.Utf8.{as_bytes, encode}
use ryu_rooms.Seal.{ContentContext}
use ryu_rooms.Content.{Primitives, IsLawful, sealed_log_magic}
use ryu_rooms.Content.Context.{associated_data}
use ryu_rooms.Content.Keys.{ContentCipher, candidate_keys}
use ryu_rooms.SealedLog.{
  Scan, scan_from, scan_with, try_keys, record_aad, log_key, parse_header, open_log, is_wrong_key,
}
use ryu_rooms.SealedLog.Writer.{
  SealedLogWriter, new_header, frame, create_with_salt, append_with_nonce,
}
use ryu_rooms.SealedLog.Written.{Frames, Frames_snoc, length-Frames-le, kept, scan_from-Frames}

-- A writer of the log of a cipher and a context, which has written these records.
pub record IsWritten (x : Primitives) (c : ContentCipher) (context : ContentContext)
    (w : SealedLogWriter) (records : List Bytes) : Type 0 where
  pub salt : Bytes
  pub bytes : Bytes
  pub size : length salt ≡ 20
  pub headed : w.header ≡ new_header salt
  pub keyed : w.key ≡ log_key x c.current.key salt (associated_data context c.store)
  pub counted : w.next_index ≡ length records
  pub filed : w.file ≡ w.header ++ bytes
  pub framed : Frames x w.header w.key 0 records bytes

parse_header-new_header : (salt : Bytes) → parse_header (new_header salt) ≡ ok tt
unfolding parse_header new_header begins
parse_header-new_header salt = rw (strip_append sealed_log_magic (1 ∷ 0 ∷ 0 ∷ 0 ∷ salt)) refl

drop-new_header : (salt : Bytes) → drop 12 (new_header salt) ≡ salt
unfolding new_header sealed_log_magic as_bytes encode
drop-new_header salt = refl

pub length-new_header : (salt : Bytes) → length (new_header salt) ≡ 12 + length salt
unfolding new_header sealed_log_magic as_bytes encode
length-new_header salt = omega arith

module _ (x : Primitives) where
  -- What a successful append has done.
  pub append_with_nonce_ok :
      (w w' : SealedLogWriter) (plain nonce : Bytes) (index : ℕ)
      → append_with_nonce x w plain nonce ≡ ok (w', index)
      → (ciphertext : Bytes) × (x.encrypt w.key nonce plain (record_aad w.header w.next_index)
          ≡ some ciphertext)
        × (length plain + 28 ≤ 16777216)
        × (w' ≡ record w { file = w.file ++ frame nonce ciphertext; next_index = w.next_index + 1 })
        × (index ≡ w.next_index)
  unfolding append_with_nonce
  append_with_nonce_ok w w' plain nonce index h =
      elim (Option-cases (x.encrypt w.key nonce plain (record_aad w.header w.next_index))) [
        | inl e ↦ absurd (ground (arith, e))
        | inr (ciphertext, e) ↦
            (ciphertext, e, ground (arith, e), ground (arith, e), ground (arith, e))
      ]

  try_first :
      (c : ContentCipher) (bytes header aad : Bytes) (keep_records : Bool) (s : Scan)
      → is_wrong_key s ≡ false
      → scan_with x bytes header (log_key x c.current.key (drop 12 header) aad) keep_records ≡ ok s
      → try_keys x bytes header aad keep_records (candidate_keys c) none
        ≡ ok (record {
          header = header;
          key = log_key x c.current.key (drop 12 header) aad;
          retired = false;
          scan = s;
        })
  unfolding try_keys candidate_keys
  try_first c bytes header aad keep_records s right h = ground (arith, h)

module _ {x : Primitives} {c : ContentCipher} {context : ContentContext} where
  pub create_with_salt-IsWritten :
      (salt : Bytes) (w : SealedLogWriter)
      → length salt ≡ 20
      → create_with_salt x none c context salt ≡ ok w
      → IsWritten x c context w []
  unfolding create_with_salt
  create_with_salt-IsWritten salt w l h = record {
    salt = salt;
    bytes = [];
    size = l;
    headed = ground arith;
    keyed = ground arith;
    counted = ground arith;
    filed = ground (arith, append-nil (new_header salt));
    framed = refl;
  }

  pub append_with_nonce-IsWritten :
      IsLawful x
      → (w w' : SealedLogWriter) (records : List Bytes) (plain nonce : Bytes) (index : ℕ)
      → length nonce ≡ 12
      → IsWritten x c context w records
      → append_with_nonce x w plain nonce ≡ ok (w', index)
      → IsWritten x c context w' (records ++ plain ∷ [])
  append_with_nonce-IsWritten law w w' records plain nonce index l i h =
      let (ciphertext, e, small, f, _) = append_with_nonce_ok x w w' plain nonce index h in
      let aad = record_aad w.header w.next_index in
      let opens = law.decrypt-encrypt w.key nonce plain aad ciphertext e in
      let counted : w.next_index ≡ 0 + length records = omega (arith, i.counted) in
      rw f record {
        salt = i.salt;
        bytes = i.bytes ++ frame nonce ciphertext;
        size = i.size;
        headed = i.headed;
        keyed = i.keyed;
        counted = omega (arith, i.counted, length-append records (plain ∷ []));
        filed = rw i.filed (append_assoc w.header i.bytes (frame nonce ciphertext));
        framed =
            Frames_snoc x w.header w.key 0 records i.bytes plain nonce ciphertext l
              (law.length-encrypt w.key nonce plain aad ciphertext e) small (rw counted at opens)
              i.framed;
      }

  scan_with-IsWritten :
      (w : SealedLogWriter) (records : List Bytes) (rest : Bytes) (keep_records : Bool) (s : Scan)
      (i : IsWritten x c context w records)
      → length w.header ≡ 32
      → ((g : ℕ)
          → scan_from x
              (suc g)
              w.header
              w.key
              keep_records
              rest
              (length w.file)
              (length records)
              (kept keep_records [] records)
            ≡ ok s)
      → scan_with x (w.header ++ (i.bytes ++ rest)) w.header w.key keep_records ≡ ok s
  unfolding scan_with
  scan_with-IsWritten w records rest keep_records s i head last =
      let fits = length-Frames-le x w.header w.key 0 records i.bytes i.framed in
      let end : 32 + length i.bytes ≡ length w.file =
        omega (arith, ap length i.filed, length-append w.header i.bytes, head) in
      let count : 0 + length records ≡ length records = omega arith in
      rw (drop_exact w.header (i.bytes ++ rest) head) (
        scan_from-Frames x w.header w.key (suc (length (w.header ++ (i.bytes ++ rest)))) 0
          keep_records records i.bytes rest 32 [] s
          (omega
            (arith, fits, length-append w.header (i.bytes ++ rest), length-append i.bytes rest))
          i.framed (λ g. rw (end, count) (last g)))

  -- Opening the file of a writer, followed by bytes at which every scan stops.
  pub open_log-IsWritten :
      (w : SealedLogWriter) (records : List Bytes) (rest : Bytes) (keep_records : Bool) (s : Scan)
      (i : IsWritten x c context w records)
      → is_wrong_key s ≡ false
      → ((g : ℕ)
          → scan_from x
              (suc g)
              w.header
              w.key
              keep_records
              rest
              (length w.file)
              (length records)
              (kept keep_records [] records)
            ≡ ok s)
      → open_log x (w.file ++ rest) c context keep_records
        ≡ ok (record { header = w.header; key = w.key; retired = false; scan = s })
  unfolding open_log
  open_log-IsWritten w records rest keep_records s i right last =
      let head : length w.header ≡ 32 =
        omega (arith, ap length i.headed, length-new_header i.salt, i.size) in
      let all : w.file ++ rest ≡ w.header ++ (i.bytes ++ rest) =
        ap (λ (f : Bytes). f ++ rest) i.filed ∙ append_assoc w.header i.bytes rest in
      let aad = associated_data context c.store in
      let parsed : parse_header w.header ≡ ok tt =
        ap parse_header i.headed ∙ parse_header-new_header i.salt in
      let salt : drop 12 w.header ≡ i.salt = ap (drop 12) i.headed ∙ drop-new_header i.salt in
      let keyed : log_key x c.current.key (drop 12 w.header) aad ≡ w.key =
        ap (λ (t : Bytes). log_key x c.current.key t aad) salt ∙ sym i.keyed in
      let scanned = scan_with-IsWritten w records rest keep_records s i head last in
      let first =
        try_first x c (w.header ++ (i.bytes ++ rest)) w.header aad keep_records s right
          (rw keyed scanned) in
      let first' = rw keyed at first in
      rw (all, take_exact w.header (i.bytes ++ rest) head, parsed)
        (ground (arith, first', length-append w.header (i.bytes ++ rest)))
