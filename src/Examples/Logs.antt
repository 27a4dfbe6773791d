-- ===== src/Examples/Logs.antt =====
-- The theorems on crates/core/crypto/src/sealed_log.rs at concrete values, and runs of its functions.
use ryu_rooms.Bytes.{all_zero, begins, from_be, strip}
use ryu_rooms.Content.Context.{push_fields, push_part}
use ryu_rooms.Content.Keys.{derive_content_key, hkdf32}
use ryu_rooms.Examples.Primitives.{sum}
use ryu_rooms.SealedLog.{scan_from}
use ryu_rooms.SealedLog.Writer.{count_from}
use ryu_rooms.Bytes.{be_onto}
use ryu_rooms.Bytes.Utf8.{as_bytes, encode}
use ryu_rooms.Content.{sealed_log_magic}
use ryu_rooms.Prelude.{
  ℕ, ◌≤◌, ◌≡◌, ◌≢◌, refl, arith, true, false, some, List, [], ◌∷◌, ◌++◌, map, length, take, ltb,
}
use ryu_rooms.Result.{ok, err}
use ryu_rooms.Bytes.{Bytes}
use ryu_rooms.Content.{out_of_fuel}
use ryu_rooms.Content.Context.{associated_data}
use ryu_rooms.SealedLog.{
  clean, read_log_bytes, open_recovering, open_log, scan_with, record_aad, log_key,
}
use ryu_rooms.SealedLog.Writer.{
  SealedLogWriter, new_header, frame, count_records, create_with_salt, append_with_nonce,
  open_append,
}
use ryu_rooms.SealedLog.RoundTrip.{append_all, record_of, read_log_bytes-append_all}
use ryu_rooms.SealedLog.Recovery.{open_append_cut}
use ryu_rooms.SealedLog.Counting.{count_records-scan_with}
use ryu_rooms.SealedLog.Ending.{open_log-ne-out_of_fuel}
use ryu_rooms.Examples.Primitives.{toy, toy-IsLawful, replicate, tag}
use ryu_rooms.Examples.Sealing.{cipher, new_root, place}

abbrev pub salt : Bytes
salt = replicate 20 5

abbrev pub key : Bytes
key = log_key toy (cipher new_root).current.key salt (associated_data place "s")

abbrev pub writer : Bytes → ℕ → SealedLogWriter
writer file index = record { file = file; header = new_header salt; key = key; next_index = index }

-- The frame of a record under a nonce, with an index.
abbrev pub framed : Bytes → Bytes → ℕ → Bytes
framed plain nonce index = frame nonce (tag key nonce (record_aad (new_header salt) index) ++ plain)

abbrev pub entries : List (Bytes × Bytes)
entries = (1 ∷ 2 ∷ [], replicate 12 3) ∷ ([], replicate 12 4) ∷ []

abbrev pub two : Bytes
two = (new_header salt ++ framed (1 ∷ 2 ∷ []) (replicate 12 3) 0) ++ framed [] (replicate 12 4) 1

abbrev pub three : Bytes
three = two ++ framed (9 ∷ []) (replicate 12 6) 2

read_log_bytes-append_all_example :
    read_log_bytes toy two (cipher new_root) place ≡ ok (map record_of entries)
unfolding replicate sum new_header sealed_log_magic as_bytes encode frame tag be_onto from_be strip
    begins all_zero log_key hkdf32 derive_content_key associated_data push_part push_fields
    record_aad scan_from scan_with count_from count_records create_with_salt append_all
    append_with_nonce
read_log_bytes-append_all_example =
    read_log_bytes-append_all toy-IsLawful (cipher new_root) place salt (writer (new_header salt) 0)
      (writer two 2) entries refl (refl, (refl, tt)) refl refl

open_append_cut_example :
    (open_append toy (some (take 110 three)) (cipher new_root) place 0 ≡ ok (writer two 2))
    × (open_recovering toy (some (take 110 three)) (cipher new_root) place
        ≡ ok (record {
          records = map record_of entries;
          torn_tail = ltb (length two) 110;
          needs_reseal = false;
        }))
unfolding replicate sum new_header sealed_log_magic as_bytes encode frame tag be_onto from_be strip
    begins all_zero log_key hkdf32 derive_content_key associated_data push_part push_fields
    record_aad scan_from scan_with count_from count_records create_with_salt append_all
    append_with_nonce
open_append_cut_example =
    open_append_cut toy-IsLawful (cipher new_root) place salt (writer (new_header salt) 0)
      (writer two 2) (writer three 3) entries (9 ∷ []) (replicate 12 6) 2 110 0 refl
      (refl, (refl, tt)) refl refl refl refl (omega arith) (omega arith)

count_records-scan_with_example : (98 ≤ length two) × (count_records (take 98 two) ≡ 2)
unfolding replicate sum new_header sealed_log_magic as_bytes encode frame tag be_onto from_be strip
    begins all_zero log_key hkdf32 derive_content_key associated_data push_part push_fields
    record_aad scan_from scan_with count_from count_records create_with_salt append_all
    append_with_nonce
count_records-scan_with_example =
    count_records-scan_with toy two (new_header salt) key
      (record { records = map record_of entries; committed_end = 98; tail = clean }) (omega arith)
      refl

open_log-ne-out_of_fuel_example : open_log toy two (cipher new_root) place true ≢ err out_of_fuel
open_log-ne-out_of_fuel_example = open_log-ne-out_of_fuel toy two (cipher new_root) place true

size_of_two : length two ≡ 98
unfolding replicate sum new_header sealed_log_magic as_bytes encode frame tag be_onto from_be strip
    begins all_zero log_key hkdf32 derive_content_key associated_data push_part push_fields
    record_aad scan_from scan_with count_from count_records create_with_salt append_all
    append_with_nonce
size_of_two = refl
