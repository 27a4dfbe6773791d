-- ===== src/Examples/Files.antt =====
-- The theorems on crates/core/crypto/src/sealed_file.rs at concrete values.
use ryu_rooms.Content.Keys.{candidate_keys}
use ryu_rooms.SealedLog.{
  is_torn, is_wrong_key, open_log, parse_header, read_log_bytes, torn_tail, try_keys,
}
use ryu_rooms.SealedLog.Compacting.{read_log, write_records}
use ryu_rooms.Bytes.{all_zero, be_onto, begins, from_be, strip}
use ryu_rooms.Bytes.Utf8.{as_bytes, encode}
use ryu_rooms.Content.{sealed_file_magic, sealed_log_magic}
use ryu_rooms.Content.Context.{push_fields, push_part}
use ryu_rooms.Content.Keys.{derive_content_key, hkdf32}
use ryu_rooms.Examples.Primitives.{sum}
use ryu_rooms.SealedFile.{fill, make_room, seal_chunk, taken, write_loop}
use ryu_rooms.SealedLog.{log_key, record_aad, scan_from, scan_with}
use ryu_rooms.SealedLog.Writer.{
  append_with_nonce, count_from, count_records, create_with_salt, frame,
}
use ryu_rooms.Prelude.{ℕ, ◌≡◌, refl, arith, Bool, true, false, [], ◌∷◌, ◌++◌, map, length, take}
use ryu_rooms.Result.{ok, ◌>>=◌}
use ryu_rooms.Bytes.{Bytes, drop, concat}
use ryu_rooms.Content.Context.{associated_data}
use ryu_rooms.SealedFile.{
  SealedFileWriter, with_params, write_plain, finish, build_header, chunk_nonce, file_key,
}
use ryu_rooms.SealedFile.Reader.{SealedFileReader, open_file, read_range}
use ryu_rooms.SealedFile.Joins.{write_plain-append, stamp}
use ryu_rooms.SealedFile.Pieces.{push_bytes}
use ryu_rooms.SealedFile.RoundTrip.{read_range-write_plain}
use ryu_rooms.SealedLog.Writer.{new_header}
use ryu_rooms.SealedLog.Compacting.{compact_to_sealed_file}
use ryu_rooms.SealedLog.Compacting.Composed.{compact_to_sealed_file-append_all}
use ryu_rooms.SealedLog.RoundTrip.{append_all, record_of}
use ryu_rooms.Examples.Primitives.{toy, toy-IsLawful, replicate, tag}
use ryu_rooms.Examples.Sealing.{cipher, new_root, place}
use ryu_rooms.Examples.Logs.{salt, writer, two, entries}

abbrev file_header : ℕ → Bytes → Bytes
file_header = build_header

-- A writer of a file of the exponent, with a salt, that has written one chunk and keeps a buffer.
abbrev file_writer : ℕ → ℕ → Bytes → Bytes → Bytes → ℕ → Bytes → SealedFileWriter
file_writer log2 size the_salt body buffer index plain = record {
  sink = build_header log2 the_salt ++ body;
  key = file_key toy (cipher new_root).current.key the_salt (associated_data place "s");
  header = build_header log2 the_salt;
  chunk_size = size;
  buffer = buffer;
  next_index = index;
  plaintext_len = length plain;
  hashed = plain;
}

-- A sealed chunk.
abbrev sealed_chunk : ℕ → Bytes → ℕ → Bool → Bytes → Bytes
sealed_chunk log2 the_salt index last plain =
    tag (file_key toy (cipher new_root).current.key the_salt (associated_data place "s"))
      (chunk_nonce index last) (build_header log2 the_salt)
    ++ plain

abbrev first_chunk : Bytes
first_chunk = replicate 1024 7

write_plain-append_example :
    (write_plain toy (file_writer 10 2 salt [] (8 ∷ []) 0 (8 ∷ [])) ((1 ∷ 2 ∷ 3 ∷ []) ++ 4 ∷ [])
      ≡ push_bytes toy
          (stamp (file_writer 10 2 salt [] (8 ∷ []) 0 (8 ∷ [])) ((1 ∷ 2 ∷ 3 ∷ []) ++ 4 ∷ []))
          ((1 ∷ 2 ∷ 3 ∷ []) ++ 4 ∷ []))
    × (write_plain toy (file_writer 10 2 salt [] (8 ∷ []) 0 (8 ∷ [])) ((1 ∷ 2 ∷ 3 ∷ []) ++ 4 ∷ [])
        ≡ (write_plain toy (file_writer 10 2 salt [] (8 ∷ []) 0 (8 ∷ [])) (1 ∷ 2 ∷ 3 ∷ []) >>= λ v.
            write_plain toy v (4 ∷ [])))
write_plain-append_example =
    write_plain-append toy (file_writer 10 2 salt [] (8 ∷ []) 0 (8 ∷ [])) (1 ∷ 2 ∷ 3 ∷ []) (4 ∷ [])
      (omega arith)

read_range-write_plain_example :
    ((r : SealedFileReader) × (r' : SealedFileReader) × (open_file toy
          (build_header 10 salt
            ++ sealed_chunk 10 salt 0 false first_chunk
            ++ sealed_chunk 10 salt 1 true (1 ∷ 2 ∷ []))
          (cipher new_root)
          place
        ≡ ok r)
      × (r.plaintext_len ≡ length (first_chunk ++ 1 ∷ 2 ∷ []))
      × (r.retired_key ≡ false)
      × (read_range toy r 1020 9 ≡ ok (r', take 9 (drop 1020 (first_chunk ++ 1 ∷ 2 ∷ [])))))
    × (1026 ≡ length (first_chunk ++ 1 ∷ 2 ∷ []))
    × (first_chunk ++ 1 ∷ 2 ∷ [] ≡ toy.sha256 (first_chunk ++ 1 ∷ 2 ∷ []))
unfolding replicate sum new_header sealed_log_magic as_bytes encode frame tag be_onto from_be strip
    begins all_zero log_key hkdf32 derive_content_key associated_data push_part push_fields
    record_aad scan_from scan_with count_from count_records create_with_salt append_all
    append_with_nonce build_header sealed_file_magic chunk_nonce file_key with_params seal_chunk
    make_room taken fill write_loop write_plain finish
read_range-write_plain_example =
    read_range-write_plain toy-IsLawful (cipher new_root) place 10 salt (first_chunk ++ 1 ∷ 2 ∷ [])
      (file_writer 10 1024 salt [] [] 0 [])
      (file_writer 10 1024 salt (sealed_chunk 10 salt 0 false first_chunk) (1 ∷ 2 ∷ []) 1
        (first_chunk ++ 1 ∷ 2 ∷ []))
      (record {
        sink =
            build_header 10 salt
            ++ sealed_chunk 10 salt 0 false first_chunk
            ++ sealed_chunk 10 salt 1 true (1 ∷ 2 ∷ []);
        plaintext_len = 1026;
        plaintext_sha256 = first_chunk ++ 1 ∷ 2 ∷ [];
      })
      1020 9 refl (omega arith) refl refl refl

-- The file that the log of two records is compacted into.
abbrev compacted : Bytes
compacted = build_header 16 (replicate 20 0) ++ sealed_chunk 16 (replicate 20 0) 0 true (1 ∷ 2 ∷ [])

compact_to_sealed_file-append_all_example :
    ((r : SealedFileReader) × (r' : SealedFileReader) × (open_file toy compacted
          (cipher new_root)
          place
        ≡ ok r)
      × (read_range toy r 1 5 ≡ ok (r', take 5 (drop 1 (concat (map record_of entries))))))
    × (2 ≡ length (concat (map record_of entries)))
unfolding replicate sum new_header sealed_log_magic as_bytes encode frame tag be_onto from_be strip
    begins all_zero log_key hkdf32 derive_content_key associated_data push_part push_fields
    record_aad scan_from scan_with count_from count_records create_with_salt append_all
    append_with_nonce build_header sealed_file_magic chunk_nonce file_key with_params seal_chunk
    make_room taken fill write_loop write_plain finish compact_to_sealed_file read_log write_records
    read_log_bytes open_log try_keys candidate_keys parse_header is_wrong_key torn_tail is_torn
compact_to_sealed_file-append_all_example =
    compact_to_sealed_file-append_all toy-IsLawful (cipher new_root) place place salt
      (writer (new_header salt) 0) (writer two 2) entries 0 compacted 2 1 5 refl (refl, (refl, tt))
      (omega arith) refl refl refl
