-- ===== src/SealedLog/Compacting.antt =====
-- A closed log as a sealed file (crates/core/crypto/src/sealed_log.rs, `compact_to_sealed_file`).
pub mod Composed
use ryu_rooms.Prelude.{ℕ, Option, none, some, List, [], ◌∷◌}
use ryu_rooms.Result.{Result, ok, err, ◌>>=◌, ok_or}
use ryu_rooms.Bytes.{Bytes}
use ryu_rooms.Seal.{ContentContext}
use ryu_rooms.Content.{Primitives, Error, message}
use ryu_rooms.Content.Keys.{ContentCipher}
use ryu_rooms.SealedLog.{read_log_bytes}
use ryu_rooms.SealedFile.{SealedFileWriter, default_chunk_log2, with_params, write_plain, finish}

module _ (x : Primitives) where
  unfoldable pub read_log :
      Option Bytes → ContentCipher → ContentContext → Result Error (List Bytes)
  read_log file c context = do
    bytes ← ok_or file (message "reading")
    read_log_bytes x bytes c context

  -- The loop over the records.
  unfoldable pub write_records : SealedFileWriter → List Bytes → Result Error SealedFileWriter
  write_records w [] = ok w
  write_records w (record_bytes ∷ records) = do
    w' ← write_plain x w record_bytes
    write_records w' records

  -- The file that is published at the destination, and the length of its plaintext. On an error
  -- nothing is published.
  unfoldable pub compact_to_sealed_file :
      Option Bytes
      → ContentCipher
      → (log_context file_context : ContentContext) → ℕ
      → Result Error (Bytes × ℕ)
  compact_to_sealed_file log c log_context file_context draw = do
    records ← read_log log c log_context
    w ← with_params x c file_context default_chunk_log2 (x.fill_bytes draw 20)
    w' ← write_records w records
    finished ← finish x w'
    ok (finished.sink, finished.plaintext_len)
