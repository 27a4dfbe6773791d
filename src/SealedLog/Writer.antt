-- ===== src/SealedLog/Writer.antt =====
-- Writing a sealed log (crates/core/crypto/src/sealed_log.rs): a new one, one that is opened again,
-- and one record more.
use ryu_rooms.Prelude.{
  ℕ, zero, suc, ◌+◌, ◌%◌, false, Option, none, some, ◌∷◌, ◌++◌, length, take, ltb, leb,
  if◌then◌else◌,
}
use ryu_rooms.Result.{Result, ok, err, ◌>>=◌, ◌>>◌, reject, ok_or}
use ryu_rooms.Bytes.{Bytes, drop, be_onto, from_be}
use ryu_rooms.Seal.{ContentContext}
use ryu_rooms.Content.{Primitives, Error, message, nonce_len, tag_len, sealed_log_magic}
use ryu_rooms.Content.Context.{associated_data}
use ryu_rooms.Content.Keys.{ContentCipher}
use ryu_rooms.SealedLog.{
  sealed_log_header_len, max_record_body, salt_len, log_version, record_aad, log_key, open_log,
  torn_tail,
}

-- `file` is what the file holds; the position to write at is its end.
pub record SealedLogWriter : Type 0 where
  pub file : Bytes
  pub header : Bytes
  pub key : Bytes
  pub next_index : ℕ

unfoldable pub new_header : Bytes → Bytes
new_header salt = sealed_log_magic ++ log_version ∷ 0 ∷ 0 ∷ 0 ∷ salt

-- The loop of `count_records` at a position: `rest` is what follows it.
unfoldable pub count_from : ℕ → Bytes → ℕ
count_from zero rest = 0
count_from (suc fuel) rest =
    let more = count_from fuel (drop (from_be 0 (take 4 rest)) (drop 4 rest)) in
    if leb 4 (length rest) then 1 + more else 0

unfoldable pub count_records : Bytes → ℕ
count_records bytes = count_from (length bytes) (drop sealed_log_header_len bytes)

-- The bytes of one record in the file; its length is written in 32 bits.
unfoldable pub frame : (nonce ciphertext : Bytes) → Bytes
frame nonce ciphertext =
    be_onto 4 ((nonce_len + length ciphertext) % 4294967296) (nonce ++ ciphertext)

module _ (x : Primitives) where
  -- A file that exists already is an error of `create_private_file`.
  unfoldable pub create_with_salt :
      Option Bytes → ContentCipher → ContentContext → Bytes → Result Error SealedLogWriter
  create_with_salt (some _) c context salt = err (message "creating a sealed log: it exists")
  create_with_salt none c context salt =
      let header = new_header salt in
      ok (record {
        file = header;
        header = header;
        key = log_key x c.current.key salt (associated_data context c.store);
        next_index = 0;
      })

  unfoldable pub create :
      Option Bytes → ContentCipher → ContentContext → ℕ → Result Error SealedLogWriter
  create file c context draw = create_with_salt file c context (x.fill_bytes draw salt_len)

  unfoldable pub open_append :
      Option Bytes → ContentCipher → ContentContext → ℕ → Result Error SealedLogWriter
  open_append none c context draw = create none c context draw
  open_append (some bytes) c context draw = do
    opened ← open_log x bytes c context false
    reject opened.retired
        (message "sealed log was written under a retired key; compact it before appending")
    let committed = take opened.scan.committed_end bytes
    ok (record {
      file = if torn_tail opened.scan then committed else bytes;
      header = opened.header;
      key = opened.key;
      next_index = count_records committed;
    })

  unfoldable pub append_with_nonce :
      SealedLogWriter → (plaintext nonce : Bytes) → Result Error (SealedLogWriter × ℕ)
  append_with_nonce w plaintext nonce = do
    reject (ltb max_record_body (length plaintext + nonce_len + tag_len))
        (message "sealed log records are limited to 16 MiB")
    ciphertext ←
        ok_or (x.encrypt w.key nonce plaintext (record_aad w.header w.next_index))
          (message "sealed log encryption failed")
    ok (
      record w { file = w.file ++ frame nonce ciphertext; next_index = w.next_index + 1 },
      w.next_index,
    )

  unfoldable pub append : SealedLogWriter → Bytes → ℕ → Result Error (SealedLogWriter × ℕ)
  append w plaintext draw = append_with_nonce w plaintext (x.fill_bytes draw nonce_len)
