-- ===== src/SealedFile.antt =====
-- Write-once sealed files (crates/core/crypto/src/sealed_file.rs): the writer, which keeps one chunk
-- back. Reader reads one.
pub mod Reader
pub mod Pieces
pub mod Joins
pub mod Layout
pub mod Written
pub mod Loading
pub mod Chunks
pub mod Ranges
pub mod Opening
pub mod Reopening
pub mod RoundTrip
use ryu_rooms.Prelude.{
  ℕ, zero, suc, ◌+◌, ◌-◌, ◌^◌, Bool, true, false, not, ◌&&◌, List, [], ◌∷◌, ◌++◌, length, take, ltb,
  leb, eqb, if◌then◌else◌,
}
use ryu_rooms.Result.{Result, ok, err, ◌>>=◌, ◌>>◌, reject, ok_or}
use ryu_rooms.Bytes.{Bytes, drop, be_onto}
use ryu_rooms.Bytes.Utf8.{as_bytes}
use ryu_rooms.Seal.{ContentContext}
use ryu_rooms.Content.{Primitives, Error, message, out_of_fuel, sealed_file_magic}
use ryu_rooms.Content.Context.{associated_data}
use ryu_rooms.Content.Keys.{ContentCipher, hkdf32}

abbrev pub sealed_file_header_len : ℕ
sealed_file_header_len = 32

abbrev pub default_chunk_log2 : ℕ
default_chunk_log2 = 16

abbrev pub smaller : ℕ → ℕ → ℕ
smaller a b = if leb a b then a else b

-- A number, and then one byte for whether the chunk is the last.
unfoldable pub chunk_nonce : ℕ → Bool → Bytes
chunk_nonce index last = 0 ∷ 0 ∷ 0 ∷ be_onto 8 index ((if last then 1 else 0) ∷ [])

unfoldable pub build_header : ℕ → Bytes → Bytes
build_header chunk_log2 salt = sealed_file_magic ++ chunk_log2 ∷ 0 ∷ 0 ∷ 0 ∷ salt

-- `sink` is what the sink has been given; `hashed` what the hasher has been given.
pub record SealedFileWriter : Type 0 where
  pub sink : Bytes
  pub key : Bytes
  pub header : Bytes
  pub chunk_size : ℕ
  pub buffer : Bytes
  pub next_index : ℕ
  pub plaintext_len : ℕ
  pub hashed : Bytes

pub record FinishedFile : Type 0 where
  pub sink : Bytes
  pub plaintext_len : ℕ
  pub plaintext_sha256 : Bytes

-- The second half of a round of the loop of `write_plain`: as much of the rest as there is room for.
unfoldable pub taken : SealedFileWriter → Bytes → ℕ
taken w rest = smaller (w.chunk_size - length w.buffer) (length rest)

unfoldable pub fill : SealedFileWriter → Bytes → SealedFileWriter
fill w rest = record w { buffer = w.buffer ++ take (taken w rest) rest }

module _ (x : Primitives) where
  unfoldable pub file_key : (cipher_key salt aad : Bytes) → Bytes
  file_key cipher_key salt aad = hkdf32 x cipher_key salt (as_bytes "ryu-sealed-file-v1" ∷ aad ∷ [])

  -- Starts on an empty sink.
  unfoldable pub with_params :
      ContentCipher → ContentContext → ℕ → Bytes → Result Error SealedFileWriter
  with_params c context chunk_log2 salt = do
    reject (not (leb 10 chunk_log2 && leb chunk_log2 20))
        (message "sealed file chunk_log2 must be 10..=20")
    let header = build_header chunk_log2 salt
    ok (record {
      sink = header;
      key = file_key c.current.key salt (associated_data context c.store);
      header = header;
      chunk_size = 2 ^ chunk_log2;
      buffer = [];
      next_index = 0;
      plaintext_len = 0;
      hashed = [];
    })

  unfoldable pub seal_chunk : SealedFileWriter → Bool → Result Error SealedFileWriter
  seal_chunk w last = do
    sealed ←
        ok_or (x.encrypt w.key (chunk_nonce w.next_index last) w.buffer w.header)
          (message "sealed file chunk encryption failed")
    ok (record w { sink = w.sink ++ sealed; next_index = w.next_index + 1; buffer = [] })

  -- The first half of a round of the loop of `write_plain`: a full buffer is not the last chunk.
  unfoldable pub make_room : SealedFileWriter → Result Error SealedFileWriter
  make_room w = if eqb (length w.buffer) w.chunk_size then seal_chunk w false else ok w

  unfoldable pub write_loop : ℕ → SealedFileWriter → Bytes → Result Error SealedFileWriter
  write_loop zero w rest = err out_of_fuel
  write_loop (suc fuel) w [] = ok w
  write_loop (suc fuel) w (b ∷ rest) = do
    roomy ← make_room w
    write_loop fuel (fill roomy (b ∷ rest)) (drop (taken roomy (b ∷ rest)) (b ∷ rest))

  unfoldable pub write_plain : SealedFileWriter → Bytes → Result Error SealedFileWriter
  write_plain w plain =
      write_loop (suc (length plain))
        (record w { hashed = w.hashed ++ plain; plaintext_len = w.plaintext_len + length plain })
        plain

  unfoldable pub finish : SealedFileWriter → Result Error FinishedFile
  finish w = do
    done ← seal_chunk w true
    ok (record {
      sink = done.sink;
      plaintext_len = done.plaintext_len;
      plaintext_sha256 = x.sha256 done.hashed;
    })

  unfoldable pub seal_file_bytes : Bytes → ContentCipher → ContentContext → ℕ → Result Error Bytes
  seal_file_bytes plaintext c context draw = do
    w ← with_params c context default_chunk_log2 (x.fill_bytes draw 20)
    w' ← write_plain w plaintext
    finished ← finish w'
    ok finished.sink
