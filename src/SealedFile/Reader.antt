-- ===== src/SealedFile/Reader.antt =====
-- Reading a sealed file (crates/core/crypto/src/sealed_file.rs): opening it, and any range of it.
use ryu_rooms.Prelude.{
  ℕ, zero, suc, ◌+◌, ◌-◌, ◌*◌, ◌/◌, ◌%◌, ◌^◌, Bool, false, ◌&&◌, Option, none, some, List, [], ◌∷◌,
  ◌++◌, length, take, ltb, leb, eqb, if◌then◌else◌,
}
use ryu_rooms.Result.{Result, ok, err, ◌>>=◌, ◌>>◌, reject, ok_or}
use ryu_rooms.Bytes.{Bytes, drop, strip, begins}
use ryu_rooms.Seal.{ContentContext}
use ryu_rooms.Content.{
  Primitives, Error, refused, message, out_of_fuel, does_not_open, tag_len, sealed_file_magic,
}
use ryu_rooms.Content.Context.{associated_data}
use ryu_rooms.Content.Keys.{ContentKey, ContentCipher, candidate_keys}
use ryu_rooms.SealedFile.{sealed_file_header_len, smaller, chunk_nonce, file_key}

pub record SealedFileReader : Type 0 where
  pub inner : Bytes
  pub key : Bytes
  pub header : Bytes
  pub chunk_size : ℕ
  pub chunk_count : ℕ
  pub plaintext_len : ℕ
  pub position : ℕ
  pub cached : Option (ℕ × Bytes)
  pub retired_key : Bool

-- Seek and `read_exact`.
unfoldable pub read_exact : Bytes → (offset len : ℕ) → Option Bytes
read_exact inner offset len =
    if leb (offset + len) (length inner) then some (take len (drop offset inner)) else none

abbrev pub is_cached : Option (ℕ × Bytes) → ℕ → Bool
is_cached none index = false
is_cached (some (i, _)) index = eqb i index

abbrev pub cached_chunk : Option (ℕ × Bytes) → Bytes
cached_chunk none = []
cached_chunk (some (_, chunk)) = chunk

-- The exponent of the chunk size in a header that `open` accepts.
unfoldable pub header_fields : Option Bytes → Result Error ℕ
header_fields none = err (message "not an RYU-SF01 sealed file")
header_fields (some []) = err (message "unsupported RYU-SF01 header")
header_fields (some (chunk_log2 ∷ fields)) =
    if leb 10 chunk_log2 && leb chunk_log2 20 && begins fields (0 ∷ 0 ∷ 0 ∷ [])
    then ok chunk_log2
    else err (message "unsupported RYU-SF01 header")

-- How many chunks there are and how long the plaintext is, of the length of what follows the header.
unfoldable pub measure : (chunk_size body : ℕ) → Result Error (ℕ × ℕ)
measure chunk_size body =
    let sealed_chunk = chunk_size + tag_len in
    let full = body / sealed_chunk in
    let rem = body % sealed_chunk in
    if eqb rem 0
    then ok (full, full * chunk_size)
    else if leb rem 15
    then err (message "sealed file is truncated or malformed")
    else ok (full + 1, full * chunk_size + (rem - tag_len))

module _ (x : Primitives) where
  unfoldable pub load_chunk : SealedFileReader → ℕ → Result Error SealedFileReader
  load_chunk r index =
      let last = eqb (index + 1) r.chunk_count in
      let sealed_chunk = r.chunk_size + tag_len in
      let offset = sealed_file_header_len + index * sealed_chunk in
      let len = if last then r.plaintext_len - index * r.chunk_size + tag_len else sealed_chunk in
      if is_cached r.cached index then ok r else do
        reject (leb r.chunk_count index) (message "chunk out of range")
        sealed ← ok_or (read_exact r.inner offset len) (message "failed to fill whole buffer")
        plain ←
            ok_or (x.decrypt r.key (chunk_nonce index last) sealed r.header)
              (message "sealed file chunk does not open")
        ok (record r { cached = some (index, plain) })

  -- The loop of `open` over the candidate keys.
  unfoldable pub try_keys :
      SealedFileReader
      → (salt aad : Bytes) → List (ContentKey × Bool)
      → Result Error SealedFileReader
  try_keys r salt aad [] = err (refused does_not_open)
  try_keys r salt aad ((k, retired) ∷ keys) =
      elim (load_chunk (record r { key = file_key x k.key salt aad; retired_key = retired })
        (r.chunk_count - 1)) [ ok opened ↦ ok opened | err _ ↦ try_keys r salt aad keys ]

  unfoldable pub open_file : Bytes → ContentCipher → ContentContext → Result Error SealedFileReader
  open_file inner c context = do
    reject (ltb (length inner) (sealed_file_header_len + tag_len))
        (message "sealed file is truncated")
    let header = take sealed_file_header_len inner
    chunk_log2 ← header_fields (strip header sealed_file_magic)
    let chunk_size = 2 ^ chunk_log2
    sizes ← measure chunk_size (length inner - sealed_file_header_len)
    reject (eqb sizes.0 0) (message "sealed file has no chunks")
    try_keys
        (record {
          inner = inner;
          key = [];
          header = header;
          chunk_size = chunk_size;
          chunk_count = sizes.0;
          plaintext_len = sizes.1;
          position = 0;
          cached = none;
          retired_key = false;
        })
        (drop 12 header) (associated_data context c.store) (candidate_keys c)

  -- The loop of `read_range`, from a position to the end of the range, after what was read before.
  unfoldable pub range_loop :
      ℕ → SealedFileReader → (end position : ℕ) → Bytes → Result Error (SealedFileReader × Bytes)
  range_loop zero r end position out = err out_of_fuel
  range_loop (suc fuel) r end position out =
      let index = position / r.chunk_size in
      let within = position - index * r.chunk_size in
      let round = (do
        r' ← load_chunk r index
        let chunk = cached_chunk r'.cached
        let n = smaller (end - position) (length chunk - within)
        range_loop fuel r' end (position + n) (out ++ take n (drop within chunk))) in
      if ltb position end then round else ok (r, out)

  unfoldable pub read_range :
      SealedFileReader → (start len : ℕ) → Result Error (SealedFileReader × Bytes)
  read_range r start len =
      let end = smaller (smaller (start + len) 18446744073709551615) r.plaintext_len in
      if leb end start then ok (r, []) else range_loop (suc (end - start)) r end start []
