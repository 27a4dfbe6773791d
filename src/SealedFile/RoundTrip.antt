-- ===== src/SealedFile/RoundTrip.antt =====
-- A sealed file that was written and is read (crates/core/crypto/src/sealed_file.rs).
use ryu_rooms.Prelude.{
  ℕ, ◌<◌, ◌≡◌, ap, ◌∙◌, arith, true, false, [], ◌++◌, length, take, Option-cases, inl, inr,
}
use ryu_rooms.Result.{ok}
use ryu_rooms.Bytes.{Bytes, drop}
use ryu_rooms.Seal.{ContentContext}
use ryu_rooms.Content.{Primitives, IsLawful}
use ryu_rooms.Content.Keys.{ContentCipher}
use ryu_rooms.SealedFile.{
  SealedFileWriter, FinishedFile, with_params, write_plain, finish, seal_chunk, chunk_nonce,
}
use ryu_rooms.SealedFile.Reader.{SealedFileReader, open_file, read_range}
use ryu_rooms.SealedFile.Joins.{stamp, write_plain-SameFile}
use ryu_rooms.SealedFile.Written.{IsWritten, pos_pow, with_params-IsWritten, write_plain-IsWritten}
use ryu_rooms.SealedFile.Reopening.{read_range_lem, open_IsFile}
use ryu_rooms.SealedFile.Opening.{finish-IsFile}

-- The rest of a theorem on a file: what was written, by a writer that started with these parameters.
pub read_range-IsWritten :
    {x : Primitives} (law : IsLawful x) (c : ContentCipher) (context : ContentContext)
    (chunk_log2 : ℕ) (salt plain : Bytes) (w0 w : SealedFileWriter) (done : FinishedFile)
    (start len : ℕ)
    → length salt ≡ 20
    → length plain < 18446744073709551616
    → with_params x c context chunk_log2 salt ≡ ok w0
    → (w.key ≡ w0.key) × (w.header ≡ w0.header) × (w.chunk_size ≡ w0.chunk_size)
    → IsWritten x w plain
    → finish x w ≡ ok done
    → (r : SealedFileReader) × (r' : SealedFileReader) × (open_file x done.sink c context ≡ ok r)
      × (r.plaintext_len ≡ length plain)
      × (r.retired_key ≡ false)
      × (read_range x r start len ≡ ok (r', take len (drop start plain)))
read_range-IsWritten {x} law c context chunk_log2 salt plain w0 w done start len ls lp h0 (k, d, s)
      i h2 =
    let (i0, a, b, size, header, key) = with_params-IsWritten law c context chunk_log2 salt w0 h0 in
    let (body, count, sink, file) = finish-IsFile law w plain done i h2 in
    let file' = rw (d ∙ header, s ∙ size) at file in
    let (r, opened, length_ok, retired, chunk, reading) =
      open_IsFile x c context chunk_log2 salt w.key body plain count ls a b (k ∙ key) file' in
    let (r', range) =
      read_range_lem x r plain start len reading (omega (arith, chunk, pos_pow chunk_log2)) lp in
    (
      r,
      r',
      ap (λ (t : Bytes). open_file x t c context)
            (sink ∙ ap (λ (t : Bytes). t ++ body) (d ∙ header))
          ∙ opened,
      length_ok,
      retired,
      range,
    )

pub finish_counts :
    (x : Primitives) (w : SealedFileWriter) (done : FinishedFile)
    → finish x w ≡ ok done
    → (done.plaintext_len ≡ w.plaintext_len) × (done.plaintext_sha256 ≡ x.sha256 w.hashed)
unfolding finish seal_chunk
finish_counts x w done h =
    elim (Option-cases (x.encrypt w.key (chunk_nonce w.next_index true) w.buffer w.header)) [
      | inl e ↦ absurd (ground (arith, e))
      | inr (sealed, e) ↦ ground (arith, e)
    ]

pub with_params_empty :
    (x : Primitives) (c : ContentCipher) (context : ContentContext) (chunk_log2 : ℕ) (salt : Bytes)
    (w : SealedFileWriter)
    → with_params x c context chunk_log2 salt ≡ ok w
    → (w.plaintext_len ≡ 0) × (w.hashed ≡ [])
unfolding with_params
with_params_empty x c context chunk_log2 salt w h = ground arith

-- A file that was started with a chunk size exponent and a salt of 20 bytes, given a plaintext of less
-- than 2 ^ 64 bytes, and finished, opens under the same cipher and context, with the plaintext's length
-- and under the current key; and any range that is read from it, whatever its start and length, and
-- also when it goes beyond the end, is that range of the plaintext. The length and the hash that
-- finishing returns are the plaintext's.
pub read_range-write_plain :
    {x : Primitives} (law : IsLawful x) (c : ContentCipher) (context : ContentContext)
    (chunk_log2 : ℕ) (salt plain : Bytes) (w0 w : SealedFileWriter) (done : FinishedFile)
    (start len : ℕ)
    → length salt ≡ 20
    → length plain < 18446744073709551616
    → with_params x c context chunk_log2 salt ≡ ok w0
    → write_plain x w0 plain ≡ ok w
    → finish x w ≡ ok done
    → ((r : SealedFileReader) × (r' : SealedFileReader) × (open_file x done.sink c context ≡ ok r)
        × (r.plaintext_len ≡ length plain)
        × (r.retired_key ≡ false)
        × (read_range x r start len ≡ ok (r', take len (drop start plain))))
      × (done.plaintext_len ≡ length plain)
      × (done.plaintext_sha256 ≡ x.sha256 plain)
unfolding stamp
read_range-write_plain {x} law c context chunk_log2 salt plain w0 w done start len ls lp h0 h1 h2 =
    let (i0, _, _, _, _, _) = with_params-IsWritten law c context chunk_log2 salt w0 h0 in
    let (k, d, s, n, hashed) = write_plain-SameFile x w0 w plain i0.roomy h1 in
    let (n0, none_hashed) = with_params_empty x c context chunk_log2 salt w0 h0 in
    let (n', hash) = finish_counts x w done h2 in
    (
      read_range-IsWritten law c context chunk_log2 salt plain w0 w done start len ls lp h0
          (k, d, s) (write_plain-IsWritten law w0 w [] plain i0 h1) h2,
      omega (arith, n', n, n0),
      hash ∙ ap x.sha256 (hashed ∙ ap (λ (t : Bytes). t ++ plain) none_hashed),
    )
