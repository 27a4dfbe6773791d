-- ===== src/SealedFile/Opening.antt =====
-- Opening a sealed file that a writer has finished (crates/core/crypto/src/sealed_file.rs).
use mathlib.Core.List.{append_assoc}
use ryu_rooms.Prelude.{
  ℕ, ◌+◌, ◌*◌, ◌≤◌, ◌<◌, ◌≡◌, refl, ap, ◌∙◌, arith, true, ◌∷◌, ◌++◌, length, length-append,
  Option-cases, inl, inr,
}
use ryu_rooms.Result.{ok}
use ryu_rooms.Bytes.{Bytes, drop, strip, begins}
use ryu_rooms.Bytes.Slices.{strip_append}
use ryu_rooms.Bytes.Utf8.{as_bytes, encode}
use ryu_rooms.Content.{Primitives, IsLawful, sealed_file_magic}
use ryu_rooms.SealedFile.{
  SealedFileWriter, FinishedFile, build_header, seal_chunk, finish, chunk_nonce,
}
use ryu_rooms.SealedFile.Reader.{header_fields, measure}
use ryu_rooms.SealedFile.Layout.{measure_lem, length-Fulls, concat_chunks, length-concat_chunks}
use ryu_rooms.SealedFile.Written.{IsWritten}
use ryu_rooms.SealedFile.Loading.{IsFile}

pub length-build_header :
    (chunk_log2 : ℕ) (salt : Bytes) → length (build_header chunk_log2 salt) ≡ 12 + length salt
unfolding build_header sealed_file_magic as_bytes encode
length-build_header chunk_log2 salt = omega arith

pub drop-build_header :
    (chunk_log2 : ℕ) (salt : Bytes) → drop 12 (build_header chunk_log2 salt) ≡ salt
unfolding build_header sealed_file_magic as_bytes encode
drop-build_header chunk_log2 salt = refl

pub header_fields-build_header :
    (chunk_log2 : ℕ) (salt : Bytes)
    → 10 ≤ chunk_log2
    → chunk_log2 ≤ 20
    → header_fields (strip (build_header chunk_log2 salt) sealed_file_magic) ≡ ok chunk_log2
unfolding build_header header_fields begins
header_fields-build_header chunk_log2 salt a b =
    rw (strip_append sealed_file_magic (chunk_log2 ∷ 0 ∷ 0 ∷ 0 ∷ salt)) (ground arith)

module _ (x : Primitives) where
  -- The sizes that opening computes of it.
  pub measure-IsFile :
      (key header : Bytes) (size count : ℕ) (body plain : Bytes)
      → 0 < size
      → IsFile x key header size body plain count
      → measure size (length body) ≡ ok (count, length plain)
  measure-IsFile key header size count body plain p f =
      let n = length f.chunks in
      let len : length body ≡ n * (size + 16) + (length f.last + 16) = omega (
        arith,
        ap length f.bodied,
        length-append f.bytes f.tail,
        length-Fulls x key header size 0 f.chunks f.bytes f.layout,
        f.sized,
      ) in
      let text : n * size + length f.last ≡ length plain = omega (
        arith,
        ap length f.text,
        length-append (concat_chunks f.chunks) f.last,
        length-concat_chunks x key header size 0 f.chunks f.bytes f.layout,
      ) in
      rw len (measure_lem size n (length f.last) p f.small ∙ (rw (text, f.counted) refl))

module _ {x : Primitives} (law : IsLawful x) where
  -- What a finished file holds.
  pub finish-IsFile :
      (w : SealedFileWriter) (plain : Bytes) (done : FinishedFile)
      → IsWritten x w plain
      → finish x w ≡ ok done
      → (body : Bytes) × (count : ℕ) × (done.sink ≡ w.header ++ body)
        × IsFile x w.key w.header w.chunk_size body plain count
  unfolding finish seal_chunk
  finish-IsFile w plain done i h =
      elim (Option-cases (x.encrypt w.key (chunk_nonce w.next_index true) w.buffer w.header)) [
        | inl e ↦ absurd (ground (arith, e))
        | inr (sealed, e) ↦
            let opens = law.decrypt-encrypt w.key _ w.buffer w.header sealed e in
            let sink : done.sink ≡ w.sink ++ sealed = ground (arith, e) in
            (
              i.bytes ++ sealed,
              length i.chunks + 1,
              sink ∙ (rw i.sunk (append_assoc w.header i.bytes sealed)),
              record {
                chunks = i.chunks;
                bytes = i.bytes;
                tail = sealed;
                last = w.buffer;
                bodied = refl;
                layout = i.filled;
                ends = rw i.counted at opens;
                sized = law.length-encrypt w.key _ w.buffer w.header sealed e;
                small = i.roomy.1;
                text = i.text;
                counted = refl;
              },
            )
      ]
