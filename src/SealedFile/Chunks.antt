-- ===== src/SealedFile/Chunks.antt =====
-- A reader of a sealed file, and the chunks that it loads (crates/core/crypto/src/sealed_file.rs).
use native.Mathlib.Decide.{dec_lt}
use native.Mathlib.Nat.{suc-mul, mul-le-mul_right}
use ryu_rooms.Prelude.{
  ℕ, suc, ◌+◌, ◌-◌, ◌*◌, ◌≤◌, ◌<◌, ◌≡◌, refl, sym, ap, ◌∙◌, arith, true, false, Option, some, none,
  ◌++◌, length, length-append, take, eqb, leb, if◌then◌else◌, Bool-cases, Option-cases, inl, inr,
}
use ryu_rooms.Result.{ok}
use ryu_rooms.Bytes.{Bytes, drop}
use ryu_rooms.Bytes.Slices.{drop_exact, take-length, take_all}
use ryu_rooms.Content.{Primitives}
use ryu_rooms.SealedFile.{chunk_nonce}
use ryu_rooms.SealedFile.Reader.{SealedFileReader, load_chunk, read_exact, is_cached}
use ryu_rooms.SealedFile.Layout.{length-Fulls, concat_chunks, length-concat_chunks}
use ryu_rooms.SealedFile.Loading.{IsFile, chunk_at, drop-append, full_chunk}

-- What is cached is the chunk of its index.
abbrev pub IsCache : ℕ → Bytes → Option (ℕ × Bytes) → Type 0
IsCache size plain none = Unit
IsCache size plain (some (i, chunk)) = chunk ≡ chunk_at size i plain

pub record IsReading (x : Primitives) (r : SealedFileReader) (plain : Bytes) : Type 0 where
  pub body : Bytes
  pub inner : r.inner ≡ r.header ++ body
  pub head : length r.header ≡ 32
  pub file : IsFile x r.key r.header r.chunk_size body plain r.chunk_count
  pub len : r.plaintext_len ≡ length plain
  pub cache : IsCache r.chunk_size plain r.cached

unfoldable pub cache_chunk : SealedFileReader → ℕ → Bytes → SealedFileReader
cache_chunk r index plain = record r { cached = some (index, chunk_at r.chunk_size index plain) }

read_exact_ok :
    (header body : Bytes) (m len : ℕ)
    → length header ≡ 32
    → m + len ≤ length body
    → read_exact (header ++ body) (32 + m) len ≡ some (take len (drop m body))
unfolding read_exact
read_exact_ok header body m len h b =
    let e : 32 + m ≡ length header + m = omega (arith, h) in
    rw (e, drop-append m header body) (ground (arith, length-append header body))

module _ (x : Primitives) (key header : Bytes) (size : ℕ) where
  early_chunk :
      (body plain : Bytes) (count index : ℕ) (f : IsFile x key header size body plain count)
      → length header ≡ 32
      → index < length f.chunks
      → (sealed : Bytes) × (read_exact (header ++ body) (32 + index * (size + 16)) (size + 16)
          ≡ some sealed)
        × (x.decrypt key (chunk_nonce index false) sealed header ≡ some (chunk_at size index plain))
  early_chunk body plain count index f head b =
      let d = size + 16 in
      let opens = full_chunk x key header size 0 index f.chunks f.bytes f.tail f.last f.layout b in
      let here : 0 + index ≡ index = omega arith in
      let below : suc index * d ≤ length f.chunks * d = mul-le-mul_right d (omega arith) in
      (
        take d (drop (index * d) (f.bytes ++ f.tail)),
        ap (λ (t : Bytes). read_exact (header ++ t) (32 + index * d) d) f.bodied
            ∙ read_exact_ok header (f.bytes ++ f.tail) (index * d) d head (
                omega (
                  arith,
                  below,
                  suc-mul index d,
                  length-Fulls x key header size 0 f.chunks f.bytes f.layout,
                  length-append f.bytes f.tail,
                )),
        (rw here at opens) ∙ ap (λ (t : Bytes). some (chunk_at size index t)) (sym f.text),
      )

  last_chunk :
      (body plain : Bytes) (count : ℕ) (f : IsFile x key header size body plain count)
      → length header ≡ 32
      → (read_exact
            (header ++ body)
            (32 + length f.chunks * (size + 16))
            (length plain - length f.chunks * size + 16)
          ≡ some f.tail)
        × (chunk_at size (length f.chunks) plain ≡ f.last)
  last_chunk body plain count f head =
      let n = length f.chunks in
      let d = size + 16 in
      let sealed_size = length-Fulls x key header size 0 f.chunks f.bytes f.layout in
      let text_size = length-concat_chunks x key header size 0 f.chunks f.bytes f.layout in
      let len : length plain - n * size + 16 ≡ length f.tail = omega (
        arith,
        ap length f.text,
        length-append (concat_chunks f.chunks) f.last,
        text_size,
        f.sized,
      ) in
      (
        ap (λ (t : Bytes). read_exact (header ++ t) (32 + n * d) (length plain - n * size + 16))
              f.bodied
            ∙ ap (read_exact (header ++ (f.bytes ++ f.tail)) (32 + n * d)) len
            ∙ read_exact_ok header (f.bytes ++ f.tail) (n * d) (length f.tail) head
                (omega (arith, sealed_size, length-append f.bytes f.tail))
            ∙ (rw (drop_exact f.bytes f.tail sealed_size, take-length f.tail) refl),
        ap (chunk_at size n) f.text
            ∙ (rw (drop_exact (concat_chunks f.chunks) f.last text_size)
                (take_all size f.last f.small)),
      )

  -- The sealed bytes of each chunk are in the file, at its place and of the length that is read, and
  -- open to the chunk.
  pub chunk_opens :
      (body plain : Bytes) (count index : ℕ) (f : IsFile x key header size body plain count)
      → length header ≡ 32
      → index < count
      → (sealed : Bytes) × (read_exact
            (header ++ body)
            (32 + index * (size + 16))
            (if eqb (index + 1) count then length plain - index * size + 16 else size + 16)
          ≡ some sealed)
        × (x.decrypt key (chunk_nonce index (eqb (index + 1) count)) sealed header
            ≡ some (chunk_at size index plain))
  chunk_opens body plain count index f head b = elim (dec_lt index (length f.chunks)) [
    | yes h ↦
        let early : eqb (index + 1) count ≡ false = ground (arith, f.counted) in
        rw early (early_chunk body plain count index f head h)
    | no h ↦
        let final : eqb (index + 1) count ≡ true = ground (arith, f.counted) in
        let same : index ≡ length f.chunks = omega (arith, f.counted) in
        let (reads, text) = last_chunk body plain count f head in
        rw (final, same) (f.tail, reads, f.ends ∙ ap some (sym text))
  ]

module _ (x : Primitives) where
  load_cached :
      (r : SealedFileReader) (plain : Bytes) (index : ℕ)
      → IsCache r.chunk_size plain r.cached
      → is_cached r.cached index ≡ true
      → r ≡ cache_chunk r index plain
  unfolding cache_chunk
  load_cached r plain index i h = elim (Option-cases r.cached) [
    | inl e ↦ absurd (ground (arith, e))
    | inr ((k, chunk), e) ↦ ground (arith, e)
  ]

  load_hit :
      (r : SealedFileReader) (index : ℕ)
      → is_cached r.cached index ≡ true
      → load_chunk x r index ≡ ok r
  unfolding load_chunk
  load_hit r index h = rw h refl

  load_miss :
      (r : SealedFileReader) (plain : Bytes) (index : ℕ) (sealed : Bytes)
      → is_cached r.cached index ≡ false
      → index < r.chunk_count
      → read_exact r.inner (32 + index * (r.chunk_size + 16)) (
          if eqb (index + 1) r.chunk_count
          then r.plaintext_len - index * r.chunk_size + 16
          else r.chunk_size + 16)
        ≡ some sealed
      → x.decrypt r.key (chunk_nonce index (eqb (index + 1) r.chunk_count)) sealed r.header
        ≡ some (chunk_at r.chunk_size index plain)
      → load_chunk x r index ≡ ok (cache_chunk r index plain)
  unfolding load_chunk cache_chunk
  load_miss r plain index sealed h b e d =
      let inside : leb r.chunk_count index ≡ false = ground arith in rw (h, inside, e, d) refl

  pub load_chunk_lem :
      (r : SealedFileReader) (plain : Bytes) (index : ℕ)
      → IsReading x r plain
      → index < r.chunk_count
      → load_chunk x r index ≡ ok (cache_chunk r index plain)
  load_chunk_lem r plain index i b = elim (Bool-cases (is_cached r.cached index)) [
    | inl h ↦ load_hit r index h ∙ ap ok (load_cached r plain index i.cache h)
    | inr h ↦
        let (sealed, e, d) =
          chunk_opens x r.key r.header r.chunk_size i.body plain r.chunk_count index i.file i.head
            b in
        load_miss r plain index sealed h b (rw (i.inner, i.len) e) d
  ]

  pub cache_chunk-IsReading :
      (r : SealedFileReader) (plain : Bytes) (index : ℕ)
      → IsReading x r plain
      → IsReading x (cache_chunk r index plain) plain
  unfolding cache_chunk
  cache_chunk-IsReading r plain index i = record {
    body = i.body;
    inner = i.inner;
    head = i.head;
    file = i.file;
    len = i.len;
    cache = refl;
  }
