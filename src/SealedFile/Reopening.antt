-- ===== src/SealedFile/Reopening.antt =====
-- Opening a sealed file again and reading any range of it (crates/core/crypto/src/sealed_file.rs).
use ryu_rooms.Prelude.{
  ℕ, zero, suc, ◌+◌, ◌-◌, ◌^◌, ◌≤◌, ◌<◌, ◌≡◌, refl, sym, ap, ◌∙◌, arith, false, none, [], ◌∷◌, ◌++◌,
  length, length-append, take, leb, Bool-cases, ◌⊎◌, inl, inr,
}
use ryu_rooms.Result.{ok}
use ryu_rooms.Bytes.{Bytes, drop}
use ryu_rooms.Bytes.Slices.{take_exact, take_all, length-drop}
use ryu_rooms.Seal.{ContentContext}
use ryu_rooms.Content.{Primitives}
use ryu_rooms.Content.Context.{associated_data}
use ryu_rooms.Content.Keys.{ContentCipher, candidate_keys}
use ryu_rooms.SealedFile.{build_header, file_key, smaller}
use ryu_rooms.SealedFile.Reader.{SealedFileReader, load_chunk, try_keys, open_file, read_range}
use ryu_rooms.SealedFile.Written.{pos_pow}
use ryu_rooms.SealedFile.Loading.{IsFile}
use ryu_rooms.SealedFile.Chunks.{IsReading, cache_chunk, load_chunk_lem, cache_chunk-IsReading}
use ryu_rooms.SealedFile.Ranges.{range_loop_lem}
use ryu_rooms.SealedFile.Opening.{
  length-build_header, drop-build_header, header_fields-build_header, measure-IsFile,
}

take_empty : (n : ℕ) (xs : Bytes) → length xs ≡ 0 → take n xs ≡ []
take_empty zero xs h = refl
take_empty (suc n) [] h = refl
take_empty (suc n) (b ∷ xs) h = absurd (omega arith)

-- An empty range.
no_range :
    (start len : ℕ) (plain : Bytes)
    → (len ≡ 0) ⊎ (length plain ≤ start)
    → take len (drop start plain) ≡ []
no_range start len plain (inl h) = rw h refl
no_range start len plain (inr h) =
    take_empty len (drop start plain) (omega (arith, length-drop start plain))

-- A range that ends where it was asked to, or with the text.
whole_range :
    (n start len : ℕ) (plain : Bytes)
    → (n ≡ len) ⊎ ((n ≡ length plain - start) × (n ≤ len))
    → take n (drop start plain) ≡ take len (drop start plain)
whole_range n start len plain (inl h) = rw h refl
whole_range n start len plain (inr (h, b)) =
    take_all n (drop start plain) (omega (arith, length-drop start plain))
    ∙ sym (take_all len (drop start plain) (omega (arith, length-drop start plain)))

module _ (x : Primitives) where
  -- The reader of a file before a chunk is loaded.
  abbrev fresh :
      (inner key header : Bytes) (chunk_size chunk_count plaintext_len : ℕ) → SealedFileReader
  fresh inner key header chunk_size chunk_count plaintext_len = record {
    inner = inner;
    key = key;
    header = header;
    chunk_size = chunk_size;
    chunk_count = chunk_count;
    plaintext_len = plaintext_len;
    position = 0;
    cached = none;
    retired_key = false;
  }

  try_first :
      (c : ContentCipher) (r opened : SealedFileReader) (salt aad : Bytes)
      → load_chunk x
          (record r { key = file_key x c.current.key salt aad; retired_key = false })
          (r.chunk_count - 1)
        ≡ ok opened
      → try_keys x r salt aad (candidate_keys c) ≡ ok opened
  unfolding try_keys candidate_keys
  try_first c r opened salt aad h = ground (arith, h)

  -- The range that is asked for, of a plaintext whose length is a number of eight bytes.
  pub read_range_lem :
      (r : SealedFileReader) (plain : Bytes) (start len : ℕ)
      → IsReading x r plain
      → 0 < r.chunk_size
      → length plain < 18446744073709551616
      → (r' : SealedFileReader) × (read_range x r start len ≡ ok (r', take len (drop start plain)))
  unfolding read_range
  read_range_lem r plain start len i p b =
      let end = smaller (smaller (start + len) 18446744073709551615) r.plaintext_len in
      elim (Bool-cases (leb end start)) [
        | inl h ↦
            let empty : take len (drop start plain) ≡ [] =
              no_range start len plain (ground (arith, i.len)) in
            (r, rw (h, empty) refl)
        | inr h ↦
            let (r', f, _) =
              range_loop_lem x (suc (end - start)) r plain end start [] i p (ground (arith, i.len))
                (omega arith) in
            let part : take (end - start) (drop start plain) ≡ take len (drop start plain) =
              whole_range (end - start) start len plain (ground (arith, i.len)) in
            (r', rw h (f ∙ ap (λ (t : Bytes). ok (r', t)) part))
      ]

  -- Opening a file with a header of its own and whole chunks.
  pub open_IsFile :
      (c : ContentCipher) (context : ContentContext) (chunk_log2 : ℕ) (salt key body plain : Bytes)
      (count : ℕ)
      → length salt ≡ 20
      → 10 ≤ chunk_log2
      → chunk_log2 ≤ 20
      → key ≡ file_key x c.current.key salt (associated_data context c.store)
      → IsFile x key (build_header chunk_log2 salt) (2 ^ chunk_log2) body plain count
      → (r : SealedFileReader) × (open_file x (build_header chunk_log2 salt ++ body) c context
          ≡ ok r)
        × (r.plaintext_len ≡ length plain)
        × (r.retired_key ≡ false)
        × (r.chunk_size ≡ 2 ^ chunk_log2)
        × IsReading x r plain
  unfolding open_file
  open_IsFile c context chunk_log2 salt key body plain count ls a b k f =
      let header = build_header chunk_log2 salt in
      let size = 2 ^ chunk_log2 in
      let p = pos_pow chunk_log2 in
      let head : length header ≡ 32 = omega (arith, length-build_header chunk_log2 salt, ls) in
      let whole = length-append header body in
      let long : 16 ≤ length body =
        omega (arith, ap length f.bodied, length-append f.bytes f.tail, f.sized) in
      let rest : length (header ++ body) - 32 ≡ length body = omega (arith, whole, head) in
      let fields = header_fields-build_header chunk_log2 salt a b in
      let sizes = measure-IsFile x key header size count body plain p f in
      let r = fresh (header ++ body) key header size count (length plain) in
      let reading : IsReading x r plain = record {
        body = body;
        inner = refl;
        head = head;
        file = f;
        len = refl;
        cache = tt;
      } in
      let loaded = load_chunk_lem x r plain (count - 1) reading (omega (arith, f.counted)) in
      let aad = associated_data context c.store in
      let r0 = fresh (header ++ body) [] header size count (length plain) in
      let first = try_first c r0 (cache_chunk r (count - 1) plain) salt aad (rw (sym k) loaded) in
      (
        cache_chunk r (count - 1) plain,
        rw
            (
              take_exact header body head,
              fields,
              rest,
              sizes,
              drop-build_header chunk_log2 salt,
              first,
            )
            (ground (arith, whole, f.counted)),
        unfold cache_chunk in refl,
        unfold cache_chunk in refl,
        unfold cache_chunk in refl,
        cache_chunk-IsReading x r plain (count - 1) reading,
      )
