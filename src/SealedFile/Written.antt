-- ===== src/SealedFile/Written.antt =====
-- What a writer of a sealed file has written (crates/core/crypto/src/sealed_file.rs).
use mathlib.Core.List.{append-nil, append_assoc}
use native.Mathlib.Nat.{one-le-pow}
use ryu_rooms.Prelude.{
  ℕ, ◌+◌, ◌^◌, ◌≤◌, ◌<◌, ◌≡◌, refl, sym, ap, ◌∙◌, subst, arith, false, some, List, [], ◌∷◌, ◌++◌,
  length, length-append, Option-cases, Bool-cases, inl, inr, eqb,
}
use ryu_rooms.Result.{ok, Result-cases}
use ryu_rooms.Bytes.{Bytes}
use ryu_rooms.Seal.{ContentContext}
use ryu_rooms.Content.{Primitives, IsLawful}
use ryu_rooms.Content.Context.{associated_data}
use ryu_rooms.Content.Keys.{ContentCipher}
use ryu_rooms.SealedFile.{
  SealedFileWriter, with_params, build_header, file_key, seal_chunk, make_room, write_plain,
  chunk_nonce,
}
use ryu_rooms.SealedFile.Pieces.{IsRoomy, put, push_bytes}
use ryu_rooms.SealedFile.Joins.{stamp, write_plain-push_bytes}
use ryu_rooms.SealedFile.Layout.{Fulls, Fulls-snoc, concat_chunks}

pub pos_pow : (n : ℕ) → 0 < 2 ^ n
pos_pow n = omega (arith, one-le-pow n 2)

-- The writer has written this plaintext: some full chunks, and then its buffer.
pub record IsWritten (x : Primitives) (w : SealedFileWriter) (plain : Bytes) : Type 0 where
  pub chunks : List Bytes
  pub bytes : Bytes
  pub roomy : IsRoomy w
  pub sunk : w.sink ≡ w.header ++ bytes
  pub counted : w.next_index ≡ length chunks
  pub filled : Fulls x w.key w.header w.chunk_size 0 chunks bytes
  pub text : plain ≡ concat_chunks chunks ++ w.buffer

concat_chunks-append :
    (cs ds : List Bytes) → concat_chunks (cs ++ ds) ≡ concat_chunks cs ++ concat_chunks ds
unfolding concat_chunks
concat_chunks-append [] ds = refl
concat_chunks-append (c ∷ cs) ds =
    ap (λ (r : Bytes). c ++ r) (concat_chunks-append cs ds)
    ∙ sym (append_assoc c (concat_chunks cs) (concat_chunks ds))

concat_chunks-one : (c : Bytes) → concat_chunks (c ∷ []) ≡ c
unfolding concat_chunks
concat_chunks-one c = append-nil c

nothing : {b : Bytes} → b ≡ [] → [] ≡ concat_chunks [] ++ b
unfolding concat_chunks
nothing h = sym h

module _ {x : Primitives} (law : IsLawful x) where
  seal_chunk_ok :
      (w v : SealedFileWriter)
      → seal_chunk x w false ≡ ok v
      → (sealed : Bytes) × (x.encrypt w.key (chunk_nonce w.next_index false) w.buffer w.header
          ≡ some sealed)
        × (v ≡ record w { sink = w.sink ++ sealed; next_index = w.next_index + 1; buffer = [] })
  unfolding seal_chunk
  seal_chunk_ok w v h =
      elim (Option-cases (x.encrypt w.key (chunk_nonce w.next_index false) w.buffer w.header)) [
        | inl e ↦ absurd (ground (arith, e))
        | inr (sealed, e) ↦ (sealed, e, ground (arith, e))
      ]

  seal_chunk-IsWritten :
      (w v : SealedFileWriter) (plain : Bytes)
      → length w.buffer ≡ w.chunk_size
      → IsWritten x w plain
      → seal_chunk x w false ≡ ok v
      → IsWritten x v plain
  seal_chunk-IsWritten w v plain full i h =
      let (sealed, e, f) = seal_chunk_ok w v h in
      let opens = law.decrypt-encrypt w.key _ w.buffer w.header sealed e in
      let size = law.length-encrypt w.key _ w.buffer w.header sealed e in
      let counted : w.next_index ≡ 0 + length i.chunks = omega (arith, i.counted) in
      rw f record {
        chunks = i.chunks ++ w.buffer ∷ [];
        bytes = i.bytes ++ sealed;
        roomy = omega (arith, i.roomy);
        sunk = rw i.sunk (append_assoc w.header i.bytes sealed);
        counted = omega (arith, i.counted, length-append i.chunks (w.buffer ∷ []));
        filled =
            Fulls-snoc x w.key w.header w.chunk_size 0 i.chunks i.bytes w.buffer sealed full
              (omega (arith, size, full)) (rw counted at opens) i.filled;
        text =
            i.text
            ∙ (rw (concat_chunks-append i.chunks (w.buffer ∷ []), concat_chunks-one w.buffer)
                (sym (append-nil _)));
      }

  make_room-IsWritten :
      (w v : SealedFileWriter) (plain : Bytes)
      → IsWritten x w plain
      → make_room x w ≡ ok v
      → IsWritten x v plain × (length v.buffer < v.chunk_size)
  unfolding make_room
  make_room-IsWritten w v plain i h = elim (Bool-cases (eqb (length w.buffer) w.chunk_size)) [
    | inl e ↦
        let sealed : seal_chunk x w false ≡ ok v = rw e at h in
        let full : length w.buffer ≡ w.chunk_size = ground arith in
        let (_, _, f) = seal_chunk_ok w v sealed in
        (seal_chunk-IsWritten w v plain full i sealed, rw f (omega (arith, i.roomy)))
    | inr e ↦
        let same : w ≡ v = ground (arith, e) in
        let room : length w.buffer < w.chunk_size = ground (arith, i.roomy) in
        (
          subst (λ u. IsWritten x u plain) same i,
          subst (λ u. length u.buffer < u.chunk_size) same room,
        )
  ]

  put-IsWritten :
      (w : SealedFileWriter) (plain : Bytes) (b : ℕ)
      → IsWritten x w plain
      → length w.buffer < w.chunk_size
      → IsWritten x (put w (b ∷ [])) (plain ++ b ∷ [])
  unfolding put
  put-IsWritten w plain b i room = record {
    chunks = i.chunks;
    bytes = i.bytes;
    roomy = omega (arith, i.roomy, length-append w.buffer (b ∷ []));
    sunk = i.sunk;
    counted = i.counted;
    filled = i.filled;
    text = rw i.text (append_assoc (concat_chunks i.chunks) w.buffer (b ∷ []));
  }

  push_bytes-IsWritten :
      (w v : SealedFileWriter) (plain bs : Bytes)
      → IsWritten x w plain
      → push_bytes x w bs ≡ ok v
      → IsWritten x v (plain ++ bs)
  unfolding push_bytes
  push_bytes-IsWritten w v plain [] i h =
      let same : w ≡ v = cc in rw (append-nil plain) (subst (λ u. IsWritten x u plain) same i)
  push_bytes-IsWritten w v plain (b ∷ bs) i h = elim (Result-cases (make_room x w)) [
    | inl (r, e) ↦
        let (j, room) = make_room-IsWritten w r plain i e in
        rw (← append_assoc plain (b ∷ []) bs) (
          push_bytes-IsWritten (put r (b ∷ [])) v (plain ++ b ∷ []) bs
            (put-IsWritten r plain b j room) (rw e at h))
    | inr (e', e) ↦ absurd (ground (arith, e))
  ]

  stamp-IsWritten :
      (w : SealedFileWriter) (plain more : Bytes)
      → IsWritten x w plain
      → IsWritten x (stamp w more) plain
  unfolding stamp
  stamp-IsWritten w plain more i = record {
    chunks = i.chunks;
    bytes = i.bytes;
    roomy = i.roomy;
    sunk = i.sunk;
    counted = i.counted;
    filled = i.filled;
    text = i.text;
  }

  pub write_plain-IsWritten :
      (w v : SealedFileWriter) (plain more : Bytes)
      → IsWritten x w plain
      → write_plain x w more ≡ ok v
      → IsWritten x v (plain ++ more)
  write_plain-IsWritten w v plain more i h =
      push_bytes-IsWritten (stamp w more) v plain more (stamp-IsWritten w plain more i)
        (sym (write_plain-push_bytes x w more i.roomy) ∙ h)

  pub with_params-IsWritten :
      (c : ContentCipher) (context : ContentContext) (chunk_log2 : ℕ) (salt : Bytes)
      (w : SealedFileWriter)
      → with_params x c context chunk_log2 salt ≡ ok w
      → IsWritten x w []
        × (10 ≤ chunk_log2)
        × (chunk_log2 ≤ 20)
        × (w.chunk_size ≡ 2 ^ chunk_log2)
        × (w.header ≡ build_header chunk_log2 salt)
        × (w.key ≡ file_key x c.current.key salt (associated_data context c.store))
  unfolding with_params
  with_params-IsWritten c context chunk_log2 salt w h = (
    record {
      chunks = [];
      bytes = [];
      roomy = (ground (arith, pos_pow chunk_log2), ground (arith, pos_pow chunk_log2));
      sunk = ground (arith, append-nil (build_header chunk_log2 salt));
      counted = ground arith;
      filled = refl;
      text = nothing (ground arith);
    },
    ground arith,
    ground arith,
    ground arith,
    ground arith,
    ground arith,
  )
