-- ===== src/SealedFile/Joins.antt =====
-- Writing in pieces and at once (crates/core/crypto/src/sealed_file.rs).
use mathlib.Core.List.{append_assoc}
use ryu_rooms.Prelude.{
  suc, ◌+◌, ◌≡◌, refl, sym, ap, ◌∙◌, arith, false, [], ◌∷◌, ◌++◌, length, length-append,
  Option-cases, inl, inr,
}
use ryu_rooms.Result.{Result, ok, err, ◌>>=◌, Result-cases}
use ryu_rooms.Bytes.{Bytes}
use ryu_rooms.Content.{Primitives, Error}
use ryu_rooms.SealedFile.{SealedFileWriter, seal_chunk, make_room, write_plain, chunk_nonce}
use ryu_rooms.SealedFile.Pieces.{
  IsRoomy, put, push_bytes, push_bytes-append, push_bytes-IsRoomy, write_loop-push_bytes,
}

-- What `write_plain` notes of the bytes before it writes them.
unfoldable pub stamp : SealedFileWriter → Bytes → SealedFileWriter
stamp w plain = record w {
  hashed = w.hashed ++ plain;
  plaintext_len = w.plaintext_len + length plain;
}

stamp-append : (w : SealedFileWriter) (xs ys : Bytes) → stamp w (xs ++ ys) ≡ stamp (stamp w xs) ys
unfolding stamp
stamp-append w xs ys =
    let sum : w.plaintext_len + length (xs ++ ys) ≡ w.plaintext_len + length xs + length ys =
      omega (arith, length-append xs ys) in
    rw (sum, append_assoc w.hashed xs ys) refl

put-stamp :
    (w : SealedFileWriter) (plain bs : Bytes) → put (stamp w plain) bs ≡ stamp (put w bs) plain
unfolding put stamp
put-stamp w plain bs = refl

stamp-IsRoomy : (w : SealedFileWriter) (plain : Bytes) → IsRoomy w → IsRoomy (stamp w plain)
unfolding stamp
stamp-IsRoomy w plain i = i

module _ (x : Primitives) where
  make_room-stamp :
      (w : SealedFileWriter) (plain : Bytes)
      → make_room x (stamp w plain) ≡ (make_room x w >>= λ v. ok (stamp v plain))
  unfolding make_room seal_chunk stamp
  make_room-stamp w plain =
      elim (Option-cases (x.encrypt w.key (chunk_nonce w.next_index false) w.buffer w.header)) [
        | inl e ↦ ground (arith, e)
        | inr (sealed, e) ↦ ground (arith, e)
      ]

  push_bytes-stamp :
      (w : SealedFileWriter) (plain bs : Bytes)
      → push_bytes x (stamp w plain) bs ≡ (push_bytes x w bs >>= λ v. ok (stamp v plain))
  unfolding push_bytes
  push_bytes-stamp w plain [] = refl
  push_bytes-stamp w plain (b ∷ bs) = elim (Result-cases (make_room x w)) [
    | inl (r, e) ↦
        rw (make_room-stamp w plain, e, put-stamp r plain (b ∷ []))
          (push_bytes-stamp (put r (b ∷ [])) plain bs)
    | inr (e', e) ↦ rw (make_room-stamp w plain, e) refl
  ]

  -- Writing is what the writer of single bytes does with the bytes, after they are noted.
  pub write_plain-push_bytes :
      (w : SealedFileWriter) (plain : Bytes)
      → IsRoomy w
      → write_plain x w plain ≡ push_bytes x (stamp w plain) plain
  unfolding write_plain stamp
  write_plain-push_bytes w plain i =
      write_loop-push_bytes x (suc (length plain)) (stamp w plain) plain (omega arith) i

  then_write :
      (ys : Bytes) (r : Result Error SealedFileWriter)
      → ((v : SealedFileWriter) → r ≡ ok v → IsRoomy v)
      → (r >>= (λ v. ok (stamp v ys)) >>= λ v. push_bytes x v ys) ≡ (r >>= λ v. write_plain x v ys)
  then_write ys (ok v) i = sym (write_plain-push_bytes v ys (i v refl))
  then_write ys (err e) i = refl

  -- A writer whose chunks are not empty and whose buffer is no longer than a chunk does with some bytes
  -- what the writer of single bytes does with them one after the other, once they are noted, so that
  -- it never runs out of its fuel; and it ends in the same state, or in the same error, when they are
  -- given to it in two pieces: the same file so far, the same buffer, the same index, and the same
  -- length and hash of the plaintext.
  pub write_plain-append :
      (w : SealedFileWriter) (xs ys : Bytes)
      → IsRoomy w
      → (write_plain x w (xs ++ ys) ≡ push_bytes x (stamp w (xs ++ ys)) (xs ++ ys))
        × (write_plain x w (xs ++ ys) ≡ (write_plain x w xs >>= λ v. write_plain x v ys))
  write_plain-append w xs ys i = (
    write_plain-push_bytes w (xs ++ ys) i,
    write_plain-push_bytes w (xs ++ ys) i
        ∙ ap (λ v. push_bytes x v (xs ++ ys)) (stamp-append w xs ys)
        ∙ push_bytes-append x (stamp (stamp w xs) ys) xs ys
        ∙ rw (push_bytes-stamp (stamp w xs) ys xs, write_plain-push_bytes w xs i)
            (then_write ys (push_bytes x (stamp w xs) xs)
              (λ v h. push_bytes-IsRoomy x (stamp w xs) v xs (stamp-IsRoomy w xs i) h)),
  )

-- Two writers of one file under one key, of which one may have gone on writing.
abbrev pub SameFile : SealedFileWriter → SealedFileWriter → Type 0
SameFile w v =
    (v.key ≡ w.key)
    × (v.header ≡ w.header)
    × (v.chunk_size ≡ w.chunk_size)
    × (v.plaintext_len ≡ w.plaintext_len)
    × (v.hashed ≡ w.hashed)

module _ (x : Primitives) where
  make_room-SameFile : (w v : SealedFileWriter) → make_room x w ≡ ok v → SameFile w v
  unfolding make_room seal_chunk
  make_room-SameFile w v h =
      elim (Option-cases (x.encrypt w.key (chunk_nonce w.next_index false) w.buffer w.header)) [
        | inl e ↦ ground (arith, e)
        | inr (sealed, e) ↦ ground (arith, e)
      ]

  push_bytes-SameFile :
      (w v : SealedFileWriter) (bs : Bytes) → push_bytes x w bs ≡ ok v → SameFile w v
  unfolding push_bytes put
  push_bytes-SameFile w v [] h = ground arith
  push_bytes-SameFile w v (b ∷ bs) h = elim (Result-cases (make_room x w)) [
    | inl (r, e) ↦
        let (k, d, s, p, n) = make_room-SameFile w r e in
        let (k', d', s', p', n') = push_bytes-SameFile (put r (b ∷ [])) v bs (rw e at h) in
        (k' ∙ k, d' ∙ d, s' ∙ s, p' ∙ p, n' ∙ n)
    | inr (e', e) ↦ absurd (ground (arith, e))
  ]

  pub write_plain-SameFile :
      (w v : SealedFileWriter) (plain : Bytes)
      → IsRoomy w
      → write_plain x w plain ≡ ok v
      → SameFile (stamp w plain) v
  write_plain-SameFile w v plain i h =
      push_bytes-SameFile (stamp w plain) v plain (sym (write_plain-push_bytes x w plain i) ∙ h)
