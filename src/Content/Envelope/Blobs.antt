-- ===== src/Content/Envelope/Blobs.antt =====
-- What is sealed opens again (crates/core/crypto/src/content.rs): byte strings.
use ryu_rooms.Prelude.{
  ◌≤◌, ◌≡◌, refl, arith, Bool, false, some, ◌++◌, length, Option-cases, inl, inr,
}
use ryu_rooms.Result.{ok, err}
use ryu_rooms.Bytes.{Bytes}
use ryu_rooms.Bytes.Slices.{strip_append, begins_append}
use ryu_rooms.Seal.{ContentContext}
use ryu_rooms.Content.{
  Primitives, IsLawful, refused, already_a_ryu_envelope, content_bytes_magic, ryu_magics,
}
use ryu_rooms.Content.Keys.{ContentCipher, aad}
use ryu_rooms.Content.Envelope.{
  seal_with, open_blob, seal_bytes_with_nonce, open_bytes, is_ryu_envelope,
}
use ryu_rooms.Content.Envelope.Opening.{Opens, Opens-current, open_blob_lem, length_blob}

module _ {x : Primitives} (law : IsLawful x) where
  seal_bytes_ok :
      (c : ContentCipher) (plaintext : Bytes) (context : ContentContext) (nonce sealed : Bytes)
      → seal_bytes_with_nonce x c plaintext context nonce ≡ ok sealed
      → (ciphertext : Bytes) × (x.encrypt c.current.key nonce plaintext (aad c context)
          ≡ some ciphertext)
        × (sealed ≡ content_bytes_magic ++ (nonce ++ ciphertext))
  unfolding seal_bytes_with_nonce seal_with
  seal_bytes_ok c plaintext context nonce sealed h =
      elim (Option-cases (x.encrypt c.current.key nonce plaintext (aad c context))) [
        | inl e ↦ absurd (ground (arith, e))
        | inr (ciphertext, e) ↦ (ciphertext, e, ground (arith, e))
      ]

  open_bytes_ok :
      (o : ContentCipher) (plaintext : Bytes) (context : ContentContext) (blob : Bytes)
      (retired : Bool)
      → 28 ≤ length blob
      → open_blob x o blob context ≡ ok (plaintext, retired)
      → open_bytes x o (content_bytes_magic ++ blob) context
        ≡ ok (record { value = plaintext; needs_reseal = retired })
  unfolding open_bytes
  open_bytes_ok o plaintext context blob retired l h =
      rw (strip_append content_bytes_magic blob) (ground arith)

  -- The same for byte strings.
  pub open_bytes_of_Opens :
      (c o : ContentCipher) (plaintext : Bytes) (context : ContentContext) (nonce sealed : Bytes)
      (retired : Bool)
      → length nonce ≡ 12
      → c.store ≡ o.store
      → Opens law c.current o nonce plaintext (aad c context) retired
      → seal_bytes_with_nonce x c plaintext context nonce ≡ ok sealed
      → open_bytes x o sealed context ≡ ok (record { value = plaintext; needs_reseal = retired })
  unfolding aad
  open_bytes_of_Opens c o plaintext context nonce sealed retired l same opens h =
      let (ciphertext, e, f) = seal_bytes_ok c plaintext context nonce sealed h in
      rw f (
        open_bytes_ok o plaintext context (nonce ++ ciphertext) retired
          (omega (arith, length_blob law c.current.key nonce plaintext _ ciphertext l e))
          (open_blob_lem law o context nonce plaintext ciphertext retired l
            (simp (← same) (opens ciphertext e))))

  again_refused :
      (d : ContentCipher) (other : ContentContext) (again rest : Bytes)
      → seal_bytes_with_nonce x d (content_bytes_magic ++ rest) other again
        ≡ err (refused already_a_ryu_envelope)
  unfolding seal_bytes_with_nonce is_ryu_envelope ryu_magics
  again_refused d other again rest = rw (begins_append content_bytes_magic rest) refl

  -- What a cipher sealed under its current key into bytes, with a nonce of 12 bytes, it opens in the
  -- same context to the same bytes; and no cipher seals the envelope a second time: that is refused
  -- in every context, under every nonce.
  pub open_bytes-seal_bytes_with_nonce :
      (c : ContentCipher) (plaintext : Bytes) (context : ContentContext) (nonce sealed : Bytes)
      (d : ContentCipher) (other : ContentContext) (again : Bytes)
      → length nonce ≡ 12
      → seal_bytes_with_nonce x c plaintext context nonce ≡ ok sealed
      → (open_bytes x c sealed context ≡ ok (record { value = plaintext; needs_reseal = false }))
        × (seal_bytes_with_nonce x d sealed other again ≡ err (refused already_a_ryu_envelope))
  open_bytes-seal_bytes_with_nonce c plaintext context nonce sealed d other again l h =
      let (ciphertext, e, f) = seal_bytes_ok c plaintext context nonce sealed h in
      (
        open_bytes_of_Opens c c plaintext context nonce sealed false l refl
            (Opens-current law c nonce plaintext (aad c context)) h,
        rw f (again_refused d other again (nonce ++ ciphertext)),
      )
