-- ===== src/Content/Envelope/Opening.antt =====
-- What is sealed opens again (crates/core/crypto/src/content.rs): texts, under the current key,
-- and what byte strings share with them.
use Prim.Native.String.{◌++◌ as append}
use ryu_rooms.Prelude.{
  ◌+◌, ◌≤◌, ◌≡◌, refl, arith, String, Bool, false, some, ◌++◌, length, length-append, Option-cases,
  inl, inr,
}
use ryu_rooms.Result.{ok}
use ryu_rooms.Bytes.{Bytes}
use ryu_rooms.Bytes.Slices.{take_exact, drop_exact}
use ryu_rooms.Bytes.Utf8.{as_bytes}
use ryu_rooms.Bytes.Utf8.Decoding.{from_utf8-as_bytes}
use ryu_rooms.Seal.{ContentContext}
use ryu_rooms.Seal.StoreSeal.{content_text_prefix}
use ryu_rooms.Seal.StoreSeal.Opens.{strip_prefix-append}
use ryu_rooms.Content.{Primitives, IsLawful}
use ryu_rooms.Content.Keys.{ContentKey, ContentCipher, candidate_keys, aad}
use ryu_rooms.Content.Envelope.{seal_with, open_with, open_blob, seal_text_with_nonce, open_text}

module _ {x : Primitives} (law : IsLawful x) where
  -- How a cipher opens, with its candidate keys, what a key has sealed.
  abbrev pub Opens : ContentKey → ContentCipher → (nonce plaintext aad : Bytes) → Bool → Type 0
  Opens k c nonce plaintext aad retired =
      (ciphertext : Bytes)
      → x.encrypt k.key nonce plaintext aad ≡ some ciphertext
      → open_with x (candidate_keys c) nonce ciphertext aad ≡ ok (plaintext, retired)

  pub Opens-current :
      (c : ContentCipher) (nonce plaintext aad : Bytes)
      → Opens c.current c nonce plaintext aad false
  unfolding open_with candidate_keys
  Opens-current c nonce plaintext aad ciphertext h =
      rw (law.decrypt-encrypt c.current.key nonce plaintext aad ciphertext h) refl

  pub open_blob_lem :
      (c : ContentCipher) (context : ContentContext) (nonce plaintext ciphertext : Bytes)
      (retired : Bool)
      → length nonce ≡ 12
      → open_with x (candidate_keys c) nonce ciphertext (aad c context) ≡ ok (plaintext, retired)
      → open_blob x c (nonce ++ ciphertext) context ≡ ok (plaintext, retired)
  unfolding open_blob
  open_blob_lem c context nonce plaintext ciphertext retired l h =
      rw (take_exact nonce ciphertext l, drop_exact nonce ciphertext l) h

  pub length_blob :
      (key nonce plaintext aad ciphertext : Bytes)
      → length nonce ≡ 12
      → x.encrypt key nonce plaintext aad ≡ some ciphertext
      → length (nonce ++ ciphertext) ≡ length plaintext + 28
  length_blob key nonce plaintext aad ciphertext l h = omega (
    arith,
    length-append nonce ciphertext,
    law.length-encrypt key nonce plaintext aad ciphertext h,
  )

  pub seal_text_ok :
      (c : ContentCipher) (value : String) (context : ContentContext) (nonce : Bytes)
      (sealed : String)
      → seal_text_with_nonce x c value context nonce ≡ ok sealed
      → (ciphertext : Bytes) × (x.encrypt c.current.key nonce (as_bytes value) (aad c context)
          ≡ some ciphertext)
        × (sealed ≡ append content_text_prefix (x.b64_encode (nonce ++ ciphertext)))
  unfolding seal_text_with_nonce seal_with
  seal_text_ok c value context nonce sealed h =
      elim (Option-cases (x.encrypt c.current.key nonce (as_bytes value) (aad c context))) [
        | inl e ↦ absurd (ground (arith, e))
        | inr (ciphertext, e) ↦ (ciphertext, e, ground (arith, e))
      ]

  open_text_ok :
      (o : ContentCipher) (value : String) (context : ContentContext) (blob : Bytes)
      (retired : Bool)
      → 28 ≤ length blob
      → open_blob x o blob context ≡ ok (as_bytes value, retired)
      → open_text x o (append content_text_prefix (x.b64_encode blob)) context
        ≡ ok (record { value = value; needs_reseal = retired })
  unfolding open_text
  open_text_ok o value context blob retired l h =
      rw (strip_prefix-append content_text_prefix (x.b64_encode blob)) (
        ground
          (arith, law.trim-b64_encode blob, law.b64_decode-encode blob, from_utf8-as_bytes value))

  -- A cipher of the same store that opens what the key seals opens the text envelope.
  pub open_text_of_Opens :
      (c o : ContentCipher) (value : String) (context : ContentContext) (nonce : Bytes)
      (sealed : String) (retired : Bool)
      → length nonce ≡ 12
      → c.store ≡ o.store
      → Opens c.current o nonce (as_bytes value) (aad c context) retired
      → seal_text_with_nonce x c value context nonce ≡ ok sealed
      → open_text x o sealed context ≡ ok (record { value = value; needs_reseal = retired })
  unfolding aad
  open_text_of_Opens c o value context nonce sealed retired l same opens h =
      let (ciphertext, e, f) = seal_text_ok c value context nonce sealed h in
      rw f (
        open_text_ok o value context (nonce ++ ciphertext) retired
          (omega (arith, length_blob c.current.key nonce (as_bytes value) _ ciphertext l e))
          (open_blob_lem o context nonce (as_bytes value) ciphertext retired l
            (simp (← same) (opens ciphertext e))))

  -- What a cipher sealed under its current key into a text, with a nonce of 12 bytes, it opens in the
  -- same context to the same value, and the value need not be sealed again.
  pub open_text-seal_text_with_nonce :
      (c : ContentCipher) (value : String) (context : ContentContext) (nonce : Bytes)
      (sealed : String)
      → length nonce ≡ 12
      → seal_text_with_nonce x c value context nonce ≡ ok sealed
      → open_text x c sealed context ≡ ok (record { value = value; needs_reseal = false })
  open_text-seal_text_with_nonce c value context nonce sealed l h =
      open_text_of_Opens c c value context nonce sealed false l refl
        (Opens-current c nonce (as_bytes value) (aad c context)) h
