-- ===== src/Content/Envelope.antt =====
-- Sealing and opening one value (crates/core/crypto/src/content.rs): the envelopes of texts and of
-- byte strings.
pub mod Opening
pub mod Blobs
pub mod Rotated
pub mod ForStore
use Prim.Native.String.{◌++◌ as append}
use ryu_rooms.Prelude.{
  ℕ, zero, suc, ◌+◌, String, Bool, true, false, not, ◌&&◌, ◌||◌, Option, none, some, List, [], ◌∷◌,
  ◌++◌, ◌==◌, length, take, ltb, leb, eqb, if◌then◌else◌,
}
use ryu_rooms.Result.{Result, ok, err, ◌>>=◌, ◌>>◌, reject, ok_or}
use ryu_rooms.Text.{trim, starts_with}
use ryu_rooms.Bytes.{Bytes, drop, strip, begins}
use ryu_rooms.Bytes.Utf8.{as_bytes, from_utf8}
use ryu_rooms.Seal.{ContentContext}
use ryu_rooms.Seal.StoreSeal.{content_text_prefix, strip_prefix}
use ryu_rooms.Content.{
  Primitives, Error, refused, message, unknown_version, does_not_open, malformed,
  already_a_ryu_envelope, nonce_len, tag_len, content_text_family, content_bytes_magic, ryu_magics,
}
use ryu_rooms.Content.Keys.{ContentKey, ContentCipher, candidate_keys, aad}

pub record Opened : Type 0 where
  pub value : String
  pub needs_reseal : Bool

pub record OpenedBytes : Type 0 where
  pub value : Bytes
  pub needs_reseal : Bool

is_ascii_digit : ℕ → Bool
is_ascii_digit b = leb 0x30 b && leb b 0x39

is_ascii_uppercase : ℕ → Bool
is_ascii_uppercase b = leb 0x41 b && leb b 0x5a

-- A colon right after the digits, of which there were some.
colon_after_digits : Bool → Bytes → Bool
colon_after_digits some_digit [] = false
colon_after_digits some_digit (b ∷ bs) =
    let later = colon_after_digits true bs in
    if is_ascii_digit b then later else some_digit && eqb b 0x3a

abbrev of_version : Option String → Bool
unfolding colon_after_digits is_ascii_digit
of_version none = false
of_version (some rest) = colon_after_digits false (as_bytes rest)

unfoldable pub is_versioned_family : String → Bool
unfolding colon_after_digits is_ascii_digit
is_versioned_family stored = of_version (strip_prefix stored (append content_text_family "v"))

unfoldable pub looks_like_ryu_magic : Bytes → Bool
unfolding is_ascii_digit is_ascii_uppercase
looks_like_ryu_magic (_ ∷ _ ∷ _ ∷ _ ∷ a ∷ b ∷ c ∷ d ∷ []) =
    is_ascii_uppercase a && is_ascii_uppercase b && is_ascii_digit c && is_ascii_digit d
looks_like_ryu_magic _ = false

unfoldable pub is_sealed_text : String → Bool
is_sealed_text stored = starts_with stored content_text_prefix

unfoldable pub is_sealed_bytes : Bytes → Bool
is_sealed_bytes stored = begins stored content_bytes_magic

unfoldable pub is_ryu_envelope : Bytes → List Bytes → Bool
is_ryu_envelope plaintext [] = false
is_ryu_envelope plaintext (magic ∷ magics) =
    begins plaintext magic || is_ryu_envelope plaintext magics

module _ (x : Primitives) where
  unfoldable pub seal_with : ContentKey → (nonce plaintext associated : Bytes) → Result Error Bytes
  seal_with k nonce plaintext associated =
      ok_or (x.encrypt k.key nonce plaintext associated) (message "content encryption failed")

  unfoldable pub open_with :
      List (ContentKey × Bool) → (nonce ciphertext associated : Bytes) → Result Error (Bytes × Bool)
  open_with [] nonce ciphertext associated = err (refused does_not_open)
  open_with ((k, retired) ∷ keys) nonce ciphertext associated =
      elim (x.decrypt k.key nonce ciphertext associated) [
        | some plain ↦ ok (plain, retired)
        | none ↦ open_with keys nonce ciphertext associated
      ]

  unfoldable pub open_blob : ContentCipher → Bytes → ContentContext → Result Error (Bytes × Bool)
  open_blob c blob context =
      open_with (candidate_keys c) (take nonce_len blob) (drop nonce_len blob) (aad c context)

  unfoldable pub seal_text_with_nonce :
      ContentCipher → String → ContentContext → Bytes → Result Error String
  seal_text_with_nonce c plaintext context nonce = do
    ciphertext ← seal_with c.current nonce (as_bytes plaintext) (aad c context)
    ok (append content_text_prefix (x.b64_encode (nonce ++ ciphertext)))

  unfoldable pub seal_text : ContentCipher → ℕ → String → ContentContext → Result Error String
  seal_text c draw plaintext context =
      seal_text_with_nonce c plaintext context (x.fill_bytes draw nonce_len)

  abbrev pub open_encoded :
      ContentCipher → String → ContentContext → Option String → Result Error Opened
  open_encoded c stored context none =
      if starts_with stored content_text_family && is_versioned_family stored
      then err (refused unknown_version)
      else ok (record { value = stored; needs_reseal = not (stored == "") })
  open_encoded c stored context (some encoded) = do
    blob ← ok_or (x.b64_decode (trim encoded)) (refused malformed)
    reject (ltb (length blob) (nonce_len + tag_len)) (refused malformed)
    opened ← open_blob c blob context
    value ← ok_or (from_utf8 opened.0) (refused malformed)
    ok (record { value = value; needs_reseal = opened.1 })

  unfoldable pub open_text : ContentCipher → String → ContentContext → Result Error Opened
  open_text c stored context =
      open_encoded c stored context (strip_prefix stored content_text_prefix)

  unfoldable pub seal_bytes_with_nonce :
      ContentCipher → Bytes → ContentContext → Bytes → Result Error Bytes
  seal_bytes_with_nonce c plaintext context nonce = do
    reject (is_ryu_envelope plaintext ryu_magics) (refused already_a_ryu_envelope)
    ciphertext ← seal_with c.current nonce plaintext (aad c context)
    ok (content_bytes_magic ++ (nonce ++ ciphertext))

  unfoldable pub seal_bytes : ContentCipher → ℕ → Bytes → ContentContext → Result Error Bytes
  seal_bytes c draw plaintext context =
      seal_bytes_with_nonce c plaintext context (x.fill_bytes draw nonce_len)

  abbrev pub open_stripped :
      ContentCipher → Bytes → ContentContext → Option Bytes → Result Error OpenedBytes
  open_stripped c stored context none =
      if leb 8 (length stored)
        && begins stored (as_bytes "RYU-")
        && looks_like_ryu_magic (take 8 stored)
      then err (refused unknown_version)
      else ok (record { value = stored; needs_reseal = not (eqb (length stored) 0) })
  open_stripped c stored context (some blob) = do
    reject (ltb (length blob) (nonce_len + tag_len)) (refused malformed)
    opened ← open_blob c blob context
    ok (record { value = opened.0; needs_reseal = opened.1 })

  unfoldable pub open_bytes : ContentCipher → Bytes → ContentContext → Result Error OpenedBytes
  open_bytes c stored context = open_stripped c stored context (strip stored content_bytes_magic)
