-- ===== src/Content.antt =====
-- Sealing of user content (crates/core/crypto/src/content.rs): what it takes of the crates that it
-- calls, its errors and its constants. Keys makes the ciphers, Context the associated data, and
-- Envelope seals and opens.
pub mod Context
pub mod Keys
pub mod Envelope
use ryu_rooms.Prelude.{ℕ, ◌+◌, String, ◌≡◌, Bool, true, false, Option, some, List, [], ◌∷◌, length}
use ryu_rooms.Text.{trim}
use ryu_rooms.Bytes.{Bytes}
use ryu_rooms.Bytes.Utf8.{as_bytes}

-- The crates hkdf, hmac, sha2, hex, chacha20poly1305, base64 and rand. A key, a nonce and the
-- like are byte strings; `fill_bytes n k` is what the n-th draw of k random bytes gives.
pub record Primitives : Type 0 where
  pub hkdf : (salt ikm info : Bytes) → Bytes
  pub hmac : (key message : Bytes) → Bytes
  pub sha256 : Bytes → Bytes
  pub hex : Bytes → String
  pub encrypt : (key nonce message aad : Bytes) → Option Bytes
  pub decrypt : (key nonce ciphertext aad : Bytes) → Option Bytes
  pub b64_encode : Bytes → String
  pub b64_decode : String → Option Bytes
  pub fill_bytes : ℕ → ℕ → Bytes

-- What the code relies on: that decryption undoes encryption, that a ciphertext is 16 bytes longer
-- than its message, that base64 decodes what it encoded and writes no white space, and that as many
-- random bytes come as were asked for. Nothing is assumed of how hard it is to forge a ciphertext.
pub record IsLawful (x : Primitives) : Type 0 where
  pub decrypt-encrypt :
      (key nonce message aad ciphertext : Bytes)
      → x.encrypt key nonce message aad ≡ some ciphertext
      → x.decrypt key nonce ciphertext aad ≡ some message
  pub length-encrypt :
      (key nonce message aad ciphertext : Bytes)
      → x.encrypt key nonce message aad ≡ some ciphertext
      → length ciphertext ≡ length message + 16
  pub b64_decode-encode : (bs : Bytes) → x.b64_decode (x.b64_encode bs) ≡ some bs
  pub trim-b64_encode : (bs : Bytes) → trim (x.b64_encode bs) ≡ x.b64_encode bs
  pub length-fill_bytes : (n k : ℕ) → length (x.fill_bytes n k) ≡ k

pub data ContentSealError : Type 0 where
  unknown_version : ContentSealError
  does_not_open : ContentSealError
  malformed : ContentSealError
  already_a_ryu_envelope : ContentSealError

-- `anyhow::Error`: one of the above, another message, or the loop of a scan that ran out of its fuel.
pub data Error : Type 0 where
  refused : ContentSealError → Error
  message : String → Error
  out_of_fuel : Error

-- `Display` of `ContentSealError`.
unfoldable pub display : ContentSealError → String
display unknown_version =
    "sealed content uses an envelope version this build cannot read (written by a newer Ryu?)"
display does_not_open =
    "sealed content does not open for this store, record and key (it was moved, altered, or sealed under another key)"
display malformed = "sealed content has a malformed envelope"
display already_a_ryu_envelope =
    "refusing to seal bytes that already start with a Ryu envelope magic"

unfoldable pub is_content_seal_error : Error → Bool
is_content_seal_error (refused _) = true
is_content_seal_error _ = false

unfoldable pub to_message : Error → String
unfolding display
to_message (refused e) = display e
to_message (message m) = m
to_message out_of_fuel = ""

abbrev pub nonce_len : ℕ
nonce_len = 12

abbrev pub tag_len : ℕ
tag_len = 16

abbrev pub content_text_family : String
content_text_family = "encb:"

unfoldable pub content_bytes_magic : Bytes
unfolding as_bytes
content_bytes_magic = as_bytes "RYU-CB01"

unfoldable pub sealed_file_magic : Bytes
unfolding as_bytes
sealed_file_magic = as_bytes "RYU-SF01"

unfoldable pub sealed_log_magic : Bytes
unfolding as_bytes
sealed_log_magic = as_bytes "RYU-SL01"

unfoldable pub ryu_magics : List Bytes
ryu_magics = content_bytes_magic ∷ sealed_file_magic ∷ sealed_log_magic ∷ []
