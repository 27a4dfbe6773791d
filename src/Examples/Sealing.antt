-- ===== src/Examples/Sealing.antt =====
-- The theorems on crates/core/crypto/src/content.rs at concrete values, and runs of its functions.
use ryu_rooms.Bytes.{be_onto, strip}
use ryu_rooms.Content.Context.{push_fields, push_part}
use ryu_rooms.Content.Keys.{derive, derive_sub_key, hkdf32, store_name_ok}
use ryu_rooms.Examples.{decimal}
use ryu_rooms.Examples.Primitives.{sum}
use ryu_rooms.Bytes.{begins}
use ryu_rooms.Bytes.Utf8.{encode}
use ryu_rooms.Content.{ryu_magics, sealed_file_magic, sealed_log_magic}
use ryu_rooms.Content.Envelope.{is_ryu_envelope, seal_with}
use ryu_rooms.Content.Keys.{aad}
use Prim.Native.String.{◌++◌ as append}
use ryu_rooms.Prelude.{
  ◌≡◌, ◌≢◌, refl, eq_iff, arith, String, true, false, [], ◌∷◌, ◌++◌, if◌then◌else◌, ◌==◌,
}
use ryu_rooms.Result.{ok, err}
use ryu_rooms.Bytes.{Bytes}
use ryu_rooms.Bytes.Utf8.{as_bytes}
use ryu_rooms.Seal.{ContentContext, for_id, IsFaithful}
use ryu_rooms.Seal.StoreSeal.{sealing, to_sealing}
use ryu_rooms.Content.{refused, already_a_ryu_envelope, content_bytes_magic}
use ryu_rooms.Content.Context.{associated_data}
use ryu_rooms.Content.Context.Injective.{associated_data_inj}
use ryu_rooms.Content.Keys.{
  ContentCipher, KcvMatch, match_kcv, from_root, key_check_value, derive_content_key, descend,
  with_retired_roots, subcipher, subciphers,
}
use ryu_rooms.Content.Keys.Rotation.{
  with_retired_roots-subcipher, match_kcv-with_retired_roots, names,
}
use ryu_rooms.Content.Envelope.{seal_text_with_nonce, seal_bytes_with_nonce, open_text, open_bytes}
use ryu_rooms.Content.Envelope.Opening.{open_text-seal_text_with_nonce}
use ryu_rooms.Content.Envelope.Blobs.{open_bytes-seal_bytes_with_nonce}
use ryu_rooms.Content.Envelope.Rotated.{open_text_rotated}
use ryu_rooms.Content.Envelope.ForStore.{to_store_cipher, to_store_cipher-IsFaithful}
use ryu_rooms.Examples.Primitives.{toy, toy-IsLawful, letters, replicate, tag}

abbrev pub old_root : Bytes
old_root = 7 ∷ 1 ∷ []

abbrev pub new_root : Bytes
new_root = 9 ∷ []

-- The cipher of a store under a root key of the examples.
abbrev pub cipher : Bytes → ContentCipher
cipher root = record {
  store = "s";
  labels = [];
  current = record { key = derive_content_key toy root "s"; root_kcv = key_check_value toy root };
  retired = [];
}

abbrev pub place : ContentContext
place = record { purpose = "t.c"; fields = ("id", "7") ∷ [] }

abbrev pub nonce : Bytes
nonce = replicate 12 3

abbrev pub sealed_bytes : Bytes → Bytes → Bytes
sealed_bytes key plaintext = nonce ++ (tag key nonce (associated_data place "s") ++ plaintext)

abbrev pub sealed_text : Bytes → String → String
sealed_text key plaintext = append "encb:v1:" (letters (sealed_bytes key (as_bytes plaintext)))

associated_data_inj_example : (place ≡ for_id "t.c" "7") × ◌≡◌ {A = String} "s" "s"
unfolding as_bytes encode for_id
associated_data_inj_example =
    associated_data_inj place (for_id "t.c" "7") "s" "s" (omega arith) (omega arith) refl

with_retired_roots-subcipher_example :
    with_retired_roots toy (subcipher toy (cipher new_root) "h1") (old_root ∷ old_root ∷ [])
    ≡ subcipher toy (with_retired_roots toy (cipher new_root) (old_root ∷ old_root ∷ [])) "h1"
with_retired_roots-subcipher_example =
    with_retired_roots-subcipher toy (cipher new_root) "h1" (old_root ∷ old_root ∷ [])

match_kcv-with_retired_roots_example :
    match_kcv (with_retired_roots toy (cipher new_root) (old_root ∷ [])) "8" ≡ (
      if "8" == key_check_value toy new_root
      then KcvMatch.current
      else if names toy "8" (old_root ∷ [])
      then KcvMatch.retired
      else KcvMatch.unknown)
match_kcv-with_retired_roots_example =
    match_kcv-with_retired_roots toy (cipher new_root) (old_root ∷ []) "8"

open_text-seal_text_with_nonce_example :
    open_text toy (cipher new_root) (sealed_text (derive_content_key toy new_root "s") "hi") place
    ≡ ok (record { value = "hi"; needs_reseal = false })
unfolding seal_text_with_nonce seal_with replicate aad
open_text-seal_text_with_nonce_example =
    open_text-seal_text_with_nonce toy-IsLawful (cipher new_root) "hi" place nonce
      (sealed_text (derive_content_key toy new_root "s") "hi") refl refl

open_bytes-seal_bytes_with_nonce_example :
    (open_bytes toy
        (cipher new_root)
        (content_bytes_magic ++ sealed_bytes (derive_content_key toy new_root "s") (1 ∷ 2 ∷ []))
        place
      ≡ ok (record { value = 1 ∷ 2 ∷ []; needs_reseal = false }))
    × (seal_bytes_with_nonce toy
          (cipher old_root)
          (content_bytes_magic ++ sealed_bytes (derive_content_key toy new_root "s") (1 ∷ 2 ∷ []))
          (for_id "t.d" "8")
          (replicate 12 4)
        ≡ err (refused already_a_ryu_envelope))
unfolding seal_bytes_with_nonce seal_with replicate aad is_ryu_envelope ryu_magics begins
    content_bytes_magic sealed_file_magic sealed_log_magic encode
open_bytes-seal_bytes_with_nonce_example =
    open_bytes-seal_bytes_with_nonce toy-IsLawful (cipher new_root) (1 ∷ 2 ∷ []) place nonce
      (content_bytes_magic ++ sealed_bytes (derive_content_key toy new_root "s") (1 ∷ 2 ∷ []))
      (cipher old_root) (for_id "t.d" "8") (replicate 12 4) refl refl

to_store_cipher-IsFaithful_example :
    IsFaithful (to_sealing (sealing (to_store_cipher toy (cipher new_root))))
to_store_cipher-IsFaithful_example = to_store_cipher-IsFaithful toy (cipher new_root) toy-IsLawful

digits_differ : ◌≢◌ {A = String} "8" "9"
digits_differ h = ground (arith, eq_iff "8" "9")

roots_differ : key_check_value toy old_root ≢ key_check_value toy new_root
unfolding key_check_value sum decimal
roots_differ h = digits_differ h

open_text_rotated_example :
    open_text toy
      (with_retired_roots toy (subciphers toy (cipher new_root) ("h1" ∷ [])) (old_root ∷ []))
      (sealed_text (descend toy (derive_content_key toy old_root "s") ("h1" ∷ [])) "hi")
      place
    ≡ ok (record { value = "hi"; needs_reseal = true })
unfolding from_root store_name_ok as_bytes encode key_check_value derive_content_key hkdf32 descend
    derive_sub_key sum decimal tag replicate associated_data push_part push_fields be_onto strip
    seal_text_with_nonce seal_with subciphers subcipher derive aad
open_text_rotated_example =
    open_text_rotated toy toy-IsLawful old_root new_root "s" ("h1" ∷ []) (cipher old_root)
      (cipher new_root) "hi" place nonce
      (sealed_text (descend toy (derive_content_key toy old_root "s") ("h1" ∷ [])) "hi") refl refl
      refl roots_differ (λ ciphertext h. ground arith) refl
