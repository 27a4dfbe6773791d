-- ===== src/Content/Keys.antt =====
-- The keys of a content cipher (crates/core/crypto/src/content.rs): how they are derived from a root
-- key, the ciphers of a store and of its segments, and the retired keys beside the current one.
pub mod Rotation
use ryu_rooms.Prelude.{
  ℕ, String, Bool, true, false, not, ◌&&◌, ◌||◌, Option, none, some, List, [], ◌∷◌, ◌++◌, map, ◌==◌,
  length, take, ltb, leb, eqb, if◌then◌else◌,
}
use ryu_rooms.Result.{Result, ok, err}
use ryu_rooms.Bytes.{Bytes, concat}
use ryu_rooms.Bytes.Utf8.{as_bytes}
use ryu_rooms.Seal.{ContentContext}
use ryu_rooms.Content.{Primitives, Error, message}
use ryu_rooms.Content.Context.{associated_data}

pub record ContentKey : Type 0 where
  pub key : Bytes
  pub root_kcv : String

-- `CipherInner`.
pub record ContentCipher : Type 0 where
  pub store : String
  pub labels : List String
  pub current : ContentKey
  pub retired : List ContentKey

pub data KcvMatch : Type 0 where
  current : KcvMatch
  retired : KcvMatch
  unknown : KcvMatch

is_graphic : Bytes → Bool
is_graphic [] = true
is_graphic (b ∷ bs) = leb 0x21 b && ltb b 0x7f && is_graphic bs

unfoldable pub store_name_ok : String → Bool
unfolding is_graphic
store_name_ok store =
    let bytes = as_bytes store in
    not (eqb (length bytes) 0) && leb (length bytes) 128 && is_graphic bytes

unfoldable pub check_store_name : String → Result Error (Unit {0})
check_store_name store =
    if store_name_ok store
    then ok tt
    else err (message "content store names are non-empty printable ASCII without spaces")

unfoldable pub has_kcv : String → List ContentKey → Bool
has_kcv kcv [] = false
has_kcv kcv (k ∷ ks) = k.root_kcv == kcv || has_kcv kcv ks

unfoldable pub match_kcv : ContentCipher → String → KcvMatch
match_kcv c kcv =
    if kcv == c.current.root_kcv
    then KcvMatch.current
    else if has_kcv kcv c.retired
    then KcvMatch.retired
    else KcvMatch.unknown

-- The keys to open with, each with whether it is retired.
unfoldable pub candidate_keys : ContentCipher → List (ContentKey × Bool)
candidate_keys c = (c.current, false) ∷ map (λ k. (k, true)) c.retired

unfoldable pub aad : ContentCipher → ContentContext → Bytes
aad c context = associated_data context c.store

module _ (x : Primitives) where
  unfoldable pub hkdf32 : (ikm salt : Bytes) → List Bytes → Bytes
  hkdf32 ikm salt info_parts = x.hkdf salt ikm (concat info_parts)

  unfoldable pub derive_content_key : Bytes → String → Bytes
  derive_content_key root store =
      hkdf32 root (as_bytes "ryu-content-crypto-v1")
        (as_bytes "ryu-content-crypto-v1:" ∷ as_bytes store ∷ [])

  unfoldable pub derive_sub_key : Bytes → String → Bytes
  derive_sub_key content_key label =
      hkdf32 content_key (as_bytes "ryu-content-sub-v1")
        (as_bytes "ryu-content-sub-v1:" ∷ as_bytes label ∷ [])

  unfoldable pub key_check_value : Bytes → String
  key_check_value root = x.hex (take 16 (x.hmac root (as_bytes "ryu-kcv-v1")))

  -- `none` where the code panics, on a store name that is refused.
  unfoldable pub from_root : Bytes → String → Option ContentCipher
  from_root root store =
      if store_name_ok store
      then some (record {
        store = store;
        labels = [];
        current = record { key = derive_content_key root store; root_kcv = key_check_value root };
        retired = [];
      })
      else none

  -- The fold over the labels, level by level.
  unfoldable pub descend : Bytes → List String → Bytes
  descend key [] = key
  descend key (label ∷ labels) = descend (derive_sub_key key label) labels

  -- One round of the loop of `with_retired_roots`.
  unfoldable pub add_root : ContentCipher → List ContentKey → Bytes → List ContentKey
  add_root c kept root =
      let kcv = key_check_value root in
      let key = descend (derive_content_key root c.store) c.labels in
      if kcv == c.current.root_kcv || has_kcv kcv kept
      then kept
      else kept ++ record { key = key; root_kcv = kcv } ∷ []

  unfoldable pub add_roots : ContentCipher → List ContentKey → List Bytes → List ContentKey
  add_roots c kept [] = kept
  add_roots c kept (root ∷ roots) = add_roots c (add_root c kept root) roots

  unfoldable pub with_retired_roots : ContentCipher → List Bytes → ContentCipher
  with_retired_roots c roots = record c { retired = add_roots c [] roots }

  unfoldable pub derive : String → ContentKey → ContentKey
  derive label k = record k { key = derive_sub_key k.key label }

  unfoldable pub subcipher : ContentCipher → String → ContentCipher
  subcipher c label = record c {
    labels = c.labels ++ label ∷ [];
    current = derive label c.current;
    retired = map (derive label) c.retired;
  }

  -- A cipher of a cipher, for each label in turn.
  unfoldable pub subciphers : ContentCipher → List String → ContentCipher
  subciphers c [] = c
  subciphers c (label ∷ labels) = subciphers (subcipher c label) labels
