-- ===== src/Content/Envelope/Rotated.antt =====
-- Opening after the root key has changed (crates/core/crypto/src/content.rs).
use ryu_rooms.Prelude.{
  ◌≡◌, ◌≢◌, refl, sym, ap, ◌∙◌, arith, String, true, false, some, none, List, [], ◌∷◌, ◌++◌, length,
  eq_iff,
}
use ryu_rooms.Result.{ok}
use ryu_rooms.Bytes.{Bytes}
use ryu_rooms.Bytes.Utf8.{as_bytes}
use ryu_rooms.Seal.{ContentContext}
use ryu_rooms.Content.{Primitives, IsLawful}
use ryu_rooms.Content.Context.{associated_data}
use ryu_rooms.Content.Keys.{
  ContentKey, ContentCipher, candidate_keys, aad, from_root, with_retired_roots, subcipher,
  subciphers, descend, derive_content_key, key_check_value, add_root, add_roots, derive, has_kcv,
}
use ryu_rooms.Content.Envelope.{open_with, seal_text_with_nonce, open_text}
use ryu_rooms.Content.Envelope.Opening.{open_text_of_Opens}
use mathlib.Core.List.{append_assoc, append-nil}

module _ (x : Primitives) where
  -- What the ciphers of the segments share with the cipher that they come from.
  subciphers_lem :
      (c : ContentCipher) (labels : List String)
      → ((subciphers x c labels).store ≡ c.store)
        × ((subciphers x c labels).labels ≡ c.labels ++ labels)
        × ((subciphers x c labels).current
            ≡ record c.current { key = descend x c.current.key labels })
  unfolding subciphers descend subcipher derive
  subciphers_lem c [] = (refl, sym (append-nil c.labels), refl)
  subciphers_lem c (l ∷ ls) =
      let (a, b, e) = subciphers_lem (subcipher x c l) ls in
      (a, b ∙ append_assoc c.labels (l ∷ []) ls, e)

  -- The cipher of the new root, with the old root retired, in the segment of the labels.
  rotated_keys :
      (old new : Bytes) (store : String) (labels : List String) (c : ContentCipher)
      → from_root x new store ≡ some c
      → key_check_value x old ≢ key_check_value x new
      → candidate_keys (with_retired_roots x (subciphers x c labels) (old ∷ []))
        ≡ (
          record {
            key = descend x (derive_content_key x new store) labels;
            root_kcv = key_check_value x new;
          },
          false,
        )
          ∷ (
            record {
              key = descend x (derive_content_key x old store) labels;
              root_kcv = key_check_value x old;
            },
            true,
          )
          ∷ []
  unfolding candidate_keys with_retired_roots add_roots add_root from_root has_kcv
  rotated_keys old new store labels c h differs =
      ground
        (arith, subciphers_lem c labels, eq_iff (key_check_value x old) (key_check_value x new))

  from_root_store :
      (root : Bytes) (store : String) (c : ContentCipher)
      → from_root x root store ≡ some c
      → (c.store ≡ store) × (c.current.key ≡ derive_content_key x root store)
  unfolding from_root
  from_root_store root store c h = ground arith

  open_second :
      (k l : ContentKey) (nonce plaintext ciphertext associated : Bytes)
      → x.decrypt k.key nonce ciphertext associated ≡ none
      → x.decrypt l.key nonce ciphertext associated ≡ some plaintext
      → open_with x ((k, false) ∷ (l, true) ∷ []) nonce ciphertext associated ≡ ok (plaintext, true)
  unfolding open_with
  open_second k l nonce plaintext ciphertext associated e f = ground arith

  segment_lem :
      (root : Bytes) (store : String) (labels : List String) (c : ContentCipher)
      (context : ContentContext)
      → from_root x root store ≡ some c
      → ((subciphers x c labels).store ≡ store)
        × ((subciphers x c labels).current.key ≡ descend x (derive_content_key x root store) labels)
  segment_lem root store labels c context h =
      let (s, k) = from_root_store root store c h in
      let (s', _, k') = subciphers_lem c labels in
      (s' ∙ s, ap (λ (key : ContentKey). key.key) k' ∙ ap (λ (key : Bytes). descend x key labels) k)

  -- A text that a segment of a store sealed under the old root, with a nonce of 12 bytes, opens after
  -- the root was replaced and the old one retired, where the two have different check values: the
  -- cipher of the same segment under the new root gives the same value in the same context, and says
  -- that it is to be sealed again. The condition is that the new key does not by chance open what the
  -- old one sealed.
  pub open_text_rotated :
      IsLawful x
      → (old new : Bytes) (store : String) (labels : List String) (c d : ContentCipher)
        (value : String) (context : ContentContext) (nonce : Bytes) (sealed : String)
      → length nonce ≡ 12
      → from_root x old store ≡ some c
      → from_root x new store ≡ some d
      → key_check_value x old ≢ key_check_value x new
      → ((ciphertext : Bytes)
          → x.encrypt
              (descend x (derive_content_key x old store) labels)
              nonce
              (as_bytes value)
              (associated_data context store)
            ≡ some ciphertext
          → x.decrypt
              (descend x (derive_content_key x new store) labels)
              nonce
              ciphertext
              (associated_data context store)
            ≡ none)
      → seal_text_with_nonce x (subciphers x c labels) value context nonce ≡ ok sealed
      → open_text x (with_retired_roots x (subciphers x d labels) (old ∷ [])) sealed context
        ≡ ok (record { value = value; needs_reseal = true })
  unfolding aad with_retired_roots
  open_text_rotated law old new store labels c d value context nonce sealed l hc hd differs fails
        h =
      let (cs, ck) = segment_lem old store labels c context hc in
      let (ds, dk) = segment_lem new store labels d context hd in
      open_text_of_Opens law (subciphers x c labels)
        (with_retired_roots x (subciphers x d labels) (old ∷ [])) value context nonce sealed true l
        (cs ∙ sym ds)
        (λ ciphertext e.
          let e' = rw (cs, ck) at e in
          rw (rotated_keys old new store labels d hd differs, cs)
            (open_second _ _ nonce (as_bytes value) ciphertext (associated_data context store)
              (fails ciphertext e')
              (law.decrypt-encrypt _ nonce (as_bytes value) (associated_data context store)
                ciphertext e')))
        h
