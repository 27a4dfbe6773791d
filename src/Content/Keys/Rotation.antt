-- ===== src/Content/Keys/Rotation.antt =====
-- Retired roots and sub-ciphers together (crates/core/crypto/src/content.rs).
use mathlib.Core.List.{map-append}
use ryu_rooms.Prelude.{
  String, ◌≡◌, refl, sym, ap, arith, Bool, false, ◌||◌, List, [], ◌∷◌, ◌++◌, map, ◌==◌, eq_iff,
  Bool-cases, inl, inr, if◌then◌else◌,
}
use ryu_rooms.Bytes.{Bytes}
use ryu_rooms.Content.{Primitives}
use ryu_rooms.Content.Keys.{
  ContentKey, ContentCipher, KcvMatch, has_kcv, match_kcv, key_check_value, descend, derive_sub_key,
  derive_content_key, add_root, add_roots, with_retired_roots, derive, subcipher,
}

module _ (x : Primitives) where
  descend-append :
      (key : Bytes) (labels : List String) (label : String)
      → descend x key (labels ++ label ∷ []) ≡ derive_sub_key x (descend x key labels) label
  unfolding descend
  descend-append key [] label = refl
  descend-append key (l ∷ ls) label = descend-append (derive_sub_key x key l) ls label

  has_kcv-map :
      (kcv label : String) (ks : List ContentKey)
      → has_kcv kcv (map (derive x label) ks) ≡ has_kcv kcv ks
  unfolding has_kcv derive
  has_kcv-map kcv label [] = refl
  has_kcv-map kcv label (k ∷ ks) = rw (has_kcv-map kcv label ks) refl

  add_root-subcipher :
      (c : ContentCipher) (label : String) (kept : List ContentKey) (root : Bytes)
      → add_root x (subcipher x c label) (map (derive x label) kept) root
        ≡ map (derive x label) (add_root x c kept root)
  unfolding add_root subcipher derive
  add_root-subcipher c label kept root =
      elim (Bool-cases
        (key_check_value x root == c.current.root_kcv || has_kcv (key_check_value x root) kept)) [
          | inl e ↦ rw (has_kcv-map (key_check_value x root) label kept, e) refl
          | inr e ↦
              rw (has_kcv-map (key_check_value x root) label kept, e)
                (rw (descend-append (derive_content_key x root c.store) c.labels label)
                  (sym (map-append (derive x label) kept _)))
        ]

  add_roots-subcipher :
      (c : ContentCipher) (label : String) (kept : List ContentKey) (roots : List Bytes)
      → add_roots x (subcipher x c label) (map (derive x label) kept) roots
        ≡ map (derive x label) (add_roots x c kept roots)
  unfolding add_roots
  add_roots-subcipher c label kept [] = refl
  add_roots-subcipher c label kept (root ∷ roots) =
      rw (add_root-subcipher c label kept root)
        (add_roots-subcipher c label (add_root x c kept root) roots)

  -- To give a cipher its retired roots and then take the sub-cipher of a label is the same as to take
  -- the sub-cipher first and then give it the roots, for every cipher, sub-ciphers included.
  pub with_retired_roots-subcipher :
      (c : ContentCipher) (label : String) (roots : List Bytes)
      → with_retired_roots x (subcipher x c label) roots
        ≡ subcipher x (with_retired_roots x c roots) label
  unfolding with_retired_roots subcipher
  with_retired_roots-subcipher c label roots =
      ap (λ (r : List ContentKey). record (subcipher x c label) { retired = r })
        (add_roots-subcipher c label [] roots)

  has_kcv-append :
      (kcv : String) (ks ls : List ContentKey)
      → has_kcv kcv (ks ++ ls) ≡ has_kcv kcv ks || has_kcv kcv ls
  unfolding has_kcv
  has_kcv-append kcv [] ls = refl
  has_kcv-append kcv (k ∷ ks) ls = ground (arith, has_kcv-append kcv ks ls)

  -- Whether one of the roots has this check value.
  pub names : String → List Bytes → Bool
  names kcv [] = false
  names kcv (root ∷ roots) = key_check_value x root == kcv || names kcv roots

  has_kcv-add_root :
      (c : ContentCipher) (kcv : String) (kept : List ContentKey) (root : Bytes)
      → kcv == c.current.root_kcv ≡ false
      → has_kcv kcv (add_root x c kept root) ≡ has_kcv kcv kept || key_check_value x root == kcv
  unfolding add_root has_kcv
  has_kcv-add_root c kcv kept root h = ground (
    arith,
    eq_iff (key_check_value x root) kcv,
    has_kcv-append kcv kept (
        record {
          key = descend x (derive_content_key x root c.store) c.labels;
          root_kcv = key_check_value x root;
        }
        ∷ []),
  )

  has_kcv-add_roots :
      (c : ContentCipher) (kcv : String) (kept : List ContentKey) (roots : List Bytes)
      → kcv == c.current.root_kcv ≡ false
      → has_kcv kcv (add_roots x c kept roots) ≡ has_kcv kcv kept || names kcv roots
  unfolding add_roots names
  has_kcv-add_roots c kcv kept [] h = ground arith
  has_kcv-add_roots c kcv kept (root ∷ roots) h = ground (
    arith,
    has_kcv-add_roots c kcv (add_root x c kept root) roots h,
    has_kcv-add_root c kcv kept root h,
  )

  -- A check value is of the current root, or else of a retired one exactly when one of the roots that
  -- were given has it, whatever the order and however often a root is given; otherwise it is unknown.
  pub match_kcv-with_retired_roots :
      (c : ContentCipher) (roots : List Bytes) (kcv : String)
      → match_kcv (with_retired_roots x c roots) kcv ≡ (
          if kcv == c.current.root_kcv
          then KcvMatch.current
          else if names kcv roots
          then KcvMatch.retired
          else KcvMatch.unknown)
  unfolding match_kcv with_retired_roots has_kcv
  match_kcv-with_retired_roots c roots kcv = elim (Bool-cases (kcv == c.current.root_kcv)) [
    | inl e ↦ rw e refl
    | inr e ↦ rw e (rw (has_kcv-add_roots c kcv [] roots e) refl)
  ]
