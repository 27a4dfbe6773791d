-- ===== src/Custody/Ladder/Guarded.antt =====
-- No silent generation (crates/core/crypto/src/lib.rs): where there is a reason against a fresh key,
-- the ladder gives only keys that were there.
use ryu_rooms.Prelude.{
  ◌≡◌, refl, sym, ap, ◌∙◌, ◌⊎◌, inl, inr, String, Bool, true, false, Option, none, some, Bool-cases,
  Option-cases,
}
use ryu_rooms.Result.{ok}
use ryu_rooms.Bytes.{Bytes}
use ryu_rooms.Content.{Primitives}
use ryu_rooms.Custody.{
  MasterKeySource, KeychainState, Folder, CustodyInputs, slot_get, slot_store, OnDisk, key_in,
  decode_key, read_key_file, write_key_file, published, is_missing, retire_matching_legacy_key,
  same_bytes,
}
use ryu_rooms.Custody.Ladder.{
  adopt_or_generate, file_fallback, verify, publish, keep_in_file, after_store, seed_keychain,
  use_file, from_slot, from_env, load_master_key_guarded, or,
}
use ryu_rooms.Custody.Giving.{
  Gives, Gives-ok, Gives-err, Gives-bind, Gives-leaving, Gives-Unit, of_Gives,
}

-- `IsHeld x i w k`: the environment, the keychain or a key file of the folder `w` holds the key `k`.
pub data IsHeld (x : Primitives) {K : Type 0} (i : CustodyInputs K) (w : Folder K) (k : Bytes)
    : Type 0 where
  by_env :
      (encoded : String)
      → i.env_value ≡ some encoded
      → decode_key x encoded ≡ some k
      → IsHeld x i w k
  by_keychain : slot_get i w ≡ KeychainState.key k → IsHeld x i w k
  by_file : read_key_file x w i.master_path ≡ ok (some k) → IsHeld x i w k
  by_legacy : read_key_file x w i.legacy_path ≡ ok (some k) → IsHeld x i w k

module _ (x : Primitives) {K : Type 0} (i : CustodyInputs K) (w : Folder K) where
  -- What the ladder gives is held in the folder that it began with.
  abbrev Found : Folder K → Bytes × MasterKeySource → Type 0
  Found left found = IsHeld x i w (found.0)

  -- Of a key that was published at the key file of `v`: it is `k`, or the file held it.
  abbrev Published : Folder K → Bytes → Folder K → Bytes → Type 0
  Published v k left c = (c ≡ k) ⊎ (read_key_file x v i.master_path ≡ ok (some c))

  published-Gives :
      (v : Folder K) (k : Bytes) (found : Option Bytes)
      → read_key_file x v i.master_path ≡ ok found
      → Gives (Published v k) (published x v found)
  unfolding published
  published-Gives v k none e = Gives-err (Published v k) v _
  published-Gives v k (some c) e = Gives-ok (Published v k) v c (inr e)

  write_key_file-Gives :
      (v : Folder K) (k : Bytes) → Gives (Published v k) (write_key_file x i v i.master_path k)
  unfolding write_key_file
  write_key_file-Gives v k = elim (Bool-cases (i.writable i.master_path)) [
    | inr off ↦ simp off (Gives-err (Published v k) v _)
    | inl on ↦ elim (Bool-cases (is_missing (v.files i.master_path))) [
      | inl new ↦ rw (on, new) (Gives-ok (Published v k) _ k (inl refl))
      | inr old ↦
          rw (on, old)
            (Gives-leaving (Published v k) v (read_key_file x v i.master_path) _
              (published-Gives v k))
    ]
  ]

  -- A key that is held, or one that the key file held, is held.
  IsHeld-Published :
      (v left : Folder K) (k c : Bytes)
      → v.files ≡ w.files
      → IsHeld x i w k
      → Published v k left c
      → IsHeld x i w c
  IsHeld-Published v left k c files h (inl same) = rw same h
  IsHeld-Published v left k c files h (inr e) =
      let same : read_key_file x v i.master_path ≡ read_key_file x w i.master_path =
        unfold read_key_file in
        ap (λ (fs : String → OnDisk String). key_in x (fs i.master_path)) files in
      by_file (sym same ∙ e)

  slot_store-files : (k : Bytes) → ((slot_store i k w).1).files ≡ w.files
  unfolding slot_store
  slot_store-files k = elim (Bool-cases i.keychain_enabled) [
    | inl on ↦ simp on refl
    | inr off ↦ simp off refl
  ]

  module _ (reason : String) where
    there_of_adopt :
        (there : Option Bytes) (k : Bytes)
        → adopt_or_generate i (some reason) there ≡ ok k
        → there ≡ some k
    unfolding adopt_or_generate
    there_of_adopt (some existing) k e = ap some cc
    there_of_adopt none k e = absurd cc

    IsHeld-or :
        (file_key legacy : Option Bytes) (k : Bytes)
        → file_fallback x i (some reason) w ≡ ok file_key
        → read_key_file x w i.legacy_path ≡ ok legacy
        → or file_key legacy ≡ some k
        → IsHeld x i w k
    unfolding file_fallback
    IsHeld-or (some c) legacy k e1 e2 e = elim (Bool-cases i.allow_file) [
      | inl on ↦ by_file ((sym (simp on refl)) ∙ e1 ∙ ap ok e)
      | inr off ↦ absurd cc
    ]
    IsHeld-or none legacy k e1 e2 e = by_legacy (e2 ∙ ap ok e)

    verify-Gives :
        (v : Folder K) (k : Bytes) (state : KeychainState)
        → IsHeld x i w k
        → Gives Found (verify x i (some reason) v k state)
    unfolding verify
    verify-Gives v k (KeychainState.key persisted) h = elim (Bool-cases (same_bytes persisted k)) [
      | inl same ↦ rw same (
          Gives-bind Found _ (retire_matching_legacy_key x i v k) _ (Gives-Unit _)
            (λ left _ _. Gives-ok Found left (k, MasterKeySource.keychain) h))
      | inr other ↦ rw other (Gives-err Found v _)
    ]
    verify-Gives v k KeychainState.corrupt h = Gives-err Found v _
    verify-Gives v k KeychainState.empty h = Gives-err Found v _
    verify-Gives v k KeychainState.unavailable h = Gives-err Found v _

    publish-Gives :
        (v : Folder K) (k : Bytes) (there : Option Bytes)
        → read_key_file x v i.master_path ≡ ok there
        → Gives (Published v k) (publish x i (some reason) v k there)
    unfolding publish
    publish-Gives v k (some existing) e = Gives-ok (Published v k) v existing (inr e)
    publish-Gives v k none e = write_key_file-Gives v k

    keep_in_file-Gives :
        (v : Folder K) (k : Bytes)
        → v.files ≡ w.files
        → IsHeld x i w k
        → Gives Found (keep_in_file x i (some reason) v k)
    unfolding keep_in_file
    keep_in_file-Gives v k files h =
        Gives-leaving Found v (read_key_file x v i.master_path) _ (λ there e.
          Gives-bind Found (Published v k) (publish x i (some reason) v k there) _
            (publish-Gives v k there e)
            (λ left c p.
              Gives-ok Found left (c, MasterKeySource.file)
                (IsHeld-Published v left k c files h p)))

    after_store-Gives :
        (v : Folder K) (k : Bytes) (stored : Bool)
        → v.files ≡ w.files
        → IsHeld x i w k
        → Gives Found (after_store x i (some reason) v k stored)
    unfolding after_store
    after_store-Gives v k true files h = verify-Gives v k (slot_get i v) h
    after_store-Gives v k false files h = elim (Bool-cases i.allow_file) [
      | inr off ↦ simp off (Gives-err Found v _)
      | inl on ↦ simp on (keep_in_file-Gives v k files h)
    ]

    seed_keychain-Gives :
        (legacy : Option Bytes)
        → read_key_file x w i.legacy_path ≡ ok legacy
        → Gives Found (seed_keychain x i (some reason) w legacy)
    unfolding seed_keychain
    seed_keychain-Gives legacy e =
        Gives-leaving Found w (file_fallback x i (some reason) w) _ (λ file_key e1.
          Gives-leaving Found w (adopt_or_generate i (some reason) (or file_key legacy)) _ (λ k e2.
            after_store-Gives _ k _ (slot_store-files k)
              (IsHeld-or file_key legacy k e1 e (there_of_adopt _ k e2))))

    use_file-Gives :
        (legacy : Option Bytes)
        → read_key_file x w i.legacy_path ≡ ok legacy
        → Gives Found (use_file x i (some reason) w legacy)
    unfolding use_file
    use_file-Gives legacy e = elim (Bool-cases i.allow_file) [
      | inr off ↦ simp off (Gives-err Found w _)
      | inl on ↦ simp on (
          Gives-leaving Found w (read_key_file x w i.master_path) _ (λ there e1.
            elim (Option-cases there) [
              | inr (k, some_k) ↦
                  rw some_k
                    (Gives-ok Found w (k, MasterKeySource.file) (by_file (e1 ∙ ap ok some_k)))
              | inl nothing ↦ rw nothing (
                  Gives-leaving Found w (adopt_or_generate i (some reason) legacy) _ (λ k e2.
                    let h : IsHeld x i w k = by_legacy (e ∙ ap ok (there_of_adopt legacy k e2)) in
                    Gives-bind Found (Published w k) (write_key_file x i w i.master_path k) _
                      (write_key_file-Gives w k)
                      (λ left c p.
                        Gives-ok Found left (c, MasterKeySource.file)
                          (IsHeld-Published w left k c refl h p))))
            ]))
    ]

    from_slot-Gives :
        (legacy : Option Bytes) (state : KeychainState)
        → read_key_file x w i.legacy_path ≡ ok legacy
        → slot_get i w ≡ state
        → Gives Found (from_slot x i (some reason) w legacy state)
    unfolding from_slot
    from_slot-Gives legacy (KeychainState.key k) e at =
        Gives-bind Found _ (retire_matching_legacy_key x i w k) _ (Gives-Unit _)
          (λ left _ _. Gives-ok Found left (k, MasterKeySource.keychain) (by_keychain at))
    from_slot-Gives legacy KeychainState.empty e at = seed_keychain-Gives legacy e
    from_slot-Gives legacy KeychainState.corrupt e at = Gives-err Found w _
    from_slot-Gives legacy KeychainState.unavailable e at = use_file-Gives legacy e

    from_env-Gives :
        (value : Option String)
        → i.env_value ≡ value
        → Gives Found (from_env x i (some reason) w value)
    unfolding from_env
    from_env-Gives none at =
        Gives-leaving Found w (read_key_file x w i.legacy_path) _
          (λ legacy e. from_slot-Gives legacy (slot_get i w) e refl)
    from_env-Gives (some encoded) at = elim (Option-cases (decode_key x encoded)) [
      | inl bad ↦ rw (from_env, bad) (Gives-err Found w _)
      | inr (k, good) ↦
          rw (from_env, good) (Gives-ok Found w (k, MasterKeySource.env) (by_env encoded at good))
    ]

    -- No key is generated silently. Where there is a reason against a fresh key and the ladder
    -- gives one, the environment, the keychain or a key file held that key before, on every branch:
    -- also where the keychain took it or another process had published the key file.
    pub load_master_key_guarded-IsHeld :
        (left : Folder K) (k : Bytes) (source : MasterKeySource)
        → load_master_key_guarded x i (some reason) w ≡ ok (left, (k, source))
        → IsHeld x i w k
    unfolding load_master_key_guarded
    load_master_key_guarded-IsHeld left k source e =
        of_Gives Found (load_master_key_guarded x i (some reason) w) left (k, source)
          (from_env-Gives i.env_value refl) e
