-- ===== src/Custody/Keeping.antt =====
-- What the ladder and the retired keys (crates/core/crypto/src/lib.rs, custody.rs) leave as it was.
pub mod Retiring
use ryu_rooms.Prelude.{
  ◌≤◌, ◌<◌, arith, ◌&&◌, String, Bool, true, false, Option, none, some, List, [], ◌∷◌, ◌++◌, length,
  length-append, leb, Option-cases, Bool-cases, inl, inr, if◌then◌else◌,
}
use ryu_rooms.Result.{Result, ok, err, ◌>>=◌}
use ryu_rooms.Bytes.{Bytes}
use ryu_rooms.Content.{Primitives}
use ryu_rooms.Content.Keys.{key_check_value}
use ryu_rooms.Custody.{
  KeychainState, RetiredEntry, CustodyError, OnDisk, holding, Folder, CustodyInputs, Run, leaving,
  folder_of, pos, remove_file, slot_get, slot_store, decode_key, read_key_file, write_key_file,
  published, is_missing, put_file, retire_matching_legacy_key, same_bytes,
}
use ryu_rooms.Custody.Ladder.{
  adopt_or_generate, file_fallback, verify, publish, keep_in_file, after_store, seed_keychain,
  use_file, from_slot, from_env, load_master_key_guarded, or,
}
use ryu_rooms.Custody.Vault.{
  read_retired_index, find_entry, write_retired_index, store_retired, retired_key_path, keep_file,
  retire_new, retire,
}

-- `Keeps P m`: the folder that `m` leaves, with a result or an error, has `P`.
pub record Keeps {K A : Type 0} (P : Folder K → Type 0) (m : Run K A) : Type 0 where
  pub kept : P (folder_of m)

-- A predicate that key files, the keychain and an index of at most four keys leave as it was.
pub record IsStable {K : Type 0} (P : Folder K → Type 0) : Type 0 where
  pub files : (w : Folder K) (fs : String → OnDisk String) → P w → P (record w { files = fs })
  pub slots : (w : Folder K) (ss : K) → P w → P (record w { slots = ss })
  pub index :
      (w : Folder K) (keys : List RetiredEntry)
      → length keys ≤ 4
      → P w
      → P (record w { retired_index = holding keys })

module _ {K : Type 0} (P : Folder K → Type 0) where
  pub Keeps-ok : {A : Type 0} (w : Folder K) (a : A) → P w → Keeps P (ok (w, a))
  Keeps-ok w a h = record { kept = h }

  pub Keeps-err :
      {A : Type 0} (w : Folder K) (e : CustodyError) → P w → Keeps {A = A} P (err (w, e))
  Keeps-err w e h = record { kept = h }

  pub Keeps-bind :
      {A B : Type 0} (m : Run K A) (f : Folder K × A → Run K B)
      → Keeps P m
      → ((w : Folder K) (a : A) → P w → Keeps P (f (w, a)))
      → Keeps P (m >>= f)
  Keeps-bind (ok (w, a)) f h k = k w a h.kept
  Keeps-bind (err (w, e)) f h k = record { kept = h.kept }

  pub Keeps-leaving :
      {A : Type 0} (w : Folder K) (r : Result CustodyError A) → P w → Keeps P (leaving w r)
  Keeps-leaving w (ok a) h = record { kept = h }
  Keeps-leaving w (err e) h = record { kept = h }

module _ (x : Primitives) {K : Type 0} (P : Folder K → Type 0) (s : IsStable P)
    (i : CustodyInputs K) where
  published-Keeps : (w : Folder K) (found : Option Bytes) → P w → Keeps P (published x w found)
  unfolding published
  published-Keeps w none h = Keeps-err P w _ h
  published-Keeps w (some k) h = Keeps-ok P w k h

  pub write_key_file-Keeps :
      (w : Folder K) (path : String) (k : Bytes) → P w → Keeps P (write_key_file x i w path k)
  unfolding write_key_file published
  write_key_file-Keeps w path k h = elim (Bool-cases (i.writable path)) [
    | inr off ↦ rw off (Keeps-err P w _ h)
    | inl on ↦ elim (Bool-cases (is_missing (w.files path))) [
      | inl new ↦
          rw (on, new) (Keeps-ok P _ _ (s.files w (put_file w path (x.b64_encode k)).files h))
      | inr old ↦
          rw (on, old)
            (Keeps-bind P (leaving w (read_key_file x w path)) _ (Keeps-leaving P w _ h)
              published-Keeps)
    ]
  ]

  pub retire_matching_legacy_key-Keeps :
      (w : Folder K) (k : Bytes) → P w → Keeps P (retire_matching_legacy_key x i w k)
  unfolding retire_matching_legacy_key
  retire_matching_legacy_key-Keeps w k h =
      Keeps-bind P (leaving w (read_key_file x w i.legacy_path)) _ (Keeps-leaving P w _ h)
        (λ w1 found h1. elim (Option-cases found) [
          | inl off ↦ rw off (Keeps-ok P w1 _ h1)
          | inr (legacy_key, e) ↦ elim (Bool-cases (same_bytes legacy_key k)) [
            | inr other ↦ rw (e, other) (Keeps-ok P w1 _ h1)
            | inl same ↦ elim (Bool-cases (i.writable i.legacy_path)) [
              | inl on ↦
                  rw (e, same, on)
                    (Keeps-ok P _ _ (s.files w1 (remove_file w1 i.legacy_path).files h1))
              | inr off ↦ rw (e, same, off) (Keeps-err P w1 _ h1)
            ]
          ]
        ])

  pub slot_store-Keeps : (k : Bytes) (w : Folder K) → P w → P ((slot_store i k w).1)
  unfolding slot_store
  slot_store-Keeps k w h = elim (Bool-cases i.keychain_enabled) [
    | inl on ↦ rw on (s.slots w _ h)
    | inr off ↦ rw off h
  ]

  module _ (guard : Option String) where
    verify-Keeps :
        (w : Folder K) (k : Bytes) (state : KeychainState)
        → P w
        → Keeps P (verify x i guard w k state)
    unfolding verify
    verify-Keeps w k (KeychainState.key persisted) h = elim (Bool-cases (same_bytes persisted k)) [
      | inl same ↦ rw same (
          Keeps-bind P (retire_matching_legacy_key x i w k) _
            (retire_matching_legacy_key-Keeps w k h) (λ w1 _ h1. Keeps-ok P w1 _ h1))
      | inr other ↦ rw other (Keeps-err P w _ h)
    ]
    verify-Keeps w k KeychainState.corrupt h = Keeps-err P w _ h
    verify-Keeps w k KeychainState.empty h = Keeps-err P w _ h
    verify-Keeps w k KeychainState.unavailable h = Keeps-err P w _ h

    publish-Keeps :
        (w : Folder K) (k : Bytes) (there : Option Bytes)
        → P w
        → Keeps P (publish x i guard w k there)
    unfolding publish
    publish-Keeps w k (some existing) h = Keeps-ok P w existing h
    publish-Keeps w k none h = write_key_file-Keeps w i.master_path k h

    keep_in_file-Keeps : (w : Folder K) (k : Bytes) → P w → Keeps P (keep_in_file x i guard w k)
    unfolding keep_in_file
    keep_in_file-Keeps w k h =
        Keeps-bind P (leaving w (read_key_file x w i.master_path)) _ (Keeps-leaving P w _ h)
          (λ w1 there h1.
            Keeps-bind P (publish x i guard w1 k there) _ (publish-Keeps w1 k there h1)
              (λ w2 _ h2. Keeps-ok P w2 _ h2))

    after_store-Keeps :
        (w : Folder K) (k : Bytes) (stored : Bool)
        → P w
        → Keeps P (after_store x i guard w k stored)
    unfolding after_store
    after_store-Keeps w k true h = verify-Keeps w k (slot_get i w) h
    after_store-Keeps w k false h = elim (Bool-cases i.allow_file) [
      | inr off ↦ simp off (Keeps-err P w _ h)
      | inl on ↦ simp on (keep_in_file-Keeps w k h)
    ]

    seed_keychain-Keeps :
        (w : Folder K) (legacy : Option Bytes) → P w → Keeps P (seed_keychain x i guard w legacy)
    unfolding seed_keychain
    seed_keychain-Keeps w legacy h =
        Keeps-bind P (leaving w (file_fallback x i guard w)) _ (Keeps-leaving P w _ h)
          (λ w1 file_key h1.
            Keeps-bind P (leaving w1 (adopt_or_generate i guard (or file_key legacy))) _
              (Keeps-leaving P w1 _ h1)
              (λ w2 k h2. after_store-Keeps _ k _ (slot_store-Keeps k w2 h2)))

    use_file-Keeps :
        (w : Folder K) (legacy : Option Bytes) → P w → Keeps P (use_file x i guard w legacy)
    unfolding use_file
    use_file-Keeps w legacy h = elim (Bool-cases i.allow_file) [
      | inr off ↦ rw off (Keeps-err P w _ h)
      | inl on ↦ rw on (
          Keeps-bind P (leaving w (read_key_file x w i.master_path)) _ (Keeps-leaving P w _ h)
            (λ w1 there h1. elim (Option-cases there) [
              | inr (k, e) ↦ rw e (Keeps-ok P w1 _ h1)
              | inl e ↦ rw e (
                  Keeps-bind P (leaving w (adopt_or_generate i guard legacy)) _
                    (Keeps-leaving P w _ h)
                    (λ w2 k h2.
                      Keeps-bind P (write_key_file x i w2 i.master_path k) _
                        (write_key_file-Keeps w2 i.master_path k h2)
                        (λ w3 _ h3. Keeps-ok P w3 _ h3)))
            ]))
    ]

    from_slot-Keeps :
        (w : Folder K) (legacy : Option Bytes) (state : KeychainState)
        → P w
        → Keeps P (from_slot x i guard w legacy state)
    unfolding from_slot
    from_slot-Keeps w legacy (KeychainState.key k) h =
        Keeps-bind P (retire_matching_legacy_key x i w k) _ (retire_matching_legacy_key-Keeps w k h)
          (λ w1 _ h1. Keeps-ok P w1 _ h1)
    from_slot-Keeps w legacy KeychainState.empty h = seed_keychain-Keeps w legacy h
    from_slot-Keeps w legacy KeychainState.corrupt h = Keeps-err P w _ h
    from_slot-Keeps w legacy KeychainState.unavailable h = use_file-Keeps w legacy h

    from_env-Keeps :
        (w : Folder K) (value : Option String) → P w → Keeps P (from_env x i guard w value)
    unfolding from_env
    from_env-Keeps w none h =
        Keeps-bind P (leaving w (read_key_file x w i.legacy_path)) _ (Keeps-leaving P w _ h)
          (λ w1 legacy h1. from_slot-Keeps w1 legacy (slot_get i w1) h1)
    from_env-Keeps w (some encoded) h = elim (Option-cases (decode_key x encoded)) [
      | inl bad ↦ rw (from_env, bad) (Keeps-err P w _ h)
      | inr (k, good) ↦ rw (from_env, good) (Keeps-ok P w _ h)
    ]

    -- The ladder leaves what key files and the keychain leave, on every branch.
    pub load_master_key_guarded-Keeps :
        (w : Folder K) → P w → Keeps P (load_master_key_guarded x i guard w)
    unfolding load_master_key_guarded
    load_master_key_guarded-Keeps w h = from_env-Keeps w i.env_value h
