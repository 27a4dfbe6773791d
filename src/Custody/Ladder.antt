-- ===== src/Custody/Ladder.antt =====
-- The custody ladder (crates/core/crypto/src/lib.rs): the environment, the keychain, the key file.
pub mod Guarded
use ryu_rooms.Prelude.{String, Bool, not, Option, none, some, if◌then◌else◌}
use ryu_rooms.Result.{Result, ok, err, ◌>>=◌}
use ryu_rooms.Bytes.{Bytes}
use ryu_rooms.Content.{Primitives}
use ryu_rooms.Custody.{
  MasterKeySource, KeychainState, CustodyError, message, Folder, CustodyInputs, Run, leaving,
  slot_get, slot_store, decode_key, read_key_file, write_key_file, retire_matching_legacy_key,
  same_bytes,
}

-- `GenerationGuard::may_generate`, of the reason that there is against it.
unfoldable pub may_generate : Option String → Result String (Unit {0})
may_generate (some reason) = err reason
may_generate none = ok tt

-- `Option::or`.
abbrev pub or : Option Bytes → Option Bytes → Option Bytes
or (some k) other = some k
or none other = other

module _ {K : Type 0} (i : CustodyInputs K) (guard : Option String) where
  -- The key that is there, or a fresh one where the guard allows it.
  unfoldable pub adopt_or_generate : Option Bytes → Result CustodyError Bytes
  unfolding may_generate
  adopt_or_generate (some existing) = ok existing
  adopt_or_generate none = elim (may_generate guard) [
    | ok _ ↦ ok i.generated
    | err reason ↦ err (message "refusing to generate a new key")
  ]

module _ (x : Primitives) {K : Type 0} (i : CustodyInputs K) (guard : Option String) where
  -- The key file, where the host allows one.
  unfoldable pub file_fallback : Folder K → Result CustodyError (Option Bytes)
  file_fallback w = if i.allow_file then read_key_file x w i.master_path else ok none

  -- A key that the keychain took is read back.
  unfoldable pub verify : Folder K → Bytes → KeychainState → Run K (Bytes × MasterKeySource)
  verify w k (KeychainState.key persisted) =
      let verified : Run K (Bytes × MasterKeySource) = (do
        (w1, _) ← retire_matching_legacy_key x i w k
        ok (w1, (k, MasterKeySource.keychain))) in
      if same_bytes persisted k
      then verified
      else err (w, message "keychain returned different key material")
  verify w k KeychainState.corrupt =
      err (w, message "keychain master key was corrupt after storing it")
  verify w k KeychainState.empty =
      err (w, message "keychain master key could not be verified after storing it")
  verify w k KeychainState.unavailable =
      err (w, message "keychain master key could not be verified after storing it")

  -- The key that was published at the key file, or the one that is there.
  unfoldable pub publish : Folder K → Bytes → Option Bytes → Run K Bytes
  publish w k (some existing) = ok (w, existing)
  publish w k none = write_key_file x i w i.master_path k

  -- The key goes to the key file, where none stands there.
  unfoldable pub keep_in_file : Folder K → Bytes → Run K (Bytes × MasterKeySource)
  keep_in_file w k = do
    (w1, there) ← leaving w (read_key_file x w i.master_path)
    (w2, published) ← publish w1 k there
    ok (w2, (published, MasterKeySource.file))

  -- After the keychain was asked to store the key.
  unfoldable pub after_store : Folder K → Bytes → Bool → Run K (Bytes × MasterKeySource)
  after_store w k stored =
      if stored
      then verify w k (slot_get i w)
      else if not i.allow_file
      then err (w, message "no external master-key custody")
      else keep_in_file w k

  -- The keychain answers and holds no key.
  unfoldable pub seed_keychain : Folder K → Option Bytes → Run K (Bytes × MasterKeySource)
  seed_keychain w legacy = do
    (w1, file_key) ← leaving w (file_fallback w)
    (w2, k) ← leaving w1 (adopt_or_generate i guard (or file_key legacy))
    let (stored, w3) = slot_store i k w2
    after_store w3 k stored

  -- No keychain answers.
  unfoldable pub use_file : Folder K → Option Bytes → Run K (Bytes × MasterKeySource)
  use_file w legacy =
      let fresh : Run K (Bytes × MasterKeySource) = (do
        (w1, k) ← leaving w (adopt_or_generate i guard legacy)
        (w2, published) ← write_key_file x i w1 i.master_path k
        ok (w2, (published, MasterKeySource.file))) in
      if not i.allow_file then err (w, message "no external master-key custody") else (do
        (w1, there) ← leaving w (read_key_file x w i.master_path)
        elim there [ some k ↦ ok (w1, (k, MasterKeySource.file)) | none ↦ fresh ])

  unfoldable pub from_slot :
      Folder K → Option Bytes → KeychainState → Run K (Bytes × MasterKeySource)
  from_slot w legacy (KeychainState.key k) = do
    (w1, _) ← retire_matching_legacy_key x i w k
    ok (w1, (k, MasterKeySource.keychain))
  from_slot w legacy KeychainState.empty = seed_keychain w legacy
  from_slot w legacy KeychainState.corrupt = err (w, message "keychain master key is corrupt")
  from_slot w legacy KeychainState.unavailable = use_file w legacy

  -- The environment, which decides where it is set.
  unfoldable pub from_env : Folder K → Option String → Run K (Bytes × MasterKeySource)
  from_env w (some encoded) = elim (decode_key x encoded) [
    | some k ↦ ok (w, (k, MasterKeySource.env))
    | none ↦ err (w, message "RYU_MASTER_KEY is not a base64 32-byte key")
  ]
  from_env w none = do
    (w1, legacy) ← leaving w (read_key_file x w i.legacy_path)
    from_slot w1 legacy (slot_get i w1)

  unfoldable pub load_master_key_guarded : Folder K → Run K (Bytes × MasterKeySource)
  load_master_key_guarded w = from_env w i.env_value
