-- ===== src/Custody/Resolve.antt =====
-- Resolution of the master key (crates/core/crypto/src/custody.rs): the key that the ladder finds is
-- checked against the key check value on record, or against sealed data.
pub mod Recorded
pub mod Twice
pub mod Capped
pub mod Refusing
use ryu_rooms.Prelude.{
  String, Bool, true, false, not, ◌&&◌, ◌||◌, Option, none, some, List, [], ◌∷◌, ◌++◌, ◌==◌,
  if◌then◌else◌,
}
use ryu_rooms.Result.{Result, ok, err, ◌>>=◌}
use ryu_rooms.Bytes.{Bytes}
use ryu_rooms.Content.{Primitives}
use ryu_rooms.Content.Keys.{key_check_value}
use ryu_rooms.Custody.{
  MasterKeySource, KeySourceKind, MasterKeyHealth, KeychainState, KeyProbe, KcvRecord, RetiredEntry,
  CustodyError, key_mismatch, message, OnDisk, holding, Folder, CustodyInputs, Run, leaving,
  folder_of, pos, as_str, name, custody_of, same_bytes, read_json, check_data_format, slot_get,
  decode_key, read_key_file, effective_source,
}
use ryu_rooms.Custody.Ladder.{load_master_key_guarded}
use ryu_rooms.Custody.Vault.{load_all, retire}

pub record Resolution : Type 0 where
  pub key : Bytes
  pub source : MasterKeySource
  pub retired : List Bytes
  pub health : MasterKeyHealth

abbrev pub Candidate : Type 0
Candidate = KeySourceKind × Bytes

-- The reason against a fresh key: one is on record, or sealed data was found.
unfoldable pub guard_evidence : Option KcvRecord → Option String → Option String
guard_evidence (some r) evidence = some "a key check value is recorded"
guard_evidence none evidence = evidence

-- `Iterator::find` by the key.
unfoldable pub find_key : (Bytes → Bool) → List Candidate → Option Candidate
find_key p [] = none
find_key p ((kind, k) ∷ rest) = let later = find_key p rest in if p k then some (kind, k) else later

abbrev from_source : KeySourceKind → Option Bytes → List Candidate
from_source kind (some k) = (kind, k) ∷ []
from_source kind none = []

abbrev readable : Result CustodyError (Option Bytes) → Option Bytes
readable (ok found) = found
readable (err _) = none

abbrev held : KeychainState → Option Bytes
held (KeychainState.key k) = some k
held KeychainState.empty = none
held KeychainState.corrupt = none
held KeychainState.unavailable = none

abbrev retired_candidates : List (RetiredEntry × Bytes) → List Candidate
retired_candidates [] = []
retired_candidates ((entry, k) ∷ rest) =
    (KeySourceKind.retired entry.kcv, k) ∷ retired_candidates rest

unfoldable pub retired_keys : List (RetiredEntry × Bytes) → Bytes → List Bytes
retired_keys [] exclude = []
retired_keys ((entry, k) ∷ rest) exclude =
    let keys = retired_keys rest exclude in if same_bytes k exclude then keys else k ∷ keys

unfoldable pub contains : List Bytes → Bytes → Bool
contains [] k = false
contains (j ∷ js) k = same_bytes j k || contains js k

-- The retired keys, with the key that was not the one.
unfoldable pub with_key : List Bytes → Bytes → List Bytes
with_key keys k = if contains keys k then keys else keys ++ k ∷ []

unfoldable pub is_env : MasterKeySource → Bool
is_env MasterKeySource.env = true
is_env MasterKeySource.keychain = false
is_env MasterKeySource.file = false

unfoldable pub is_keychain : MasterKeySource → Bool
is_keychain MasterKeySource.keychain = true
is_keychain MasterKeySource.env = false
is_keychain MasterKeySource.file = false

unfoldable pub any_kcv : String → List (RetiredEntry × Bytes) → Bool
any_kcv kcv [] = false
any_kcv kcv ((entry, k) ∷ rest) = entry.kcv == kcv || any_kcv kcv rest

unfoldable pub did_pass : KeyProbe → Bool
did_pass KeyProbe.passed = true
did_pass KeyProbe.no_sealed_data = false
did_pass KeyProbe.failed = false

module _ {K : Type 0} (i : CustodyInputs K) where
  unfoldable pub write_kcv_record : Folder K → String → String → Run K (Unit {0})
  write_kcv_record w kcv custody =
      if i.writable i.kcv_path
      then ok (
        record w {
          kcv_record =
              holding (record { v = 1; kcv = kcv; custody = custody; written_at = pos i.now });
        },
        tt,
      )
      else err (w, message "writing the key check value")

module _ (x : Primitives) {K : Type 0} (i : CustodyInputs K) where
  unfoldable pub candidates : Folder K → List Candidate
  candidates w =
      from_source KeySourceKind.env
        (elim i.env_value [ some encoded ↦ decode_key x encoded | none ↦ none ])
      ++ from_source KeySourceKind.keychain (held (slot_get i w))
      ++ from_source KeySourceKind.file (readable (read_key_file x w i.master_path))
      ++ (if i.legacy_path == i.master_path
          then []
          else from_source KeySourceKind.legacy_memory (readable (read_key_file x w i.legacy_path)))
      ++ retired_candidates (load_all x i w)

  unfoldable pub matching : Folder K → String → Option Candidate
  matching w kcv = find_key (λ k. key_check_value x k == kcv) (candidates w)

  -- A key other than the one on record stays readable. A failure is only logged.
  unfoldable pub retire_mismatched : Folder K → Bytes → MasterKeySource → Folder K
  unfolding is_keychain
  retire_mismatched w primary source =
      if is_env source then w else folder_of (retire x i w primary (is_keychain source))

  -- The ladder refused: a candidate that matches the record still recovers the folder.
  unfoldable pub recover_refused : Folder K → Option KcvRecord → CustodyError → Run K Resolution
  recover_refused w none e = err (w, e)
  recover_refused w (some r) e = elim (matching w r.kcv) [
    | some (kind, k) ↦ ok (
      w,
      record {
        key = k;
        source = custody_of kind;
        retired = retired_keys (load_all x i w) k;
        health = MasterKeyHealth.recovered_from (name kind);
      },
    )
    | none ↦ err (w, e)
  ]

  unfoldable pub as_found : Folder K → Bytes → MasterKeySource → Resolution
  as_found w primary source = record {
    key = primary;
    source = source;
    retired = retired_keys (load_all x i w) primary;
    health = MasterKeyHealth.healthy;
  }

  -- Another candidate in place of the key that was found, in the folder `w` before it is retired.
  unfoldable pub in_place_of : Folder K → Bytes → Candidate → Resolution
  in_place_of w primary (kind, k) = record {
    key = k;
    source = custody_of kind;
    retired = with_key (retired_keys (load_all x i w) k) primary;
    health = MasterKeyHealth.recovered_from (name kind);
  }

  unfoldable pub against_record : Folder K → KcvRecord → Bytes → MasterKeySource → Run K Resolution
  against_record w r primary source =
      let primary_kcv = key_check_value x primary in
      let recovered : Run K Resolution = elim (matching w r.kcv) [
        | some c ↦ ok (retire_mismatched w primary source, in_place_of w primary c)
        | none ↦ err (w, key_mismatch "no candidate matches the key that sealed this data folder")
      ] in
      if r.kcv == primary_kcv
      then ok (w, as_found w primary source)
      else if is_env source && not (any_kcv primary_kcv (load_all x i w))
      then err
          (w, key_mismatch "RYU_MASTER_KEY does not match the key that sealed this data folder")
      else recovered

  unfoldable pub record_found : Folder K → Bytes → MasterKeySource → Run K Resolution
  record_found w primary source = do
    (w1, _) ←
        write_kcv_record i w (key_check_value x primary)
          (as_str (effective_source x i w source primary))
    ok (w1, as_found w primary source)

  -- The first candidate other than the key that was found that opens sealed data.
  unfoldable pub opening : Folder K → Bytes → Option Candidate
  opening w primary =
      find_key (λ k. not (same_bytes k primary) && did_pass (i.probe k)) (candidates w)

  unfoldable pub record_other : Folder K → Bytes → MasterKeySource → Run K Resolution
  record_other w primary source = elim (opening w primary) [
    | none ↦ err (w, key_mismatch "no candidate opens the sealed messages of this data folder")
    | some c ↦ (do
      (w1, _) ←
          write_kcv_record i (retire_mismatched w primary source) (key_check_value x (c.1))
            (name (c.0))
      ok (w1, in_place_of w primary c))
  ]

  unfoldable pub by_probe : Folder K → Bytes → MasterKeySource → KeyProbe → Run K Resolution
  by_probe w primary source KeyProbe.passed = record_found w primary source
  by_probe w primary source KeyProbe.no_sealed_data = record_found w primary source
  by_probe w primary source KeyProbe.failed = record_other w primary source

  unfoldable pub judge : Folder K → Option KcvRecord → Bytes → MasterKeySource → Run K Resolution
  judge w (some r) primary source = against_record w r primary source
  judge w none primary source =
      if not i.records_kcv
      then ok (w, as_found w primary source)
      else by_probe w primary source (i.probe primary)

  unfoldable pub checked : Option KcvRecord → Run K (Bytes × MasterKeySource) → Run K Resolution
  checked recorded (ok (w, (primary, source))) = judge w recorded primary source
  checked recorded (err (w, e)) = recover_refused w recorded e

  unfoldable pub resolve : Folder K → Run K Resolution
  resolve w = do
    (w1, _) ← leaving w (check_data_format w)
    (w2, recorded) ← leaving w1 (read_json w1.kcv_record)
    checked recorded (load_master_key_guarded x i (guard_evidence recorded i.sealed_evidence) w2)
