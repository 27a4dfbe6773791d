-- ===== src/Examples/Keys.antt =====
-- Runs of the custody of the master key (crates/core/crypto/src/custody.rs): a keychain of one slot.
use ryu_rooms.Bytes.Utf8.{as_bytes, encode}
use ryu_rooms.Custody.{
  as_str, check_data_format, custody_of, decode_key, effective_source, holds_key, is_above,
  key_file_copy, key_in, name, published, read_key_file, retire_matching_legacy_key, same_bytes,
  slot_get, slot_store, write_key_file,
}
use ryu_rooms.Custody.Ladder.{
  adopt_or_generate, after_store, file_fallback, from_env, from_slot, keep_in_file, may_generate,
  publish, seed_keychain, use_file, verify,
}
use ryu_rooms.Custody.Resolve.{
  against_record, any_kcv, as_found, by_probe, candidates, checked, contains, did_pass, find_key,
  guard_evidence, in_place_of, is_env, is_keychain, judge, matching, opening, record_found,
  record_other, recover_refused, retire_mismatched, retired_keys, with_key, write_kcv_record,
}
use ryu_rooms.Custody.Vault.{load_all, load_each, read_retired_index}
use ryu_rooms.Examples.{decimal, numeral}
use ryu_rooms.Examples.Primitives.{numbers, run, sum, tag}
use ryu_rooms.Text.{is_whitespace, trim, trim_end_matches, trim_start_matches}
use ryu_rooms.Prelude.{◌==◌, if◌then◌else◌, arith, ◌≡◌, refl, true, false, Option, none, some, []}
use ryu_rooms.Result.{ok, err}
use ryu_rooms.Bytes.{Bytes}
use ryu_rooms.Content.Keys.{key_check_value}
use ryu_rooms.Custody.{
  MasterKeySource, MasterKeyHealth, KeychainState, KeyProbe, KcvRecord, missing, holding, Folder,
  CustodyInputs, folder_of, key_mismatch, pos,
}
use ryu_rooms.Custody.Ladder.{load_master_key_guarded}
use ryu_rooms.Custody.Ladder.Guarded.{IsHeld, load_master_key_guarded-IsHeld}
use ryu_rooms.Custody.Resolve.{Resolution, resolve}
use ryu_rooms.Custody.Resolve.Recorded.{resolve-Records}
use ryu_rooms.Custody.Resolve.Twice.{resolve-resolve}
use ryu_rooms.Custody.Resolve.Capped.{IsCapped, resolve-IsCapped}
use ryu_rooms.Custody.Resolve.Refusing.{EnvUse, resolve-EnvUse}
use ryu_rooms.Examples.Primitives.{toy, replicate, letters}

abbrev slot : Option Bytes → KeychainState
slot none = KeychainState.empty
slot (some k) = KeychainState.key k

abbrev inputs : CustodyInputs (Option Bytes)
unfolding replicate
inputs = record {
  env_value = none;
  get = λ account held. slot held;
  store = λ account k held. (true, some k);
  keychain_enabled = true;
  account = "master-key";
  master_path = "master.key";
  legacy_path = "memory.key";
  kcv_path = "master-key.kcv";
  retired_index_path = "retired-keys.json";
  retired_dir = "retired";
  allow_file = true;
  records_kcv = true;
  probe = λ k. KeyProbe.no_sealed_data;
  sealed_evidence = none;
  writable = λ path. true;
  generated = replicate 32 1;
  now = 100;
}

-- A fresh folder, with a keychain that is empty.
abbrev fresh : Folder (Option Bytes)
fresh = record {
  files = λ path. missing;
  kcv_record = missing;
  retired_index = missing;
  data_format = missing;
  slots = none;
}

abbrev first_record : KcvRecord
first_record = record { v = 1; kcv = "16"; custody = "keychain"; written_at = pos 100 }

-- After the first start the keychain holds the key, and its value is on record.
abbrev started : Folder (Option Bytes)
unfolding replicate
started = record fresh { kcv_record = holding first_record; slots = some (replicate 32 1) }

abbrev first_key : Resolution
unfolding replicate
first_key = record {
  key = replicate 32 1;
  source = MasterKeySource.keychain;
  retired = [];
  health = MasterKeyHealth.healthy;
}

first_start : resolve toy inputs fresh ≡ ok (started, first_key)
unfolding replicate tag run letters numbers sum trim trim_end_matches trim_start_matches
    is_whitespace decimal numeral as_bytes encode key_check_value is_above check_data_format
    slot_get slot_store same_bytes decode_key key_in read_key_file published write_key_file
    retire_matching_legacy_key holds_key key_file_copy effective_source as_str name custody_of
    may_generate adopt_or_generate file_fallback verify publish keep_in_file after_store
    seed_keychain use_file from_slot from_env load_master_key_guarded read_retired_index load_each
    load_all guard_evidence find_key retired_keys contains with_key is_env is_keychain any_kcv
    did_pass write_kcv_record candidates matching retire_mismatched recover_refused as_found
    in_place_of against_record record_found opening record_other by_probe judge checked resolve
first_start = refl

-- The second start has the key in the environment, and no keychain.
abbrev in_env : CustodyInputs (Option Bytes)
unfolding replicate letters run
in_env = record inputs { env_value = some (letters (replicate 32 1)); keychain_enabled = false }

abbrev second_key : Resolution
second_key = record first_key { source = MasterKeySource.env }

second_start : resolve toy in_env started ≡ ok (started, second_key)
unfolding replicate tag run letters numbers sum trim trim_end_matches trim_start_matches
    is_whitespace decimal numeral as_bytes encode key_check_value is_above check_data_format
    slot_get slot_store same_bytes decode_key key_in read_key_file published write_key_file
    retire_matching_legacy_key holds_key key_file_copy effective_source as_str name custody_of
    may_generate adopt_or_generate file_fallback verify publish keep_in_file after_store
    seed_keychain use_file from_slot from_env load_master_key_guarded read_retired_index load_each
    load_all guard_evidence find_key retired_keys contains with_key is_env is_keychain any_kcv
    did_pass write_kcv_record candidates matching retire_mismatched recover_refused as_found
    in_place_of against_record record_found opening record_other by_probe judge checked resolve
second_start = refl

resolve-resolve_example : key_check_value toy second_key.key ≡ key_check_value toy first_key.key
unfolding inputs
resolve-resolve_example =
    resolve-resolve toy inputs in_env fresh started started first_key second_key refl first_start
      second_start

resolve-Records_example :
    (started.kcv_record ≡ holding first_record)
    × (key_check_value toy second_key.key ≡ first_record.kcv)
unfolding started
resolve-Records_example =
    resolve-Records toy in_env started started first_record second_key refl second_start

held_start :
    load_master_key_guarded toy inputs (some "a key check value is recorded") started
    ≡ ok (started, (first_key.key, MasterKeySource.keychain))
unfolding replicate tag run letters numbers sum trim trim_end_matches trim_start_matches
    is_whitespace decimal numeral as_bytes encode key_check_value is_above check_data_format
    slot_get slot_store same_bytes decode_key key_in read_key_file published write_key_file
    retire_matching_legacy_key holds_key key_file_copy effective_source as_str name custody_of
    may_generate adopt_or_generate file_fallback verify publish keep_in_file after_store
    seed_keychain use_file from_slot from_env load_master_key_guarded read_retired_index load_each
    load_all guard_evidence find_key retired_keys contains with_key is_env is_keychain any_kcv
    did_pass write_kcv_record candidates matching retire_mismatched recover_refused as_found
    in_place_of against_record record_found opening record_other by_probe judge checked resolve
held_start = refl

load_master_key_guarded-IsHeld_example : IsHeld toy inputs started first_key.key
load_master_key_guarded-IsHeld_example =
    load_master_key_guarded-IsHeld toy inputs started "a key check value is recorded" started
      first_key.key MasterKeySource.keychain held_start

-- Another key in the keychain: the one on record is found in the key file, and the other is retired.
abbrev switched : Folder (Option Bytes)
unfolding replicate letters run
switched = record started {
  files = λ path. if path == "master.key" then holding (letters (replicate 32 1)) else missing;
  slots = some (replicate 32 2);
}

few_retired : IsCapped switched
unfolding switched
few_retired = omega arith

resolve-IsCapped_example : IsCapped (folder_of (resolve toy inputs switched))
resolve-IsCapped_example = resolve-IsCapped toy inputs switched few_retired

-- A key in the environment that is not the one on record.
abbrev other_key : Bytes
unfolding replicate
other_key = replicate 32 2

abbrev other_env : CustodyInputs (Option Bytes)
unfolding letters run
other_env = record inputs { env_value = some (letters other_key) }

resolve-EnvUse_example :
    EnvUse toy other_env started first_record (letters other_key) (resolve toy other_env started)
unfolding other_env started
resolve-EnvUse_example =
    resolve-EnvUse toy other_env started (letters other_key) first_record refl refl

other_start :
    resolve toy other_env started
    ≡ err
        (started, key_mismatch "RYU_MASTER_KEY does not match the key that sealed this data folder")
unfolding replicate tag run letters numbers sum trim trim_end_matches trim_start_matches
    is_whitespace decimal numeral as_bytes encode key_check_value is_above check_data_format
    slot_get slot_store same_bytes decode_key key_in read_key_file published write_key_file
    retire_matching_legacy_key holds_key key_file_copy effective_source as_str name custody_of
    may_generate adopt_or_generate file_fallback verify publish keep_in_file after_store
    seed_keychain use_file from_slot from_env load_master_key_guarded read_retired_index load_each
    load_all guard_evidence find_key retired_keys contains with_key is_env is_keychain any_kcv
    did_pass write_kcv_record candidates matching retire_mismatched recover_refused as_found
    in_place_of against_record record_found opening record_other by_probe judge checked resolve
other_start = refl
