-- ===== src/Custody/Resolve/Refusing.antt =====
-- A key in the environment that is not that of the folder (crates/core/crypto/src/custody.rs).
use ryu_rooms.Prelude.{
  ◌≡◌, refl, sym, ap, String, true, none, some, Option, ◌==◌, eq_of_==, subst, Bool-cases,
  Option-cases, inl, inr,
}
use ryu_rooms.Result.{ok, err, Result-cases}
use ryu_rooms.Bytes.{Bytes}
use ryu_rooms.Content.{Primitives}
use ryu_rooms.Content.Keys.{key_check_value}
use ryu_rooms.Custody.{
  KcvRecord, CustodyError, Run, MasterKeyHealth, key_mismatch, custody_of, name, holding, Folder,
  CustodyInputs, check_data_format, decode_key, MasterKeySource, read_json,
}
use ryu_rooms.Custody.Ladder.{load_master_key_guarded, from_env}
use ryu_rooms.Custody.Vault.{load_all}
use ryu_rooms.Custody.Resolve.{
  Resolution, retired_keys, resolve, checked, judge, against_record, recover_refused, matching,
  retire_mismatched, as_found, in_place_of, is_env, any_kcv, guard_evidence,
}
use ryu_rooms.Custody.Resolve.Recorded.{matching_lem}

module _ (x : Primitives) {K : Type 0} (i : CustodyInputs K) where
  -- What a key in the environment may lead to in a folder that it leaves as it was.
  pub data EnvUse (w : Folder K) (r : KcvRecord) (encoded : String)
      : Run K Resolution → Type 0 where
    -- It fails.
    fails : {run : Run K Resolution} (e : CustodyError) → run ≡ err (w, e) → EnvUse w r encoded run
    -- The key is the one on record, and it is what is used.
    agrees :
        {run : Run K Resolution} (k : Bytes) (found : Resolution)
        → decode_key x encoded ≡ some k
        → key_check_value x k ≡ r.kcv
        → found.key ≡ k
        → run ≡ ok (w, found)
        → EnvUse w r encoded run
    -- The key is a retired one, and another candidate is the one on record.
    is_retired :
        {run : Run K Resolution} (k : Bytes) (found : Resolution)
        → decode_key x encoded ≡ some k
        → any_kcv (key_check_value x k) (load_all x i w) ≡ true
        → key_check_value x found.key ≡ r.kcv
        → run ≡ ok (w, found)
        → EnvUse w r encoded run
    -- There is no key in the text, and another candidate is the one on record.
    is_no_key :
        {run : Run K Resolution} (found : Resolution)
        → decode_key x encoded ≡ none
        → key_check_value x found.key ≡ r.kcv
        → run ≡ ok (w, found)
        → EnvUse w r encoded run

  module _ (w : Folder K) (r : KcvRecord) (encoded : String) where
    refused_env :
        (e : CustodyError)
        → decode_key x encoded ≡ none
        → EnvUse w r encoded (checked x i (some r) (err (w, e)))
    unfolding checked recover_refused
    refused_env e bad = elim (Option-cases (matching x i w r.kcv)) [
      | inl lost ↦ fails e (rw (recover_refused, lost) refl)
      | inr (c, found) ↦
          is_no_key
            (record {
              key = c.1;
              source = custody_of (c.0);
              retired = retired_keys (load_all x i w) (c.1);
              health = MasterKeyHealth.recovered_from (name (c.0));
            })
            bad (matching_lem x i w r.kcv c found) (rw (recover_refused, found) refl)
    ]

    judged_env :
        (k : Bytes)
        → decode_key x encoded ≡ some k
        → EnvUse w r encoded (checked x i (some r) (ok (w, (k, MasterKeySource.env))))
    unfolding checked judge against_record is_env retire_mismatched as_found in_place_of
    judged_env k good = elim (Bool-cases (r.kcv == key_check_value x k)) [
      | inl same ↦
          agrees k (as_found x i w k MasterKeySource.env) good (sym (eq_of_== same)) refl
            (rw same refl)
      | inr other ↦ elim (Bool-cases (any_kcv (key_check_value x k) (load_all x i w))) [
        | inr unknown ↦
            fails
              (key_mismatch "RYU_MASTER_KEY does not match the key that sealed this data folder")
              (rw (other, unknown) refl)
        | inl known ↦ elim (Option-cases (matching x i w r.kcv)) [
          | inl lost ↦
              fails (key_mismatch "no candidate matches the key that sealed this data folder")
                (rw (other, known, lost) refl)
          | inr (c, found) ↦
              is_retired k (in_place_of x i w k c) good known (matching_lem x i w r.kcv c found)
                (rw (other, known, found) refl)
        ]
      ]
    ]

  -- A key in the environment does not take over a folder. Where one is set and a key check value is
  -- on record, resolution leaves the folder as it was on every path: nothing is retired, recorded or
  -- stored. It fails, or it gives a key of the value on record; then the key in the environment is
  -- that key, or it is a retired one, or the text holds no key.
  pub resolve-EnvUse :
      (w : Folder K) (encoded : String) (r : KcvRecord)
      → i.env_value ≡ some encoded
      → w.kcv_record ≡ holding r
      → EnvUse w r encoded (resolve x i w)
  unfolding resolve load_master_key_guarded from_env
  resolve-EnvUse w encoded r is_set recorded = elim (Result-cases (check_data_format w)) [
    | inr (e, p) ↦ fails e (rw p refl)
    | inl (_, p) ↦
        let found : read_json w.kcv_record ≡ ok (some r) = ap read_json recorded in
        rw (p, found)
          (subst
            (λ v.
              EnvUse w r encoded (
                checked x i (some r)
                  (from_env x i (guard_evidence (some r) i.sealed_evidence) w v)))
            (sym is_set) (from_set (guard_evidence (some r) i.sealed_evidence)))
  ]
    where
      from_set :
          (guard : Option String)
          → EnvUse w r encoded (checked x i (some r) (from_env x i guard w (some encoded)))
      from_set guard = elim (Option-cases (decode_key x encoded)) [
        | inl bad ↦ rw (from_env, bad) (refused_env w r encoded _ bad)
        | inr (k, good) ↦ rw (from_env, good) (judged_env w r encoded k good)
      ]
