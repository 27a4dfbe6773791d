-- ===== src/Custody/Resolve/Capped.antt =====
-- The number of retired keys (crates/core/crypto/src/custody.rs) through a resolution.
use ryu_rooms.Prelude.{
  ℕ, ◌≤◌, Option, none, some, List, length, Option-cases, Bool-cases, inl, inr, not, ◌&&◌, ◌==◌,
  String,
}
use ryu_rooms.Result.{ok, err}
use ryu_rooms.Bytes.{Bytes}
use ryu_rooms.Content.{Primitives}
use ryu_rooms.Content.Keys.{key_check_value}
use ryu_rooms.Custody.{
  MasterKeySource, KeyProbe, KcvRecord, RetiredEntry, CustodyError, OnDisk, missing, unreadable,
  holding, Folder, CustodyInputs, Run, leaving, folder_of, read_json, check_data_format,
  effective_source, as_str, name,
}
use ryu_rooms.Custody.Vault.{load_all}
use ryu_rooms.Custody.Keeping.{
  IsStable, Keeps, Keeps-ok, Keeps-err, Keeps-bind, Keeps-leaving, load_master_key_guarded-Keeps,
}
use ryu_rooms.Custody.Resolve.{
  matching, retire_mismatched, recover_refused, against_record, record_found, opening, record_other,
  by_probe, judge, checked, resolve, write_kcv_record, is_env, any_kcv, guard_evidence,
}
use ryu_rooms.Custody.Resolve.Recorded.{retire_mismatched-Keeps}

-- The number of keys in the index, none where there is no index that can be read.
abbrev pub retired_count : OnDisk (List RetiredEntry) → ℕ
retired_count missing = 0
retired_count unreadable = 0
retired_count (holding keys) = length keys

abbrev pub IsCapped : {K : Type 0} → Folder K → Type 0
IsCapped w = retired_count w.retired_index ≤ 4

IsCapped-IsStable : {K : Type 0} → IsStable {K = K} IsCapped
IsCapped-IsStable = record { files = λ w fs h. h; slots = λ w ss h. h; index = λ w keys few h. few }

module _ (x : Primitives) {K : Type 0} (i : CustodyInputs K) where
  write_kcv_record-Keeps :
      (w : Folder K) (kcv custody : String)
      → IsCapped w
      → Keeps IsCapped (write_kcv_record i w kcv custody)
  unfolding write_kcv_record
  write_kcv_record-Keeps w kcv custody h = elim (Bool-cases (i.writable i.kcv_path)) [
    | inl on ↦ rw on (Keeps-ok IsCapped _ _ h)
    | inr off ↦ rw off (Keeps-err IsCapped w _ h)
  ]

  retired-IsCapped :
      (w : Folder K) (primary : Bytes) (source : MasterKeySource)
      → IsCapped w
      → IsCapped (retire_mismatched x i w primary source)
  retired-IsCapped = retire_mismatched-Keeps x i IsCapped IsCapped-IsStable

  against_record-Keeps :
      (w : Folder K) (r : KcvRecord) (primary : Bytes) (source : MasterKeySource)
      → IsCapped w
      → Keeps IsCapped (against_record x i w r primary source)
  unfolding against_record
  against_record-Keeps w r primary source h =
      elim (Bool-cases (r.kcv == key_check_value x primary)) [
        | inl same ↦ rw same (Keeps-ok IsCapped w _ h)
        | inr other ↦
            elim (Bool-cases
              (is_env source && not (any_kcv (key_check_value x primary) (load_all x i w)))) [
                | inl refused ↦ rw (other, refused) (Keeps-err IsCapped w _ h)
                | inr tried ↦ elim (Option-cases (matching x i w r.kcv)) [
                  | inl lost ↦ rw (other, tried, lost) (Keeps-err IsCapped w _ h)
                  | inr (c, found) ↦
                      rw (other, tried, found)
                        (Keeps-ok IsCapped _ _ (retired-IsCapped w primary source h))
                ]
              ]
      ]

  record_found-Keeps :
      (w : Folder K) (primary : Bytes) (source : MasterKeySource)
      → IsCapped w
      → Keeps IsCapped (record_found x i w primary source)
  unfolding record_found
  record_found-Keeps w primary source h =
      Keeps-bind IsCapped
        (write_kcv_record i w (key_check_value x primary)
          (as_str (effective_source x i w source primary)))
        _ (write_kcv_record-Keeps w _ _ h) (λ left _ kept. Keeps-ok IsCapped left _ kept)

  record_other-Keeps :
      (w : Folder K) (primary : Bytes) (source : MasterKeySource)
      → IsCapped w
      → Keeps IsCapped (record_other x i w primary source)
  unfolding record_other
  record_other-Keeps w primary source h = elim (Option-cases (opening x i w primary)) [
    | inl lost ↦ rw (record_other, lost) (Keeps-err IsCapped w _ h)
    | inr ((kind, k), found) ↦
        rw (record_other, found)
          (Keeps-bind IsCapped
            (write_kcv_record i (retire_mismatched x i w primary source) (key_check_value x k)
              (name kind))
            _ (write_kcv_record-Keeps _ _ _ (retired-IsCapped w primary source h))
            (λ left _ kept. Keeps-ok IsCapped left _ kept))
  ]

  by_probe-Keeps :
      (w : Folder K) (primary : Bytes) (source : MasterKeySource) (probe : KeyProbe)
      → IsCapped w
      → Keeps IsCapped (by_probe x i w primary source probe)
  unfolding by_probe
  by_probe-Keeps w primary source KeyProbe.passed h = record_found-Keeps w primary source h
  by_probe-Keeps w primary source KeyProbe.no_sealed_data h = record_found-Keeps w primary source h
  by_probe-Keeps w primary source KeyProbe.failed h = record_other-Keeps w primary source h

  recover_refused-Keeps :
      (w : Folder K) (recorded : Option KcvRecord) (e : CustodyError)
      → IsCapped w
      → Keeps IsCapped (recover_refused x i w recorded e)
  unfolding recover_refused
  recover_refused-Keeps w none e h = Keeps-err IsCapped w e h
  recover_refused-Keeps w (some r) e h = elim (Option-cases (matching x i w r.kcv)) [
    | inl lost ↦ rw (recover_refused, lost) (Keeps-err IsCapped w e h)
    | inr (c, found) ↦ rw (recover_refused, found) (Keeps-ok IsCapped w _ h)
  ]

  checked-Keeps :
      (recorded : Option KcvRecord) (run : Run K (Bytes × MasterKeySource))
      → Keeps IsCapped run
      → Keeps IsCapped (checked x i recorded run)
  unfolding checked judge
  checked-Keeps (some r) (ok (w, (primary, source))) k =
      against_record-Keeps w r primary source k.kept
  checked-Keeps none (ok (w, (primary, source))) k = elim (Bool-cases i.records_kcv) [
    | inl on ↦ simp on (by_probe-Keeps w primary source (i.probe primary) k.kept)
    | inr off ↦ simp off (Keeps-ok IsCapped w _ k.kept)
  ]
  checked-Keeps recorded (err (w, e)) k = recover_refused-Keeps w recorded e k.kept

  -- No resolution, whether it succeeds or not, makes the index of the retired keys longer than four.
  pub resolve-IsCapped : (w : Folder K) → IsCapped w → IsCapped (folder_of (resolve x i w))
  unfolding resolve
  resolve-IsCapped w h =
      (Keeps-bind IsCapped (leaving w (check_data_format w)) _ (Keeps-leaving IsCapped w _ h)
        (λ w1 _ h1.
          Keeps-bind IsCapped (leaving w1 (read_json w1.kcv_record)) _
            (Keeps-leaving IsCapped w1 _ h1)
            (λ w2 recorded h2. checked-Keeps recorded _ (
              load_master_key_guarded-Keeps x IsCapped IsCapped-IsStable i
                (guard_evidence recorded i.sealed_evidence) w2 h2)))).kept
