-- ===== src/Custody/Resolve/Twice.antt =====
-- One start after another (crates/core/crypto/src/custody.rs).
use ryu_rooms.Prelude.{
  ◌≡◌, refl, sym, ◌∙◌, String, true, Option, none, some, Option-cases, Bool-cases, inl, inr,
}
use ryu_rooms.Result.{ok, err}
use ryu_rooms.Bytes.{Bytes}
use ryu_rooms.Content.{Primitives}
use ryu_rooms.Content.Keys.{key_check_value}
use ryu_rooms.Custody.{
  MasterKeySource, KeyProbe, KcvRecord, Folder, CustodyInputs, Run, read_json, check_data_format,
  effective_source, as_str, name,
}
use ryu_rooms.Custody.Ladder.{load_master_key_guarded}
use ryu_rooms.Custody.Keeping.{load_master_key_guarded-Keeps}
use ryu_rooms.Custody.Giving.{
  Gives, Gives-ok, Gives-err, Gives-bind, Gives-leaving, Gives-mono, of_Gives,
}
use ryu_rooms.Custody.Resolve.{
  Resolution, retire_mismatched, recover_refused, as_found, in_place_of, record_found, opening,
  record_other, by_probe, judge, checked, resolve, write_kcv_record, guard_evidence,
}
use ryu_rooms.Custody.Resolve.Recorded.{
  Records, Records-IsStable, Keeping, checked-Gives, read_holding, resolve-Records,
}

module _ (x : Primitives) {K : Type 0} (i : CustodyInputs K) where
  -- The folder has a record of the key that resolution gives.
  abbrev Recording : Folder K → Resolution → Type 0
  Recording w found = (r : KcvRecord) × Keeping x i r w found

  write_kcv_record-Gives :
      (w : Folder K) (kcv custody : String)
      → Gives
          (λ (left : Folder K) (_ : Unit {0}). (r : KcvRecord) × Records r left × (r.kcv ≡ kcv))
          (write_kcv_record i w kcv custody)
  unfolding write_kcv_record
  write_kcv_record-Gives w kcv custody = elim (Bool-cases (i.writable i.kcv_path)) [
    | inl on ↦ rw on (Gives-ok _ _ _ (_, refl, refl))
    | inr off ↦ rw off (Gives-err _ w _)
  ]

  record_found-Gives :
      (w : Folder K) (primary : Bytes) (source : MasterKeySource)
      → Gives Recording (record_found x i w primary source)
  unfolding record_found as_found
  record_found-Gives w primary source =
      Gives-bind Recording _
        (write_kcv_record i w (key_check_value x primary)
          (as_str (effective_source x i w source primary)))
        _ (write_kcv_record-Gives w _ _)
        (λ left _ g. Gives-ok Recording left _ (g.0, (g.1, sym g.2)))

  record_other-Gives :
      (w : Folder K) (primary : Bytes) (source : MasterKeySource)
      → Gives Recording (record_other x i w primary source)
  unfolding record_other in_place_of
  record_other-Gives w primary source = elim (Option-cases (opening x i w primary)) [
    | inl lost ↦ rw (record_other, lost) (Gives-err Recording w _)
    | inr ((kind, k), found) ↦
        rw (record_other, found)
          (Gives-bind Recording _
            (write_kcv_record i (retire_mismatched x i w primary source) (key_check_value x k)
              (name kind))
            _ (write_kcv_record-Gives _ _ _)
            (λ left _ g. Gives-ok Recording left _ (g.0, (g.1, sym g.2))))
  ]

  by_probe-Gives :
      (w : Folder K) (primary : Bytes) (source : MasterKeySource) (probe : KeyProbe)
      → Gives Recording (by_probe x i w primary source probe)
  unfolding by_probe
  by_probe-Gives w primary source KeyProbe.passed = record_found-Gives w primary source
  by_probe-Gives w primary source KeyProbe.no_sealed_data = record_found-Gives w primary source
  by_probe-Gives w primary source KeyProbe.failed = record_other-Gives w primary source

  checked-Gives-Recording :
      (run : Run K (Bytes × MasterKeySource))
      → i.records_kcv ≡ true
      → Gives Recording (checked x i none run)
  unfolding checked judge recover_refused
  checked-Gives-Recording (ok (w, (primary, source))) on =
      simp on (by_probe-Gives w primary source (i.probe primary))
  checked-Gives-Recording (err (w, e)) on = Gives-err Recording w e

  resolve-Gives-Recording : (w : Folder K) → i.records_kcv ≡ true → Gives Recording (resolve x i w)
  unfolding resolve
  resolve-Gives-Recording w on = Gives-leaving Recording w (check_data_format w) _ (λ _ _.
      Gives-leaving Recording w (read_json w.kcv_record) _ (λ recorded e. judged recorded e))
    where
      judged :
          (recorded : Option KcvRecord)
          → read_json w.kcv_record ≡ ok recorded
          → Gives Recording (
              checked x i recorded
                (load_master_key_guarded x i (guard_evidence recorded i.sealed_evidence) w))
      judged none e = checked-Gives-Recording _ on
      judged (some r) e =
          Gives-mono (Keeping x i r) Recording _
            (checked-Gives x i r _ (
              load_master_key_guarded-Keeps x (Records r) (Records-IsStable r) i _ w
                (read_holding w.kcv_record r e)))
            (λ left found h. (r, h))

-- The key of a data folder does not change from one start to the next. Where resolution succeeds in
-- a host that records key check values, and succeeds again on the folder that it left, both give
-- keys of one key check value, whatever else the second is given: another environment, another
-- keychain, other evidence of sealed data.
pub resolve-resolve :
    (x : Primitives) {K : Type 0} (i j : CustodyInputs K) (w w1 w2 : Folder K)
    (first second : Resolution)
    → i.records_kcv ≡ true
    → resolve x i w ≡ ok (w1, first)
    → resolve x j w1 ≡ ok (w2, second)
    → key_check_value x second.key ≡ key_check_value x first.key
resolve-resolve x i j w w1 w2 first second on e1 e2 =
    let (r, (kept, same)) =
      of_Gives _ (resolve x i w) w1 first (resolve-Gives-Recording x i w on) e1 in
    (resolve-Records x j w1 w2 r second kept e2).1 ∙ sym same
