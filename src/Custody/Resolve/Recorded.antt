-- ===== src/Custody/Resolve/Recorded.antt =====
-- The key check value on record (crates/core/crypto/src/custody.rs): what resolution makes of it.
use ryu_rooms.Prelude.{
  ◌≡◌, refl, sym, ap, ◌∙◌, String, Bool, true, not, ◌&&◌, Option, some, List, [], ◌∷◌, ◌==◌,
  eq_of_==, Option-cases, Bool-cases, inl, inr, arith,
}
use ryu_rooms.Result.{Result, ok, err}
use ryu_rooms.Bytes.{Bytes}
use ryu_rooms.Content.{Primitives}
use ryu_rooms.Content.Keys.{key_check_value}
use ryu_rooms.Custody.{
  MasterKeySource, KcvRecord, RetiredEntry, CustodyError, OnDisk, missing, unreadable, holding,
  Folder, CustodyInputs, Run, read_json, check_data_format,
}
use ryu_rooms.Custody.Vault.{load_all}
use ryu_rooms.Custody.Keeping.{IsStable, Keeps, load_master_key_guarded-Keeps}
use ryu_rooms.Custody.Keeping.Retiring.{retire-Keeps}
use ryu_rooms.Custody.Giving.{Gives, Gives-ok, Gives-err, Gives-leaving, of_Gives}
use ryu_rooms.Custody.Resolve.{
  Resolution, Candidate, find_key, matching, retire_mismatched, recover_refused, against_record,
  as_found, in_place_of, judge, checked, resolve, is_env, is_keychain, any_kcv,
}

find_key-holds :
    (p : Bytes → Bool) (cs : List Candidate) (c : Candidate)
    → find_key p cs ≡ some c
    → p (c.1) ≡ true
unfolding find_key
find_key-holds p [] c e = absurd (ground (arith, e))
find_key-holds p ((kind, k) ∷ rest) c e = elim (Bool-cases (p k)) [
  | inl on ↦
      let same : some (kind, k) ≡ some c = rw⁻¹ e (rw on refl) in
      let here : k ≡ c.1 = ap (λ (o : Candidate). o.1) (some_inj same) in rw⁻¹ here on
  | inr off ↦ find_key-holds p rest c (rw⁻¹ e (rw off refl))
]
  where
    some_inj : {a b : Candidate} → some a ≡ some b → a ≡ b
    some_inj h = cc

holding_read :
    {A : Type 0} (d : OnDisk A) (a : A) (found : Option A)
    → d ≡ holding a
    → read_json d ≡ ok found
    → found ≡ some a
holding_read {A} d a found h e = sym (ok_inj (sym (ap read_json h) ∙ e))
  where
    ok_inj : {a b : Option A} → ◌≡◌ {A = Result CustodyError (Option A)} (ok a) (ok b) → a ≡ b
    ok_inj e = cc

pub read_holding : {A : Type 0} (d : OnDisk A) (a : A) → read_json d ≡ ok (some a) → d ≡ holding a
read_holding missing a e = absurd cc
read_holding unreadable a e = absurd cc
read_holding (holding b) a e = ap holding cc

-- The record holds this key check value.
abbrev pub Records : {K : Type 0} → KcvRecord → Folder K → Type 0
Records r w = w.kcv_record ≡ holding r

pub Records-IsStable : {K : Type 0} (r : KcvRecord) → IsStable {K = K} (Records r)
Records-IsStable r = record { files = λ w fs h. h; slots = λ w ss h. h; index = λ w keys few h. h }

module _ (x : Primitives) {K : Type 0} (i : CustodyInputs K) where
  pub retire_mismatched-Keeps :
      (P : Folder K → Type 0)
      → IsStable P
      → (w : Folder K) (primary : Bytes) (source : MasterKeySource) → P w
      → P (retire_mismatched x i w primary source)
  unfolding retire_mismatched
  retire_mismatched-Keeps P s w primary source h = elim (Bool-cases (is_env source)) [
    | inl on ↦ rw on h
    | inr off ↦ rw off (retire-Keeps x P s i w primary (is_keychain source) h).kept
  ]

  pub matching_lem :
      (w : Folder K) (kcv : String) (c : Candidate)
      → matching x i w kcv ≡ some c
      → key_check_value x (c.1) ≡ kcv
  unfolding matching
  matching_lem w kcv c e = eq_of_== (find_key-holds _ _ c e)

  -- The folder and the key that resolution leaves belong to the record `r`.
  abbrev pub Keeping : KcvRecord → Folder K → Resolution → Type 0
  Keeping r w found = Records r w × (key_check_value x found.key ≡ r.kcv)

  against_record-Gives :
      (w : Folder K) (r : KcvRecord) (primary : Bytes) (source : MasterKeySource)
      → Records r w
      → Gives (Keeping r) (against_record x i w r primary source)
  unfolding against_record as_found in_place_of
  against_record-Gives w r primary source h =
      elim (Bool-cases (r.kcv == key_check_value x primary)) [
        | inl same ↦ rw same (Gives-ok (Keeping r) w _ (h, sym (eq_of_== same)))
        | inr other ↦
            elim (Bool-cases (is_env source && not (any_kcv (key_check_value x primary) all))) [
              | inl refused ↦ rw (other, refused) (Gives-err (Keeping r) w _)
              | inr tried ↦ elim (Option-cases (matching x i w r.kcv)) [
                | inl lost ↦ rw (other, tried, lost) (Gives-err (Keeping r) w _)
                | inr (c, found) ↦
                    rw (other, tried, found)
                      (Gives-ok (Keeping r) _ _ (
                        retire_mismatched-Keeps (Records r) (Records-IsStable r) w primary source h,
                        matching_lem w r.kcv c found,
                      ))
              ]
            ]
      ]
    where
      all : List (RetiredEntry × Bytes)
      all = load_all x i w

  recover_refused-Gives :
      (w : Folder K) (r : KcvRecord) (e : CustodyError)
      → Records r w
      → Gives (Keeping r) (recover_refused x i w (some r) e)
  unfolding recover_refused
  recover_refused-Gives w r e h = elim (Option-cases (matching x i w r.kcv)) [
    | inl lost ↦ rw (recover_refused, lost) (Gives-err (Keeping r) w _)
    | inr (c, found) ↦
        rw (recover_refused, found) (Gives-ok (Keeping r) w _ (h, matching_lem w r.kcv c found))
  ]

  pub checked-Gives :
      (r : KcvRecord) (run : Run K (Bytes × MasterKeySource))
      → Keeps (Records r) run
      → Gives (Keeping r) (checked x i (some r) run)
  unfolding checked judge
  checked-Gives r (ok (w, (primary, source))) k = against_record-Gives w r primary source k.kept
  checked-Gives r (err (w, e)) k = recover_refused-Gives w r e k.kept

  resolve-Gives-Keeping :
      (w : Folder K) (r : KcvRecord) → Records r w → Gives (Keeping r) (resolve x i w)
  unfolding resolve
  resolve-Gives-Keeping w r h = Gives-leaving (Keeping r) w (check_data_format w) _ (λ _ _.
      Gives-leaving (Keeping r) w (read_json w.kcv_record) _ (λ recorded e.
        let this : recorded ≡ some r = holding_read w.kcv_record r recorded h e in
        rw this (
          checked-Gives r _
            (load_master_key_guarded-Keeps x (Records r) (Records-IsStable r) i _ w h))))

  -- A data folder keeps its key. Where a key check value is on record and resolution succeeds, the
  -- key that it gives has that value and the record is as it was, whatever the environment, the
  -- keychain, the key files and the retired keys hold.
  pub resolve-Records :
      (w left : Folder K) (r : KcvRecord) (found : Resolution)
      → w.kcv_record ≡ holding r
      → resolve x i w ≡ ok (left, found)
      → (left.kcv_record ≡ holding r) × (key_check_value x found.key ≡ r.kcv)
  resolve-Records w left r found h e =
      of_Gives (Keeping r) (resolve x i w) left found (resolve-Gives-Keeping w r h) e
