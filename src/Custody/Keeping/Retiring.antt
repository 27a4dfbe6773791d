-- ===== src/Custody/Keeping/Retiring.antt =====
-- What the retired keys (crates/core/crypto/src/custody.rs) leave as it was.
use ryu_rooms.Prelude.{
  ◌≤◌, ◌<◌, arith, ◌&&◌, String, Bool, true, false, List, [], ◌∷◌, ◌++◌, length, length-append, leb,
  Option-cases, Bool-cases, inl, inr, if◌then◌else◌,
}
use ryu_rooms.Bytes.{Bytes}
use ryu_rooms.Content.{Primitives}
use ryu_rooms.Content.Keys.{key_check_value}
use ryu_rooms.Custody.{
  RetiredEntry, Folder, CustodyInputs, leaving, pos, read_key_file, write_key_file,
}
use ryu_rooms.Custody.Vault.{
  read_retired_index, find_entry, write_retired_index, store_retired, retired_key_path, keep_file,
  retire_new, retire,
}
use ryu_rooms.Custody.Keeping.{
  Keeps, IsStable, Keeps-ok, Keeps-err, Keeps-bind, Keeps-leaving, write_key_file-Keeps,
}

module _ (x : Primitives) {K : Type 0} (P : Folder K → Type 0) (s : IsStable P)
    (i : CustodyInputs K) where
  store_retired-Keeps :
      (w : Folder K) (kcv : String) (k : Bytes) (prefer_keychain : Bool)
      → P w
      → P ((store_retired i w kcv k prefer_keychain).1)
  unfolding store_retired
  store_retired-Keeps w kcv k prefer_keychain h =
      elim (Bool-cases (prefer_keychain && i.keychain_enabled)) [
        | inl on ↦ rw on (s.slots w _ h)
        | inr off ↦ rw off h
      ]

  keep_file-Keeps :
      (w : Folder K) (in_keychain : Bool) (kcv : String) (k : Bytes)
      → P w
      → Keeps P (keep_file x i w in_keychain kcv k)
  unfolding keep_file
  keep_file-Keeps w true kcv k h = Keeps-ok P w _ h
  keep_file-Keeps w false kcv k h =
      Keeps-bind P (leaving w (read_key_file x w (retired_key_path i kcv))) _
        (Keeps-leaving P w _ h)
        (λ w1 found h1. elim (Option-cases found) [
          | inr (_, e) ↦ rw e (Keeps-ok P w1 _ h1)
          | inl e ↦ rw e (
              Keeps-bind P (write_key_file x i w1 (retired_key_path i kcv) k) _
                (write_key_file-Keeps x P s i w1 _ k h1) (λ w2 _ h2. Keeps-ok P w2 _ h2))
        ])

  write_retired_index-Keeps :
      (w : Folder K) (keys : List RetiredEntry)
      → length keys ≤ 4
      → P w
      → Keeps P (write_retired_index i w keys)
  unfolding write_retired_index
  write_retired_index-Keeps w keys few h = elim (Bool-cases (i.writable i.retired_index_path)) [
    | inl on ↦ rw on (Keeps-ok P _ _ (s.index w keys few h))
    | inr off ↦ rw off (Keeps-err P w _ h)
  ]

  retire_new-Keeps :
      (w : Folder K) (index : List RetiredEntry) (kcv : String) (k : Bytes) (prefer_keychain : Bool)
      → P w
      → Keeps P (retire_new x i w index kcv k prefer_keychain)
  unfolding retire_new
  retire_new-Keeps w index kcv k prefer_keychain h =
      let into = store_retired i w kcv k prefer_keychain in
      let entry : RetiredEntry = record {
        kcv = kcv;
        custody = if into.0 then "keychain" else "file";
        retired_at = pos i.now;
      } in
      elim (Bool-cases (leb 4 (length index))) [
        | inl full ↦ rw full (Keeps-err P w _ h)
        | inr room ↦
            let short : length index < 4 = ground (arith, room) in
            rw room (
              Keeps-bind P (keep_file x i into.1 into.0 kcv k) _
                (keep_file-Keeps _ _ kcv k (store_retired-Keeps w kcv k prefer_keychain h))
                (λ w3 _ h3.
                  Keeps-bind P (write_retired_index i w3 (index ++ entry ∷ [])) _
                    (write_retired_index-Keeps w3 _
                      (omega (arith, short, length-append index (entry ∷ []))) h3)
                    (λ w4 _ h4. Keeps-ok P w4 _ h4)))
      ]

  -- So does retiring a key, whose index is never longer than four.
  pub retire-Keeps :
      (w : Folder K) (k : Bytes) (prefer_keychain : Bool)
      → P w
      → Keeps P (retire x i w k prefer_keychain)
  unfolding retire
  retire-Keeps w k prefer_keychain h =
      Keeps-bind P (leaving w (read_retired_index w)) _ (Keeps-leaving P w _ h) (λ w1 index h1.
        elim (Option-cases (find_entry (key_check_value x k) index)) [
          | inr (existing, e) ↦ rw e (Keeps-ok P w1 existing h1)
          | inl e ↦ rw e (retire_new-Keeps w1 index (key_check_value x k) k prefer_keychain h1)
        ])
