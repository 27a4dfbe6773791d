-- ===== src/Custody/Vault.antt =====
-- The retired keys (crates/core/crypto/src/custody.rs): at most four, each in a key file or in an
-- account of the keychain, under an index of their key check values.
use Prim.Native.String.{◌++◌ as ◌<>◌}
use ryu_rooms.Prelude.{
  String, Bool, false, not, ◌&&◌, Option, none, some, List, [], ◌∷◌, ◌++◌, ◌==◌, length, leb,
  if◌then◌else◌,
}
use ryu_rooms.Result.{Result, ok, err, ◌>>=◌, ◌>>◌, reject}
use ryu_rooms.Bytes.{Bytes}
use ryu_rooms.Content.{Primitives}
use ryu_rooms.Content.Keys.{key_check_value}
use ryu_rooms.Custody.{
  KeychainState, RetiredEntry, CustodyError, message, holding, Folder, CustodyInputs, Run, leaving,
  read_json, read_key_file, write_key_file, same_bytes, max_retired_keys, pos,
}

-- `unwrap_or_default` of the keys of the index.
abbrev keys_of : Option (List RetiredEntry) → List RetiredEntry
keys_of none = []
keys_of (some keys) = keys

unfoldable pub read_retired_index :
    {K : Type 0} → Folder K → Result CustodyError (List RetiredEntry)
read_retired_index w = do index ← read_json w.retired_index; ok (keys_of index)

unfoldable pub find_entry : String → List RetiredEntry → Option RetiredEntry
find_entry kcv [] = none
find_entry kcv (entry ∷ entries) =
    let rest = find_entry kcv entries in if entry.kcv == kcv then some entry else rest

module _ {K : Type 0} (i : CustodyInputs K) where
  unfoldable pub account : String → String
  account kcv = i.account <> ":retired:" <> kcv

  unfoldable pub retired_key_path : String → String
  retired_key_path kcv = i.retired_dir <> "/" <> kcv <> ".key"

  unfoldable pub write_retired_index : Folder K → List RetiredEntry → Run K (Unit {0})
  write_retired_index w keys =
      if i.writable i.retired_index_path
      then ok (record w { retired_index = holding keys }, tt)
      else err (w, message "writing the retired-key index")

  -- Whether the keychain took a key under the account and reads it back.
  unfoldable pub store_retired : Folder K → String → Bytes → Bool → Bool × Folder K
  unfolding account
  store_retired w kcv k prefer_keychain =
      let (stored, slots) = i.store (account kcv) k w.slots in
      let back : Bool = elim (i.get (account kcv) slots) [
        | KeychainState.key persisted ↦ same_bytes persisted k
        | _ ↦ false
      ] in
      if prefer_keychain && i.keychain_enabled
      then (stored && back, record w { slots = slots })
      else (false, w)

module _ (x : Primitives) {K : Type 0} (i : CustodyInputs K) where
  retired_file : Folder K → String → Result CustodyError Bytes
  unfolding retired_key_path
  retired_file w kcv = do
    found ← read_key_file x w (retired_key_path i kcv)
    elim found [ some k ↦ ok k | none ↦ err (message "retired key file is missing") ]

  retired_slot : Folder K → String → Result CustodyError Bytes
  unfolding account
  retired_slot w kcv = do
    reject (not i.keychain_enabled) (message "the keychain is disabled")
    elim (i.get (account i kcv) w.slots) [
      | KeychainState.key k ↦ ok k
      | _ ↦ err (message "retired key is not readable from the keychain")
    ]

  unfoldable pub load : Folder K → RetiredEntry → Result CustodyError Bytes
  unfolding retired_file retired_slot
  load w entry = do
    k ← if entry.custody == "keychain" then retired_slot w entry.kcv else retired_file w entry.kcv
    reject (not (key_check_value x k == entry.kcv))
        (message "retired key does not match its key check value")
    ok k

  -- The key file of a key that the keychain did not take.
  unfoldable pub keep_file : Folder K → Bool → String → Bytes → Run K (Unit {0})
  unfolding retired_key_path
  keep_file w in_keychain kcv k = if in_keychain then ok (w, tt) else (do
    (w1, found) ← leaving w (read_key_file x w (retired_key_path i kcv))
    elim found [
      | some _ ↦ ok (w1, tt)
      | none ↦ (do (w2, _) ← write_key_file x i w1 (retired_key_path i kcv) k; ok (w2, tt))
    ])

  unfoldable pub retire_new :
      Folder K → List RetiredEntry → String → Bytes → Bool → Run K RetiredEntry
  retire_new w index kcv k prefer_keychain = do
    (w1, _) ←
        leaving w
          (reject (leb max_retired_keys (length index)) (message "the retired-key set is full"))
    let (in_keychain, w2) = store_retired i w1 kcv k prefer_keychain
    (w3, _) ← keep_file w2 in_keychain kcv k
    let entry : RetiredEntry = record {
      kcv = kcv;
      custody = if in_keychain then "keychain" else "file";
      retired_at = pos i.now;
    }
    (w4, _) ← write_retired_index i w3 (index ++ entry ∷ [])
    ok (w4, entry)

  unfoldable pub retire : Folder K → Bytes → Bool → Run K RetiredEntry
  retire w k prefer_keychain = do
    (w1, index) ← leaving w (read_retired_index w)
    elim (find_entry (key_check_value x k) index) [
      | some existing ↦ ok (w1, existing)
      | none ↦ retire_new w1 index (key_check_value x k) k prefer_keychain
    ]

  unfoldable pub load_each : Folder K → List RetiredEntry → List (RetiredEntry × Bytes)
  load_each w [] = []
  load_each w (entry ∷ entries) = elim (load w entry) [
    | ok k ↦ (entry, k) ∷ load_each w entries
    | err _ ↦ load_each w entries
  ]

  unfoldable pub load_all : Folder K → List (RetiredEntry × Bytes)
  load_all w = elim (read_retired_index w) [ ok entries ↦ load_each w entries | err _ ↦ [] ]
