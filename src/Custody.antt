-- ===== src/Custody.antt =====
-- The custody of the master key (crates/core/crypto/src/custody.rs, lib.rs): the data folder, what
-- resolution is given, and the key files. Ladder finds a key, Vault keeps the retired ones, and
-- Resolve checks the key that was found against the one on record.
pub mod Ladder
pub mod Vault
pub mod Resolve
pub mod Keeping
pub mod Giving
use Prim.Native.String.{◌++◌}
use ryu_rooms.Prelude.{
  ℕ, String, Bool, true, false, ◌&&◌, ◌||◌, not, Option, none, some, List, [], ◌∷◌, ◌==◌, length,
  ltb, eqb, if◌then◌else◌,
}
use ryu_rooms.Result.{Result, ok, err, ◌>>=◌}
use ryu_rooms.Text.{trim}
use ryu_rooms.Bytes.{Bytes}
use ryu_rooms.Content.{Primitives}

-- Integers, for `i64`.
pub data ℤ : Type 0 where
  pos : ℕ → ℤ
  negsuc : ℕ → ℤ

unfoldable pub is_above : ℤ → ℕ → Bool
is_above (pos n) bound = ltb bound n
is_above (negsuc n) bound = false

abbrev pub key_len : ℕ
key_len = 32

abbrev pub supported_min_reader : ℕ
supported_min_reader = 2

abbrev pub max_retired_keys : ℕ
max_retired_keys = 4

pub data MasterKeySource : Type 0 where
  env : MasterKeySource
  keychain : MasterKeySource
  file : MasterKeySource

pub data KeySourceKind : Type 0 where
  env : KeySourceKind
  keychain : KeySourceKind
  file : KeySourceKind
  legacy_memory : KeySourceKind
  retired : String → KeySourceKind

pub data MasterKeyHealth : Type 0 where
  unresolved : MasterKeyHealth
  healthy : MasterKeyHealth
  recovered_from : String → MasterKeyHealth
  mismatch : MasterKeyHealth

pub data KeychainState : Type 0 where
  key : Bytes → KeychainState
  empty : KeychainState
  corrupt : KeychainState
  unavailable : KeychainState

pub data KeyProbe : Type 0 where
  passed : KeyProbe
  no_sealed_data : KeyProbe
  failed : KeyProbe

pub record KcvRecord : Type 0 where
  pub v : ℕ
  pub kcv : String
  pub custody : String
  pub written_at : ℤ

pub record RetiredEntry : Type 0 where
  pub kcv : String
  pub custody : String
  pub retired_at : ℤ

pub record DataFormat : Type 0 where
  pub format : ℤ
  pub min_reader : ℤ

-- `anyhow::Error`: a `KeyMismatch`, or another message. A message leaves out the names it quotes.
pub data CustodyError : Type 0 where
  key_mismatch : String → CustodyError
  message : String → CustodyError

-- A file: not there, not readable as what it should hold, or what it holds.
pub data OnDisk (A : Type 0) : Type 0 where
  missing : OnDisk A
  unreadable : OnDisk A
  holding : A → OnDisk A

-- The data folder, with the text of each key file by its path, and the keychain of the system.
pub record Folder (K : Type 0) : Type 0 where
  pub files : String → OnDisk String
  pub kcv_record : OnDisk KcvRecord
  pub retired_index : OnDisk (List RetiredEntry)
  pub data_format : OnDisk DataFormat
  pub slots : K

-- What resolution is given. The keychain of the system is a type with a read and a store by
-- account; `writable` says at which paths a write succeeds, and `generated` is the fresh key.
pub record CustodyInputs (K : Type 0) : Type 0 where
  pub env_value : Option String
  pub get : String → K → KeychainState
  pub store : String → Bytes → K → Bool × K
  pub keychain_enabled : Bool
  pub account : String
  pub master_path : String
  pub legacy_path : String
  pub kcv_path : String
  pub retired_index_path : String
  pub retired_dir : String
  pub allow_file : Bool
  pub records_kcv : Bool
  pub probe : Bytes → KeyProbe
  pub sealed_evidence : Option String
  pub writable : String → Bool
  pub generated : Bytes
  pub now : ℕ

-- What a step leaves behind beside its result or its error.
abbrev pub Run : Type 0 → Type 0 → Type 0
Run K A = Result (Folder K × CustodyError) (Folder K × A)

abbrev pub leaving : {K A : Type 0} → Folder K → Result CustodyError A → Run K A
leaving w (ok a) = ok (w, a)
leaving w (err e) = err (w, e)

-- The folder that a run leaves.
abbrev pub folder_of : {K A : Type 0} → Run K A → Folder K
folder_of (ok (w, _)) = w
folder_of (err (w, _)) = w

-- `MasterKeySource::as_str`.
unfoldable pub as_str : MasterKeySource → String
as_str MasterKeySource.env = "env"
as_str MasterKeySource.keychain = "keychain"
as_str MasterKeySource.file = "file"

unfoldable pub name : KeySourceKind → String
name KeySourceKind.env = "env"
name KeySourceKind.keychain = "keychain"
name KeySourceKind.file = "file"
name KeySourceKind.legacy_memory = "memory"
name (KeySourceKind.retired kcv) = "retired:" ++ kcv

unfoldable pub custody_of : KeySourceKind → MasterKeySource
custody_of KeySourceKind.env = MasterKeySource.env
custody_of KeySourceKind.keychain = MasterKeySource.keychain
custody_of KeySourceKind.file = MasterKeySource.file
custody_of KeySourceKind.legacy_memory = MasterKeySource.file
custody_of (KeySourceKind.retired kcv) = MasterKeySource.file

-- Equality of keys.
unfoldable pub same_bytes : Bytes → Bytes → Bool
same_bytes [] [] = true
same_bytes [] (b ∷ bs) = false
same_bytes (a ∷ ks) [] = false
same_bytes (a ∷ ks) (b ∷ bs) = eqb a b && same_bytes ks bs

abbrev pub read_json : {A : Type 0} → OnDisk A → Result CustodyError (Option A)
read_json missing = ok none
read_json unreadable = err (message "parsing")
read_json (holding a) = ok (some a)

too_new : Option DataFormat → Result CustodyError (Unit {0})
too_new none = ok tt
too_new (some marker) =
    if is_above marker.min_reader supported_min_reader
    then err (message "this data folder was used by a newer Ryu")
    else ok tt

-- A folder that a newer build has marked is refused.
unfoldable pub check_data_format : {K : Type 0} → Folder K → Result CustodyError (Unit {0})
unfolding too_new
check_data_format w = do marker ← read_json w.data_format; too_new marker

abbrev pub is_missing : {A : Type 0} → OnDisk A → Bool
is_missing missing = true
is_missing unreadable = false
is_missing (holding _) = false

-- The file at `path` with another text.
abbrev pub put_file : {K : Type 0} → Folder K → String → String → Folder K
put_file w path text = record w { files = λ p. if p == path then holding text else w.files p }

abbrev pub remove_file : {K : Type 0} → Folder K → String → Folder K
remove_file w path = record w { files = λ p. if p == path then missing else w.files p }

-- The keychain that `with_host_inputs` chooses, at an account.
unfoldable pub slot_get : {K : Type 0} → CustodyInputs K → Folder K → KeychainState
slot_get i w = if i.keychain_enabled then i.get i.account w.slots else unavailable

unfoldable pub slot_store : {K : Type 0} → CustodyInputs K → Bytes → Folder K → Bool × Folder K
slot_store i k w =
    if i.keychain_enabled
    then (let (stored, slots) = i.store i.account k w.slots in (stored, record w { slots = slots }))
    else (false, w)

module _ (x : Primitives) where
  unfoldable pub decode_key : String → Option Bytes
  decode_key encoded = elim (x.b64_decode (trim encoded)) [
    | some raw ↦ if eqb (length raw) key_len then some raw else none
    | none ↦ none
  ]

  unfoldable pub key_in : OnDisk String → Result CustodyError (Option Bytes)
  key_in missing = ok none
  key_in unreadable = err (message "reading master key")
  key_in (holding encoded) = elim (decode_key encoded) [
    | some k ↦ ok (some k)
    | none ↦ err (message "master key is corrupt")
  ]

  module _ {K : Type 0} where
    unfoldable pub read_key_file : Folder K → String → Result CustodyError (Option Bytes)
    read_key_file w path = key_in (w.files path)

    -- The key that a file that is there already holds.
    unfoldable pub published : Folder K → Option Bytes → Run K Bytes
    published w none = err (w, message "master key vanished after another process created it")
    published w (some k) = ok (w, k)

    unfoldable pub write_key_file : CustodyInputs K → Folder K → String → Bytes → Run K Bytes
    unfolding published
    write_key_file i w path k =
        let there : Run K Bytes = (do
          (w1, found) ← leaving w (read_key_file w path)
          published w1 found) in
        if not (i.writable path)
        then err (w, message "writing temporary master key")
        else if is_missing (w.files path)
        then ok (put_file w path (x.b64_encode k), k)
        else there

    unfoldable pub retire_matching_legacy_key :
        CustodyInputs K → Folder K → Bytes → Run K (Unit {0})
    retire_matching_legacy_key i w k = do
      (w1, found) ← leaving w (read_key_file w i.legacy_path)
      elim found [
        | none ↦ ok (w1, tt)
        | some legacy_key ↦
            if not (same_bytes legacy_key k)
            then ok (w1, tt)
            else if i.writable i.legacy_path
            then ok (remove_file w1 i.legacy_path, tt)
            else err (w1, message "retiring verified legacy memory key")
      ]

    unfoldable pub holds_key : Folder K → String → Bytes → Bool
    holds_key w path k = elim (read_key_file w path) [
      | ok (some copy) ↦ same_bytes copy k
      | _ ↦ false
    ]

    unfoldable pub key_file_copy : CustodyInputs K → Folder K → Bytes → Option String
    key_file_copy i w k =
        if holds_key w i.master_path k
        then some i.master_path
        else if holds_key w i.legacy_path k
        then some i.legacy_path
        else none

    unfoldable pub effective_source :
        CustodyInputs K → Folder K → MasterKeySource → Bytes → MasterKeySource
    effective_source i w MasterKeySource.env k = MasterKeySource.env
    effective_source i w MasterKeySource.file k = MasterKeySource.file
    effective_source i w MasterKeySource.keychain k = elim (key_file_copy i w k) [
      | some path ↦ MasterKeySource.file
      | none ↦ MasterKeySource.keychain
    ]
