-- ===== src/SealedLog.antt =====
-- Append-only sealed logs (crates/core/crypto/src/sealed_log.rs): reading one. Writer appends to one.
pub mod Writer
pub mod Compacting
pub mod Steps
pub mod Ending
pub mod Written
pub mod Reading
pub mod RoundTrip
pub mod Counting
pub mod Recovery
use ryu_rooms.Prelude.{
  ℕ, zero, suc, ◌+◌, Bool, true, false, not, ◌&&◌, Option, none, some, List, [], ◌∷◌, ◌++◌, length,
  take, ltb, leb, eqb, if◌then◌else◌,
}
use ryu_rooms.Result.{Result, ok, err, ◌>>=◌, ◌>>◌, reject, ok_or}
use ryu_rooms.Bytes.{Bytes, drop, strip, begins, be_onto, from_be, all_zero}
use ryu_rooms.Bytes.Utf8.{as_bytes}
use ryu_rooms.Seal.{ContentContext}
use ryu_rooms.Content.{
  Primitives, Error, refused, message, out_of_fuel, does_not_open, nonce_len, tag_len,
  sealed_log_magic,
}
use ryu_rooms.Content.Context.{associated_data}
use ryu_rooms.Content.Keys.{ContentKey, ContentCipher, hkdf32, candidate_keys}

abbrev pub sealed_log_header_len : ℕ
sealed_log_header_len = 32

abbrev pub max_record_body : ℕ
max_record_body = 16777216

abbrev pub salt_len : ℕ
salt_len = 20

abbrev pub log_version : ℕ
log_version = 1

pub data Tail : Type 0 where
  clean : Tail
  short : Tail
  final_failed : Tail

pub record Scan : Type 0 where
  pub records : List Bytes
  pub committed_end : ℕ
  pub tail : Tail

-- The key that opened the log stands for the cipher made from it.
pub record OpenedLog : Type 0 where
  pub header : Bytes
  pub key : Bytes
  pub retired : Bool
  pub scan : Scan

pub record RecoveredLog : Type 0 where
  pub records : List Bytes
  pub torn_tail : Bool
  pub needs_reseal : Bool

unfoldable pub is_torn : Tail → Bool
is_torn clean = false
is_torn short = true
is_torn final_failed = true

unfoldable pub torn_tail : Scan → Bool
unfolding is_torn
torn_tail s = is_torn s.tail

unfoldable pub record_aad : Bytes → ℕ → Bytes
record_aad header index = header ++ be_onto 8 index []

-- Version, flags and the reserved bytes, after the magic.
header_ok : Option Bytes → Result Error (Unit {0})
header_ok none = err (message "not an RYU-SL01 sealed log")
header_ok (some fields) =
    if begins fields (log_version ∷ 0 ∷ 0 ∷ 0 ∷ [])
    then ok tt
    else err (message "unsupported RYU-SL01 header (written by a newer Ryu?)")

unfoldable pub parse_header : Bytes → Result Error (Unit {0})
unfolding header_ok
parse_header bytes = header_ok (strip bytes sealed_log_magic)

-- The first test of `open_log`'s loop: a first record that is complete and does not open.
unfoldable pub is_wrong_key : Scan → Bool
is_wrong_key s = elim s.tail [
  | final_failed ↦ eqb s.committed_end sealed_log_header_len
  | _ ↦ false
]

abbrev pub keep_in : Bool → List Bytes → Bytes → List Bytes
keep_in keep_records records plain = if keep_records then records ++ plain ∷ [] else records

abbrev get_or_insert : Option Error → Error → Option Error
get_or_insert none e = some e
get_or_insert (some first) e = some first

abbrev unwrap_or_closed : Option Error → Error
unwrap_or_closed none = refused does_not_open
unwrap_or_closed (some first) = first

module _ (x : Primitives) where
  unfoldable pub log_key : (key salt aad : Bytes) → Bytes
  log_key key salt aad = hkdf32 x key salt (as_bytes "ryu-sealed-log-v1" ∷ aad ∷ [])

  -- The loop of `scan_with` at a position: `rest` is what follows it. A message leaves out the index.
  unfoldable pub scan_from :
      ℕ
      → (header key : Bytes) → Bool
      → (rest : Bytes) → (position index : ℕ) → List Bytes
      → Result Error Scan
  scan_from zero header key keep_records rest position index records = err out_of_fuel
  scan_from (suc fuel) header key keep_records rest position index records =
      let finish : Tail → Result Error Scan =
        λ tail. ok (record { records = records; committed_end = position; tail = tail }) in
      let body_len = from_be 0 (take 4 rest) in
      let after = drop 4 rest in
      let body = take body_len after in
      if eqb (length rest) 0
      then finish clean
      else if ltb (length rest) 4
      then finish short
      else if not (leb (nonce_len + tag_len) body_len && leb body_len max_record_body)
      then (if all_zero rest
          then finish short
          else err (message "sealed log record has an invalid length"))
      else if ltb (length after) body_len
      then finish short
      else elim (x.decrypt key (take nonce_len body) (drop nonce_len body)
          (record_aad header index)) [
            | some plain ↦
                scan_from fuel header key keep_records (drop body_len after)
                  (position + 4 + body_len) (index + 1) (keep_in keep_records records plain)
            | none ↦
                if eqb (length after) body_len
                then finish final_failed
                else err (message "sealed log record does not open and is followed by more data")
          ]

  unfoldable pub scan_with : Bytes → (header key : Bytes) → Bool → Result Error Scan
  scan_with bytes header key keep_records =
      scan_from (suc (length bytes)) header key keep_records (drop sealed_log_header_len bytes)
        sealed_log_header_len 0 []

  -- The loop of `open_log` over the candidate keys.
  unfoldable pub try_keys :
      Bytes
      → (header aad : Bytes) → Bool
      → List (ContentKey × Bool)
      → Option Error
      → Result Error OpenedLog
  try_keys bytes header aad keep_records [] first_error = err (unwrap_or_closed first_error)
  try_keys bytes header aad keep_records ((k, retired) ∷ keys) first_error =
      let key = log_key k.key (drop 12 header) aad in
      elim (scan_with bytes header key keep_records) [
        | ok scan ↦
            let next = try_keys bytes header aad keep_records keys first_error in
            if is_wrong_key scan
            then next
            else ok (record { header = header; key = key; retired = retired; scan = scan })
        | err e ↦ try_keys bytes header aad keep_records keys (get_or_insert first_error e)
      ]

  unfoldable pub open_log : Bytes → ContentCipher → ContentContext → Bool → Result Error OpenedLog
  open_log bytes c context keep_records = do
    reject (ltb (length bytes) sealed_log_header_len)
        (message "sealed log is shorter than its header")
    let header = take sealed_log_header_len bytes
    parse_header header
    try_keys bytes header (associated_data context c.store) keep_records (candidate_keys c) none

  unfoldable pub read_log_bytes : Bytes → ContentCipher → ContentContext → Result Error (List Bytes)
  read_log_bytes bytes c context = do
    opened ← open_log bytes c context true
    reject (torn_tail opened.scan) (message "sealed log ends in an incomplete record")
    ok opened.scan.records

  -- A file is its bytes, or `none` where it cannot be read.
  unfoldable pub open_recovering :
      Option Bytes → ContentCipher → ContentContext → Result Error RecoveredLog
  open_recovering file c context = do
    bytes ← ok_or file (message "reading")
    opened ← open_log bytes c context true
    ok (record {
      records = opened.scan.records;
      torn_tail = torn_tail opened.scan;
      needs_reseal = opened.retired;
    })
