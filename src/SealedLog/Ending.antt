-- ===== src/SealedLog/Ending.antt =====
-- The loops of crates/core/crypto/src/sealed_log.rs end on every input.
use ryu_rooms.Prelude.{
  ℕ, zero, suc, ◌+◌, ◌<◌, ◌≢◌, arith, Bool, Option, some, none, List, [], ◌∷◌, length, take,
  Option-cases, inl, inr,
}
use ryu_rooms.Result.{err, Result-cases}
use ryu_rooms.Bytes.{Bytes, drop, from_be}
use ryu_rooms.Bytes.Slices.{length-drop}
use ryu_rooms.Seal.{ContentContext}
use ryu_rooms.Content.{Primitives, Error, out_of_fuel}
use ryu_rooms.Content.Context.{associated_data}
use ryu_rooms.Content.Keys.{ContentKey, ContentCipher, candidate_keys}
use ryu_rooms.SealedLog.{
  scan_from, scan_with, try_keys, open_log, record_aad, parse_header, keep_in, log_key,
}

module _ (x : Primitives) where
  scan_from_ends :
      (fuel : ℕ) (header key : Bytes) (keep_records : Bool) (rest : Bytes) (position index : ℕ)
      (records : List Bytes)
      → length rest < fuel
      → scan_from x fuel header key keep_records rest position index records ≢ err out_of_fuel
  unfolding scan_from
  scan_from_ends zero header key keep_records rest position index records b h = absurd (omega arith)
  scan_from_ends (suc fuel) header key keep_records rest position index records b h =
      let n = from_be 0 (take 4 rest) in
      let body = take n (drop 4 rest) in
      elim (Option-cases (x.decrypt key (take 12 body) (drop 12 body) (record_aad header index))) [
        | inl e ↦ ground (arith, e)
        | inr (plain, e) ↦ ground (
          arith,
          e,
          scan_from_ends fuel header key keep_records (drop n (drop 4 rest)) (position + 4 + n)
              (index + 1) (keep_in keep_records records plain),
          length-drop n (drop 4 rest),
          length-drop 4 rest,
        )
      ]

  scan_with_ends :
      (bytes header key : Bytes) (keep_records : Bool)
      → scan_with x bytes header key keep_records ≢ err out_of_fuel
  unfolding scan_with
  scan_with_ends bytes header key keep_records h =
      scan_from_ends (suc (length bytes)) header key keep_records (drop 32 bytes) 32 0 []
        (omega (arith, length-drop 32 bytes)) h

  try_keys_ends :
      (bytes header aad : Bytes) (keep_records : Bool) (keys : List (ContentKey × Bool))
      (first_error : Option Error)
      → first_error ≢ some out_of_fuel
      → try_keys x bytes header aad keep_records keys first_error ≢ err out_of_fuel
  unfolding try_keys
  try_keys_ends bytes header aad keep_records [] none p h = ground arith
  try_keys_ends bytes header aad keep_records [] (some e) p h = ground arith
  try_keys_ends bytes header aad keep_records ((k, retired) ∷ keys) none p h =
      let key = log_key x k.key (drop 12 header) aad in
      elim (Result-cases (scan_with x bytes header key keep_records)) [
        | inl (s, e) ↦ ground (arith, e, try_keys_ends bytes header aad keep_records keys none p)
        | inr (error, e) ↦ ground (
          arith,
          e,
          try_keys_ends bytes header aad keep_records keys (some error),
          scan_with_ends bytes header key keep_records,
        )
      ]
  try_keys_ends bytes header aad keep_records ((k, retired) ∷ keys) (some first) p h =
      let key = log_key x k.key (drop 12 header) aad in
      elim (Result-cases (scan_with x bytes header key keep_records)) [
        | inl (s, e) ↦
            ground (arith, e, try_keys_ends bytes header aad keep_records keys (some first) p)
        | inr (error, e) ↦
            ground (arith, e, try_keys_ends bytes header aad keep_records keys (some first) p)
      ]

  -- Opening a log never runs out of the fuel that the scan is given, whatever the bytes, the keys and
  -- the context are: it ends with the log or with one of the errors of the code.
  pub open_log-ne-out_of_fuel :
      (bytes : Bytes) (c : ContentCipher) (context : ContentContext) (keep_records : Bool)
      → open_log x bytes c context keep_records ≢ err out_of_fuel
  unfolding open_log parse_header
  open_log-ne-out_of_fuel bytes c context keep_records h = ground (
    arith,
    try_keys_ends bytes (take 32 bytes) (associated_data context c.store) keep_records
        (candidate_keys c) none,
  )
