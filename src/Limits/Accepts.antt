-- ===== src/Limits/Accepts.antt =====
-- What the validators of backend/src/limits.rs accept.
use Prim.Native.Char.{code}
use ryu_rooms.Prelude.{
  ℕ, ◌≤◌, String, ◌≡◌, ◌↔◌, inl, inr, false, arith, eqb, Option, some, Option-cases,
}
use ryu_rooms.Result.{Result-cases, ok}
use ryu_rooms.Text.{is_control, char_count, any_char, is_empty, trim, trim_end_matches}
use ryu_rooms.Text.Trim.{trim_idem, trim_end_matches_idem}
use ryu_rooms.Limits.{
  Url, validate_non_empty, validate_delta, max_delta_chars, max_share_origin_chars, is_unsupported,
  validate_share_origin, is_bad_origin, is_local_host, unwrap_or_default,
}

-- A trimmed, non-empty text of at most `max` characters, none of them a control character.
pub record IsAcceptable (max : ℕ) (value : String) : Type 0 where
  pub trimmed : trim value ≡ value
  pub non_empty : is_empty value ≡ false
  pub short : char_count value ≤ max
  pub printable : any_char is_control value ≡ false

pub validate_non_empty-IsAcceptable :
    (value : String) {max : ℕ} (field : String) {w : String}
    → validate_non_empty value max field ≡ ok w
    → IsAcceptable max w
unfolding validate_non_empty
validate_non_empty-IsAcceptable value field h = ground (arith, trim_idem value)

-- `validate_non_empty` succeeds with `w` exactly when `w` is the trimmed input and `w` is
-- acceptable: trimmed, non-empty, within the limit and free of control characters.
pub validate_non_empty_iff :
    (value : String) (max : ℕ) (field w : String)
    → (validate_non_empty value max field ≡ ok w) ↔ ((w ≡ trim value) × IsAcceptable max w)
unfolding validate_non_empty
validate_non_empty_iff value max field w =
    ((λ h. ground (arith, trim_idem value)), λ h. ground arith)

-- `validate_delta` succeeds with `w` exactly when `w` is the input itself, not trimmed, non-empty,
-- of at most 4096 characters and without control characters but line feeds, returns and tabs.
pub validate_delta_iff :
    (value w : String)
    → (validate_delta value ≡ ok w) ↔ (
        (w ≡ value)
        × (is_empty value ≡ false)
        × (char_count value ≤ max_delta_chars)
        × (any_char is_unsupported value ≡ false))
unfolding validate_delta
validate_delta_iff value w = ((λ h. ground arith), λ h. ground arith)

-- An accepted share origin parses as a URL whose host is not a local one and that has neither
-- credentials nor a path, and carries no trailing slash.
pub validate_share_origin_lem :
    (parse : String → Option Url) (value w : String)
    → validate_share_origin parse value ≡ ok w
    → (u : Url) × (parse (trim value) ≡ some u)
      × (is_bad_origin u ≡ false)
      × (is_local_host (unwrap_or_default u.host_str) ≡ false)
      × (trim_end_matches (λ c. eqb (code c) b'/') w ≡ w)
unfolding validate_share_origin
validate_share_origin_lem parse value w h =
    elim (Result-cases (validate_non_empty value max_share_origin_chars "shareOrigin")) [
      | inr (e, p) ↦ absurd (ground arith)
      | inl (origin, p) ↦
          let trimmed = ((validate_non_empty_iff _ _ _ _).0 p).0 in
          elim (Option-cases (parse origin)) [
            | inl q ↦ absurd (ground arith)
            | inr (u, q) ↦ (
              u,
              rw (← trimmed) q,
              ground arith,
              ground arith,
              ground (arith, trim_end_matches_idem (λ c. eqb (code c) b'/') origin),
            )
          ]
    ]
