-- ===== src/Limits.antt =====
-- backend/src/limits.rs: the limits of a room and the validation of what a client sends.
pub mod Accepts
use Prim.Native.Char.{Char, code}
use Prim.Native.String.{[], ◌∷◌, ◌++◌}
use ryu_rooms.Prelude.{
  ℕ, ◌+◌, ◌*◌, String, Bool, true, false, ◌&&◌, ◌||◌, not, Option, none, some, ltb, leb, eqb,
  is_some, if◌then◌else◌, ◌==◌,
}
use ryu_rooms.Result.{Result, ok, err, reject, ok_or, ◌>>=◌, ◌>>◌}
use ryu_rooms.Text.{is_control, char_count, any_char, is_empty, trim, trim_end_matches}

abbrev pub invite_ttl_secs : ℕ
invite_ttl_secs = 10 * 60

abbrev pub session_ttl_secs : ℕ
session_ttl_secs = 12 * 60 * 60

abbrev pub max_participants : ℕ
max_participants = 8

abbrev pub max_history_messages : ℕ
max_history_messages = 40

abbrev pub max_retained_runs : ℕ
max_retained_runs = 100

abbrev pub max_model_id_chars : ℕ
max_model_id_chars = 256

abbrev pub max_prompt_chars : ℕ
max_prompt_chars = 16000

abbrev pub max_message_chars : ℕ
max_message_chars = 32000

abbrev pub max_delta_chars : ℕ
max_delta_chars = 4096

abbrev pub max_display_name_chars : ℕ
max_display_name_chars = 80

abbrev pub max_idempotency_key_chars : ℕ
max_idempotency_key_chars = 128

abbrev pub max_share_origin_chars : ℕ
max_share_origin_chars = 2048

unfoldable pub validate_non_empty : String → ℕ → String → Result String String
validate_non_empty value max_chars field = do
  let value = trim value
  reject (is_empty value) (field ++ " is required")
  reject (ltb max_chars (char_count value)) (field ++ " is too long")
  reject (any_char is_control value) (field ++ " contains control characters")
  ok value

unfoldable pub validate_model_id : String → Result String String
unfolding validate_non_empty
validate_model_id value = validate_non_empty value max_model_id_chars "modelId"

unfoldable pub validate_prompt : String → Result String String
unfolding validate_non_empty
validate_prompt value = validate_non_empty value max_prompt_chars "text"

-- A control character other than a line feed, a carriage return and a tab.
unfoldable pub is_unsupported : Char → Bool
is_unsupported c = is_control c && not (eqb (code c) 10 || eqb (code c) 13 || eqb (code c) 9)

unfoldable pub validate_delta : String → Result String String
validate_delta value = do
  reject (is_empty value) "delta is required"
  reject (ltb max_delta_chars (char_count value)) "delta is too long"
  reject (any_char is_unsupported value) "delta contains unsupported control characters"
  ok value

unfoldable pub validate_display_name : String → Result String String
unfolding validate_non_empty
validate_display_name value = validate_non_empty value max_display_name_chars "displayName"

-- What the `url` crate reports of a parsed URL.
pub record Url : Type 0 where
  pub scheme : String
  pub host_str : Option String
  pub username : String
  pub password : Option String
  pub query : Option String
  pub fragment : Option String
  pub path : String

abbrev pub unwrap_or_default : Option String → String
unwrap_or_default none = ""
unwrap_or_default (some s) = s

to_ascii_lowercase : ℕ → ℕ
to_ascii_lowercase n = if leb b'A' n && leb n b'Z' then n + 32 else n

-- `str::eq_ignore_ascii_case`.
eq_ignore_ascii_case : String → String → Bool
unfolding to_ascii_lowercase
eq_ignore_ascii_case [] [] = true
eq_ignore_ascii_case (c ∷ s) (d ∷ t) =
    eqb (to_ascii_lowercase (code c)) (to_ascii_lowercase (code d)) && eq_ignore_ascii_case s t
eq_ignore_ascii_case _ _ = false

unfoldable pub is_bad_origin : Url → Bool
is_bad_origin parsed =
    not (parsed.scheme == "http" || parsed.scheme == "https")
    || not (is_some parsed.host_str)
    || not (parsed.username == "")
    || is_some parsed.password
    || is_some parsed.query
    || is_some parsed.fragment
    || not (parsed.path == "" || parsed.path == "/")

unfoldable pub is_local_host : String → Bool
unfolding eq_ignore_ascii_case
is_local_host host =
    eq_ignore_ascii_case host "localhost"
    || host == "127.0.0.1"
    || host == "::1"
    || host == "0.0.0.0"

-- `parse` is `Url::parse`.
module _ (parse : String → Option Url) where
  unfoldable pub validate_share_origin : String → Result String String
  validate_share_origin value = do
    origin ← validate_non_empty value max_share_origin_chars "shareOrigin"
    parsed ← ok_or (parse origin) "shareOrigin must be a valid URL"
    reject (is_bad_origin parsed)
        "shareOrigin must be an HTTP(S) origin without credentials or a path"
    reject (is_local_host (unwrap_or_default parsed.host_str))
        "shareOrigin must be reachable by another device"
    ok (trim_end_matches (λ c. eqb (code c) b'/') origin)
