-- ===== src/Text.antt =====
-- What the sources use of Rust's `str` and `char`: trimming, counting, prefixes, character classes.
-- A text is a sequence of code points; `byte_len` is the length of its UTF-8 form.
pub mod Trim
use Prim.Native.Char.{Char, code}
use Prim.Native.String.{[], ◌∷◌}
use ryu_rooms.Prelude.{ℕ, ◌+◌, String, Bool, true, false, ◌&&◌, ◌||◌, ltb, leb, eqb, if◌then◌else◌}

-- `char::is_control`: the general category Cc.
unfoldable pub is_control : Char → Bool
is_control c = leb (code c) 31 || (leb 127 (code c) && leb (code c) 159)

-- `char::is_whitespace`: the property White_Space.
unfoldable pub is_whitespace : Char → Bool
is_whitespace c =
    (leb 9 n && leb n 13)
    || eqb n 32
    || eqb n 133
    || eqb n 160
    || eqb n 5760
    || (leb 8192 n && leb n 8202)
    || eqb n 8232
    || eqb n 8233
    || eqb n 8239
    || eqb n 8287
    || eqb n 12288
  where
    n : ℕ
    n = code c

unfoldable pub is_ascii_alphanumeric : Char → Bool
is_ascii_alphanumeric c =
    (leb b'0' (code c) && leb (code c) b'9')
    || (leb b'A' (code c) && leb (code c) b'Z')
    || (leb b'a' (code c) && leb (code c) b'z')

-- `chars().count()`.
unfoldable pub char_count : String → ℕ
char_count [] = 0
char_count (c ∷ s) = 1 + char_count s

utf8_width : Char → ℕ
utf8_width c =
    if ltb (code c) 128
    then 1
    else if ltb (code c) 2048
    then 2
    else if ltb (code c) 65536
    then 3
    else 4

-- `len()`.
unfoldable pub byte_len : String → ℕ
unfolding utf8_width
byte_len [] = 0
byte_len (c ∷ s) = utf8_width c + byte_len s

-- `chars().any(…)`.
unfoldable pub any_char : (Char → Bool) → String → Bool
any_char p [] = false
any_char p (c ∷ s) = p c || any_char p s

abbrev pub is_empty : String → Bool
is_empty [] = true
is_empty (_ ∷ _) = false

unfoldable pub trim_start_matches : (Char → Bool) → String → String
trim_start_matches p [] = []
trim_start_matches p (c ∷ s) = if p c then trim_start_matches p s else c ∷ s

abbrev pub keep_before : (Char → Bool) → Char → String → String
keep_before p c [] = if p c then [] else c ∷ []
keep_before p c (d ∷ s) = c ∷ d ∷ s

unfoldable pub trim_end_matches : (Char → Bool) → String → String
trim_end_matches p [] = []
trim_end_matches p (c ∷ s) = keep_before p c (trim_end_matches p s)

unfoldable pub trim : String → String
unfolding is_whitespace trim_start_matches trim_end_matches
trim s = trim_end_matches is_whitespace (trim_start_matches is_whitespace s)

unfoldable pub starts_with : String → String → Bool
starts_with s [] = true
starts_with [] (d ∷ p) = false
starts_with (c ∷ s) (d ∷ p) = eqb (code c) (code d) && starts_with s p
