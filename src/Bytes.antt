-- ===== src/Bytes.antt =====
-- Byte strings, as the crypto crate (crates/core/crypto/src) reads and writes them: slices, big-endian
-- numbers, prefixes. A byte is a number.
pub mod Numbers
pub mod Utf8
pub mod Slices
pub mod Parts
use ryu_rooms.Prelude.{
  ℕ, zero, suc, ◌+◌, ◌*◌, ◌/◌, ◌%◌, Bool, true, false, ◌&&◌, Option, none, some, List, [], ◌∷◌,
  ◌++◌, eqb, if◌then◌else◌,
}

abbrev pub Bytes : Type 0
Bytes = List ℕ

abbrev pub drop : ℕ → Bytes → Bytes
drop zero xs = xs
drop (suc n) [] = []
drop (suc n) (x ∷ xs) = drop n xs

-- `to_be_bytes` of a number of `k` bytes, before other bytes.
unfoldable pub be_onto : ℕ → ℕ → Bytes → Bytes
be_onto zero n rest = rest
be_onto (suc k) n rest = be_onto k (n / 256) (n % 256 ∷ rest)

-- `from_be_bytes`.
unfoldable pub from_be : ℕ → Bytes → ℕ
from_be n [] = n
from_be n (b ∷ bs) = from_be (n * 256 + b) bs

-- The first number that `k` bytes do not hold.
abbrev pub above : ℕ → ℕ
above zero = 1
above (suc k) = 256 * above k

-- `strip_prefix` of a slice.
unfoldable pub strip : Bytes → Bytes → Option Bytes
strip s [] = some s
strip [] (p ∷ ps) = none
strip (b ∷ bs) (p ∷ ps) = if eqb b p then strip bs ps else none

-- `starts_with` of a slice.
unfoldable pub begins : Bytes → Bytes → Bool
begins s [] = true
begins [] (p ∷ ps) = false
begins (b ∷ bs) (p ∷ ps) = eqb b p && begins bs ps

unfoldable pub all_zero : Bytes → Bool
all_zero [] = true
all_zero (b ∷ bs) = eqb b 0 && all_zero bs

abbrev pub concat : List Bytes → Bytes
concat [] = []
concat (p ∷ ps) = p ++ concat ps
