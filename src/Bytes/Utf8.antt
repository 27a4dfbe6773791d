-- ===== src/Bytes/Utf8.antt =====
-- The UTF-8 form of a text: `str::as_bytes`, `String::from_utf8` and `char::from_u32`.
pub mod Decoding
use Prim.Native.Char.{Char, char, code, IsLt}
use Prim.Native.Nat.{compare, Ordering}
use Prim.Native.String.{[] as nil, ◌∷◌ as cons}
use ryu_rooms.Prelude.{
  ℕ, zero, suc, ◌+◌, ◌-◌, ◌*◌, ◌/◌, ◌%◌, String, Bool, Option, none, some, List, [], ◌∷◌, ltb, leb,
  ◌&&◌, if◌then◌else◌,
}
use ryu_rooms.Bytes.{Bytes}

-- The bytes of one code point, before other bytes.
unfoldable pub encode : ℕ → Bytes → Bytes
encode n rest =
    if ltb n 128
    then n ∷ rest
    else if ltb n 2048
    then (192 + n / 64) ∷ (128 + n % 64) ∷ rest
    else if ltb n 65536
    then (224 + n / 4096) ∷ (128 + n / 64 % 64) ∷ (128 + n % 64) ∷ rest
    else (240 + n / 262144) ∷ (128 + n / 4096 % 64) ∷ (128 + n / 64 % 64) ∷ (128 + n % 64) ∷ rest

unfoldable pub as_bytes : String → Bytes
as_bytes nil = []
as_bytes (cons c s) = encode (code c) (as_bytes s)

abbrev Both : Ordering → Ordering → Type 0
Both Ordering.lt o = IsLt o
Both Ordering.eq _ = ⊥
Both Ordering.gt _ = ⊥

-- The proof that a character carries, read off its three comparisons.
abbrev pub Scalar : Ordering → Ordering → Ordering → Type 0
Scalar Ordering.lt _ _ = Unit
Scalar Ordering.eq o p = Both o p
Scalar Ordering.gt o p = Both o p

unfoldable pub both? : (o p : Ordering) → Option (Both o p)
both? Ordering.lt Ordering.lt = some tt
both? Ordering.lt Ordering.eq = none
both? Ordering.lt Ordering.gt = none
both? Ordering.eq _ = none
both? Ordering.gt _ = none

unfoldable pub scalar? : (o p q : Ordering) → Option (Scalar o p q)
unfolding both?
scalar? Ordering.lt _ _ = some tt
scalar? Ordering.eq o p = both? o p
scalar? Ordering.gt o p = both? o p

abbrev lift_char :
    (n : ℕ) → Option (Scalar (compare n 55296) (compare 57343 n) (compare n 1114112)) → Option Char
lift_char n none = none
lift_char n (some p) = some (char n p)

unfoldable pub from_u32 : ℕ → Option Char
unfolding scalar?
from_u32 n = lift_char n (scalar? (compare n 55296) (compare 57343 n) (compare n 1114112))

abbrev pub prepend {ℓ} : {A : Type ℓ} → A → Option (List A) → Option (List A)
prepend a none = none
prepend a (some l) = some (a ∷ l)

-- A complete code point, refused when fewer bytes would do.
abbrev complete : ℕ → ℕ → Option (List ℕ) → Option (List ℕ)
complete n least rest = if ltb n least then none else prepend n rest

abbrev is_continuation : ℕ → Bool
is_continuation b = leb 128 b && ltb b 192

-- The code points of some bytes, where `need` bytes of one that began are still to come: `n` is what
-- was read of it, and `least` the first code point that takes as many bytes.
unfoldable pub decode : (need n least : ℕ) → Bytes → Option (List ℕ)
decode zero n least [] = some []
decode (suc need) n least [] = none
decode zero n least (b ∷ bs) =
    let one = prepend b (decode 0 0 0 bs) in
    let two = decode 1 (b - 192) 128 bs in
    let three = decode 2 (b - 224) 2048 bs in
    let four = decode 3 (b - 240) 65536 bs in
    if ltb b 128
    then one
    else if ltb b 194
    then none
    else if ltb b 224
    then two
    else if ltb b 240
    then three
    else if ltb b 245
    then four
    else none
decode (suc zero) n least (b ∷ bs) =
    let last = complete (n * 64 + (b - 128)) least (decode 0 0 0 bs) in
    if is_continuation b then last else none
decode (suc (suc need)) n least (b ∷ bs) =
    let more = decode (suc need) (n * 64 + (b - 128)) least bs in
    if is_continuation b then more else none

abbrev push_char : Option Char → Option String → Option String
push_char (some c) (some s) = some (cons c s)
push_char _ _ = none

unfoldable pub collect : List ℕ → Option String
collect [] = some ""
collect (n ∷ ns) = push_char (from_u32 n) (collect ns)

abbrev collect? : Option (List ℕ) → Option String
collect? none = none
collect? (some ns) = collect ns

unfoldable pub from_utf8 : Bytes → Option String
unfolding decode collect
from_utf8 bs = collect? (decode 0 0 0 bs)
