-- ===== src/Bytes/Utf8/Decoding.antt =====
-- Reading back the UTF-8 form of a text.
use Prim.Native.Char.{Char, char, code}
use Prim.Native.Nat.{compare, Ordering}
use Prim.Native.String.{[] as nil, ◌∷◌ as cons}
use ryu_rooms.Prelude.{ℕ, ◌<◌, ◌≡◌, refl, ◌∙◌, arith, String, some, List, [], ◌∷◌}
use ryu_rooms.Bytes.{Bytes}
use ryu_rooms.Bytes.Utf8.{
  encode, as_bytes, Scalar, scalar?, from_u32, prepend, decode, collect, from_utf8, both?,
}

scalar?-some : (o p q : Ordering) (x : Scalar o p q) → scalar? o p q ≡ some x
unfolding scalar? both?
scalar?-some Ordering.lt p q x = refl
scalar?-some Ordering.eq Ordering.lt Ordering.lt x = refl
scalar?-some Ordering.gt Ordering.lt Ordering.lt x = refl
scalar?-some Ordering.eq Ordering.lt Ordering.eq x = elim x [ ]
scalar?-some Ordering.eq Ordering.lt Ordering.gt x = elim x [ ]
scalar?-some Ordering.gt Ordering.lt Ordering.eq x = elim x [ ]
scalar?-some Ordering.gt Ordering.lt Ordering.gt x = elim x [ ]
scalar?-some Ordering.eq Ordering.eq q x = elim x [ ]
scalar?-some Ordering.gt Ordering.eq q x = elim x [ ]
scalar?-some Ordering.eq Ordering.gt q x = elim x [ ]
scalar?-some Ordering.gt Ordering.gt q x = elim x [ ]

from_u32-code : (c : Char) → from_u32 (code c) ≡ some c
unfolding from_u32
from_u32-code (char n p) =
    rw (scalar?-some (compare n 55296) (compare 57343 n) (compare n 1114112) p) refl

scalar_below :
    (n : ℕ) (o p q : Ordering)
    → compare n 55296 ≡ o
    → compare n 1114112 ≡ q
    → Scalar o p q
    → n < 1114112
scalar_below n Ordering.lt p q e f x = ground arith
scalar_below n Ordering.eq p q e f x = ground arith
scalar_below n Ordering.gt Ordering.lt Ordering.lt e f x = ground arith
scalar_below n Ordering.gt Ordering.lt Ordering.eq e f x = elim x [ ]
scalar_below n Ordering.gt Ordering.lt Ordering.gt e f x = elim x [ ]
scalar_below n Ordering.gt Ordering.eq q e f x = elim x [ ]
scalar_below n Ordering.gt Ordering.gt q e f x = elim x [ ]

code_below : (c : Char) → code c < 1114112
code_below (char n p) =
    scalar_below n (compare n 55296) (compare 57343 n) (compare n 1114112) refl refl p

decode-encode :
    (n : ℕ) (rest : Bytes)
    → n < 1114112
    → decode 0 0 0 (encode n rest) ≡ prepend n (decode 0 0 0 rest)
unfolding decode encode
decode-encode n rest h = ground arith

decode-as_bytes :
    (s : String) → (ns : List ℕ) × (decode 0 0 0 (as_bytes s) ≡ some ns) × (collect ns ≡ some s)
unfolding as_bytes collect
decode-as_bytes nil = ([], unfold decode in refl, refl)
decode-as_bytes (cons c s) =
    let (ns, e, f) = decode-as_bytes s in
    (
      code c ∷ ns,
      decode-encode (code c) (as_bytes s) (code_below c) ∙ rw e refl,
      rw (from_u32-code c) (rw f refl),
    )

pub from_utf8-as_bytes : (s : String) → from_utf8 (as_bytes s) ≡ some s
unfolding from_utf8
from_utf8-as_bytes s = let (ns, e, f) = decode-as_bytes s in rw e f

-- Two texts of the same bytes are one text.
pub as_bytes_inj : (s t : String) → as_bytes s ≡ as_bytes t → s ≡ t
as_bytes_inj s t h = ground (arith, from_utf8-as_bytes s, from_utf8-as_bytes t)
