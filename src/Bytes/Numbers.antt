-- ===== src/Bytes/Numbers.antt =====
-- Laws of big-endian numbers.
use ryu_rooms.Prelude.{ℕ, zero, suc, ◌+◌, ◌/◌, ◌%◌, ◌<◌, ◌≡◌, refl, arith, [], ◌∷◌, ◌++◌, length}
use ryu_rooms.Bytes.{Bytes, be_onto, from_be, above}

pub be_onto-append : (k n : ℕ) (xs ys : Bytes) → be_onto k n xs ++ ys ≡ be_onto k n (xs ++ ys)
unfolding be_onto
be_onto-append zero n xs ys = refl
be_onto-append (suc k) n xs ys = be_onto-append k (n / 256) (n % 256 ∷ xs) ys

pub length-be_onto : (k n : ℕ) (xs : Bytes) → length (be_onto k n xs) ≡ k + length xs
unfolding be_onto
length-be_onto zero n xs = omega arith
length-be_onto (suc k) n xs = omega (arith, length-be_onto k (n / 256) (n % 256 ∷ xs))

-- Two numbers of `k` bytes, each before other bytes, agree only if the numbers and the rests do.
pub be_onto_inj :
    (k n m : ℕ) (xs ys : Bytes)
    → n < above k
    → m < above k
    → be_onto k n xs ≡ be_onto k m ys
    → (n ≡ m) × (xs ≡ ys)
unfolding be_onto
be_onto_inj zero n m xs ys p q h = (omega arith, h)
be_onto_inj (suc k) n m xs ys p q h =
    let (e, f) =
      be_onto_inj k (n / 256) (m / 256) (n % 256 ∷ xs) (m % 256 ∷ ys) (omega arith) (omega arith)
        h in
    ground (arith, e, f)

pub be_onto_cancel : (k n : ℕ) (xs ys : Bytes) → be_onto k n xs ≡ be_onto k n ys → xs ≡ ys
unfolding be_onto
be_onto_cancel zero n xs ys h = h
be_onto_cancel (suc k) n xs ys h =
    ground (arith, be_onto_cancel k (n / 256) (n % 256 ∷ xs) (n % 256 ∷ ys) h)

-- The number of four bytes that `be_onto` wrote.
pub from_be-be_onto : (n : ℕ) → n < 4294967296 → from_be 0 (be_onto 4 n []) ≡ n
unfolding be_onto from_be
from_be-be_onto n h = omega arith
