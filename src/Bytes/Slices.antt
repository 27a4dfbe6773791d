-- ===== src/Bytes/Slices.antt =====
-- Laws of slices and prefixes.
use ryu_rooms.Prelude.{
  ℕ, zero, suc, ◌-◌, ◌≤◌, ◌≡◌, refl, ap, arith, true, some, [], ◌∷◌, ◌++◌, length, take,
}
use ryu_rooms.Bytes.{Bytes, drop, strip, begins}

pub take_exact : (xs ys : Bytes) {n : ℕ} → length xs ≡ n → take n (xs ++ ys) ≡ xs
take_exact [] ys {n} h = rw (← h) refl
take_exact (x ∷ xs) ys {n} h = rw (← h) (ap (λ (r : Bytes). x ∷ r) (take_exact xs ys refl))

pub drop_exact : (xs ys : Bytes) {n : ℕ} → length xs ≡ n → drop n (xs ++ ys) ≡ ys
drop_exact [] ys {n} h = rw (← h) refl
drop_exact (x ∷ xs) ys {n} h = rw (← h) (drop_exact xs ys refl)

pub length-drop : (n : ℕ) (xs : Bytes) → length (drop n xs) ≡ length xs - n
length-drop zero xs = omega arith
length-drop (suc n) [] = omega arith
length-drop (suc n) (x ∷ xs) = omega (arith, length-drop n xs)

pub length-take_of_le : (n : ℕ) (xs : Bytes) → n ≤ length xs → length (take n xs) ≡ n
length-take_of_le zero xs h = omega arith
length-take_of_le (suc n) [] h = omega arith
length-take_of_le (suc n) (x ∷ xs) h = omega (arith, length-take_of_le n xs)

pub strip_append : (p xs : Bytes) → strip (p ++ xs) p ≡ some xs
unfolding strip
strip_append [] xs = refl
strip_append (b ∷ p) xs = ground (arith, strip_append p xs)

pub begins_append : (p xs : Bytes) → begins (p ++ xs) p ≡ true
unfolding begins
begins_append [] xs = refl
begins_append (b ∷ p) xs = ground (arith, begins_append p xs)

pub take-length : (xs : Bytes) → take (length xs) xs ≡ xs
take-length [] = refl
take-length (x ∷ xs) = ap (λ (r : Bytes). x ∷ r) (take-length xs)

pub take_all : (n : ℕ) (xs : Bytes) → length xs ≤ n → take n xs ≡ xs
take_all zero [] h = refl
take_all zero (x ∷ xs) h = absurd (omega arith)
take_all (suc n) [] h = refl
take_all (suc n) (x ∷ xs) h = ap (λ (r : Bytes). x ∷ r) (take_all n xs (omega arith))
