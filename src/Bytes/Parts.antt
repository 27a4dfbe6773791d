-- ===== src/Bytes/Parts.antt =====
-- Slices of slices.
use ryu_rooms.Prelude.{
  ℕ, zero, suc, ◌+◌, ◌-◌, ◌≤◌, ◌≡◌, refl, sym, ap, ◌∙◌, arith, [], ◌∷◌, ◌++◌, take,
}
use ryu_rooms.Bytes.{Bytes, drop}

pub take-take_of_le : (m n : ℕ) (xs : Bytes) → m ≤ n → take m (take n xs) ≡ take m xs
take-take_of_le zero n xs h = refl
take-take_of_le (suc m) zero xs h = absurd (omega arith)
take-take_of_le (suc m) (suc n) [] h = refl
take-take_of_le (suc m) (suc n) (b ∷ xs) h =
    ap (λ (r : Bytes). b ∷ r) (take-take_of_le m n xs (omega arith))

take_nil : (n : ℕ) → take {A = ℕ} n [] ≡ []
take_nil zero = refl
take_nil (suc n) = refl

drop_nil : (n : ℕ) → drop n [] ≡ []
drop_nil zero = refl
drop_nil (suc n) = refl

pub drop-take : (m n : ℕ) (xs : Bytes) → drop m (take n xs) ≡ take (n - m) (drop m xs)
drop-take zero n xs = let e : n - 0 ≡ n = omega arith in rw e refl
drop-take (suc m) zero xs = let e : 0 - suc m ≡ 0 = omega arith in rw e refl
drop-take (suc m) (suc n) [] = sym (take_nil (suc n - suc m))
drop-take (suc m) (suc n) (b ∷ xs) =
    let e : suc n - suc m ≡ n - m = omega arith in rw e (drop-take m n xs)

pub drop-drop : (n m : ℕ) (xs : Bytes) → drop n (drop m xs) ≡ drop (m + n) xs
drop-drop n zero xs = let e : 0 + n ≡ n = omega arith in rw e refl
drop-drop n (suc m) [] = drop_nil n ∙ sym (drop_nil (suc m + n))
drop-drop n (suc m) (b ∷ xs) =
    let e : suc m + n ≡ suc (m + n) = omega arith in rw e (drop-drop n m xs)

-- A part in two pieces.
pub take_split : (n m : ℕ) (xs : Bytes) → n ≤ m → take n xs ++ take (m - n) (drop n xs) ≡ take m xs
take_split zero m xs h = let e : m - 0 ≡ m = omega arith in rw e refl
take_split (suc n) zero xs h = absurd (omega arith)
take_split (suc n) (suc m) [] h = take_nil (suc m - suc n)
take_split (suc n) (suc m) (b ∷ xs) h =
    let e : suc m - suc n ≡ m - n = omega arith in
    rw e (ap (λ (r : Bytes). b ∷ r) (take_split n m xs (omega arith)))
