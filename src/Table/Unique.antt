-- ===== src/Table/Unique.antt =====
-- Keys that at most one row has.
use ryu_rooms.Prelude.{
  ◌≤◌, String, ◌≡◌, subst, inl, inr, false, ◌==◌, arith, Bool-cases, eq_iff, List, [], ◌∷◌, ◌++◌,
}
use ryu_rooms.Table.{count_where, any_where}
use ryu_rooms.Table.Counts.{count-snoc, count_of_not_any, count_one_le}

-- A key that no row has stays unique when a row with it is added.
pub unique-snoc {ℓ} :
    {R : Type ℓ} (key : R → String) (rs : List R) (r : R) (k : String)
    → count_where (λ q. key q == k) rs ≤ 1
    → any_where (λ q. key q == key r) rs ≡ false
    → count_where (λ q. key q == k) (rs ++ r ∷ []) ≤ 1
unique-snoc key rs r k u h = elim (Bool-cases (key r == k)) [
  | inl e ↦
      let none_yet = count_of_not_any (λ q. key q == key r) rs h in
      let e' = (eq_iff (key r) k).0 e in
      omega (
        arith,
        count-snoc (λ q. key q == k) rs r,
        subst (λ j. count_where (λ q. key q == j) rs ≡ 0) e' none_yet,
        count_one_le (key r == k),
      )
  | inr e ↦ ground (arith, count-snoc (λ q. key q == k) rs r)
]
