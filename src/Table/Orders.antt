-- ===== src/Table/Orders.antt =====
-- What ordering and limiting a table do to its counts.
use ryu_rooms.Prelude.{ℕ, zero, suc, ◌+◌, ◌≤◌, ◌≡◌, refl, Bool, List, [], ◌∷◌, take, arith}
use ryu_rooms.Table.{count_one, count_where, first_by, insert_by, sort_by}

module _ {ℓ} {R : Type ℓ} (before : R → R → Bool) (q : R → Bool) where
  count-insert_by :
      (r : R) (rs : List R)
      → count_where q (insert_by before r rs) ≡ count_one (q r) + count_where q rs
  unfolding insert_by count_where
  count-insert_by r [] = refl
  count-insert_by r (p ∷ rs) = ground (arith, count-insert_by r rs)

  pub count-sort_by : (rs : List R) → count_where q (sort_by before rs) ≡ count_where q rs
  unfolding sort_by count_where
  count-sort_by [] = refl
  count-sort_by (r ∷ rs) = omega (arith, count-insert_by r (sort_by before rs), count-sort_by rs)

  count-take_le : (n : ℕ) (rs : List R) → count_where q (take n rs) ≤ count_where q rs
  unfolding count_where
  count-take_le zero rs = omega arith
  count-take_le (suc n) [] = omega arith
  count-take_le (suc n) (r ∷ rs) = omega (arith, count-take_le n rs)

  pub count-first_by_le :
      (n : ℕ) (rs : List R) → count_where q (first_by before n rs) ≤ count_where q rs
  unfolding first_by
  count-first_by_le n rs = omega (arith, count-take_le n (sort_by before rs), count-sort_by rs)
