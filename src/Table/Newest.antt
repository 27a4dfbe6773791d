-- ===== src/Table/Newest.antt =====
-- `ORDER BY … LIMIT n`, and deleting what is not among those rows.
use ryu_rooms.Prelude.{
  ℕ, ◌≤◌, String, ◌≡◌, refl, Bool, false, ◌&&◌, not, List, [], ◌∷◌, arith, ◌==◌, eq_iff, length,
  length-take-le,
}
use ryu_rooms.Table.{any_where, count_where, first_by, sort_by, select, is_in, trim_by}
use ryu_rooms.Table.Counts.{count-or_le, count_mono, count-delete_le, count-delete_mono}

module _ {ℓ} {R : Type ℓ} where
  pub length-first_by :
      (before : R → R → Bool) (n : ℕ) (rs : List R) → length (first_by before n rs) ≤ n
  unfolding first_by
  length-first_by before n rs = length-take-le n (sort_by before rs)

  count_false : (rs : List R) → count_where (λ r. false) rs ≡ 0
  unfolding count_where
  count_false [] = refl
  count_false (r ∷ rs) = omega (arith, count_false rs)

  pub count-trim_le :
      (key : R → String) (before : R → R → Bool) (p q : R → Bool) (n : ℕ) (rs : List R)
      → count_where q (trim_by key before p n rs) ≤ count_where q rs
  unfolding trim_by
  count-trim_le key before p q n rs =
      count-delete_le (λ r. p r && not (is_in key (first_by before n (select p rs)) r)) q rs

  module _ (key : R → String) where
    -- Among rows with distinct keys at most as many have a key of the list as the list is long.
    pub count-is_in :
        (keep rs : List R)
        → ((k : String) → count_where (λ r. key r == k) rs ≤ 1)
        → count_where (is_in key keep) rs ≤ length keep
    unfolding any_where
    count-is_in [] rs u = omega (arith, count_false rs)
    count-is_in (q ∷ keep) rs u =
        let here : count_where (λ r. key q == key r) rs ≤ 1 = omega (
          arith,
          u (key q),
          count_mono (λ r. key q == key r) (λ r. key r == key q) rs
              (λ r h. ground (arith, eq_iff (key q) (key r), eq_iff (key r) (key q))),
        ) in
        omega (
          arith,
          here,
          count-is_in keep rs u,
          count-or_le (λ r. key q == key r) (is_in key keep) rs,
        )

    -- What the deletion of the rows with `p` outside the first `n` of them leaves.
    pub count-trim :
        (before : R → R → Bool) (p : R → Bool) (n : ℕ) (rs : List R)
        → ((k : String) → count_where (λ r. key r == k) rs ≤ 1)
        → count_where p (trim_by key before p n rs) ≤ n
    unfolding trim_by
    count-trim before p n rs u =
        let keep = first_by before n (select p rs) in
        omega (
          arith,
          length-first_by before n (select p rs),
          count-is_in keep rs u,
          count-delete_mono (λ r. p r && not (is_in key keep r)) p (is_in key keep) rs
              (λ r a b. ground arith),
        )
