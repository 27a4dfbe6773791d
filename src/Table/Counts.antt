-- ===== src/Table/Counts.antt =====
-- How many rows meet a test, through insertion, update and deletion.
use ryu_rooms.Prelude.{
  ◌+◌, ◌≤◌, ◌≡◌, refl, Bool, true, false, ◌&&◌, ◌||◌, not, none, some, List, [], ◌∷◌, ◌++◌, arith,
}
use ryu_rooms.Table.{
  select, find_where, any_where, count_one, count_where, update_where, delete_where,
}

pub count_one_le : (b : Bool) → count_one b ≤ 1
count_one_le true = omega arith
count_one_le false = omega arith

module _ {ℓ} {R : Type ℓ} where
  pub count-append :
      (p : R → Bool) (rs qs : List R)
      → count_where p (rs ++ qs) ≡ count_where p rs + count_where p qs
  unfolding count_where
  count-append p [] qs = omega arith
  count-append p (r ∷ rs) qs = omega (arith, count-append p rs qs)

  -- A row at the end of the table.
  pub count-snoc :
      (p : R → Bool) (rs : List R) (r : R)
      → count_where p (rs ++ r ∷ []) ≡ count_where p rs + count_one (p r)
  unfolding count_where
  count-snoc p rs r = omega (arith, count-append p rs (r ∷ []))

  pub count_of_not_any :
      (p : R → Bool) (rs : List R) → any_where p rs ≡ false → count_where p rs ≡ 0
  unfolding any_where count_where
  count_of_not_any p [] h = refl
  count_of_not_any p (r ∷ rs) h = ground (arith, count_of_not_any p rs)

  pub count_of_find_none :
      (p : R → Bool) (rs : List R) → find_where p rs ≡ none → count_where p rs ≡ 0
  unfolding find_where count_where
  count_of_find_none p [] h = refl
  count_of_find_none p (r ∷ rs) h = ground (arith, count_of_find_none p rs)

  pub find_where-test : (p : R → Bool) (rs : List R) (r : R) → find_where p rs ≡ some r → p r ≡ true
  unfolding find_where
  find_where-test p [] r h = cc
  find_where-test p (q ∷ rs) r h = ground (arith, find_where-test p rs r)

  -- Rows that meet `q` after the update met `s` before it.
  pub count-update_mono :
      (p q s : R → Bool) (f : R → R) (rs : List R)
      → ((r : R) → p r ≡ true → q (f r) ≡ true → s r ≡ true)
      → ((r : R) → p r ≡ false → q r ≡ true → s r ≡ true)
      → count_where q (update_where p f rs) ≤ count_where s rs
  unfolding count_where update_where
  count-update_mono p q s f [] h k = omega arith
  count-update_mono p q s f (r ∷ rs) h k =
      ground (arith, count-update_mono p q s f rs h k, h r, k r)

  -- An update under which no row loses the test.
  pub count-update_ge :
      (p q : R → Bool) (f : R → R) (rs : List R)
      → ((r : R) → p r ≡ true → q r ≡ true → q (f r) ≡ true)
      → count_where q rs ≤ count_where q (update_where p f rs)
  unfolding count_where update_where
  count-update_ge p q f [] h = omega arith
  count-update_ge p q f (r ∷ rs) h = ground (arith, count-update_ge p q f rs h, h r)

  -- The rows with `p` are those with `q` too and those without.
  pub count_split :
      (p q : R → Bool) (rs : List R)
      → count_where (λ r. p r && q r) rs + count_where (λ r. p r && not (q r)) rs ≡ count_where p rs
  unfolding count_where
  count_split p q [] = omega arith
  count_split p q (r ∷ rs) = ground (arith, count_split p q rs)

  -- An update that falsifies the test takes the updated rows off the count.
  pub count-update_split :
      (p q : R → Bool) (f : R → R) (rs : List R)
      → ((r : R) → p r ≡ true → q (f r) ≡ false)
      → count_where q (update_where p f rs) + count_where (λ r. p r && q r) rs ≡ count_where q rs
  unfolding count_where update_where
  count-update_split p q f [] h = omega arith
  count-update_split p q f (r ∷ rs) h = ground (arith, count-update_split p q f rs h, h r)

  pub count_of_find :
      (p q : R → Bool) (rs : List R) (r : R)
      → find_where p rs ≡ some r
      → q r ≡ true
      → 1 ≤ count_where (λ r. p r && q r) rs
  unfolding count_where find_where
  count_of_find p q [] r h k = cc
  count_of_find p q (s ∷ rs) r h k = ground (arith, count_of_find p q rs r)

  pub count_of_any : (p : R → Bool) (rs : List R) → any_where p rs ≡ true → 1 ≤ count_where p rs
  unfolding count_where any_where
  count_of_any p [] h = cc
  count_of_any p (r ∷ rs) h = ground (arith, count_of_any p rs)

  -- An update that keeps the test keeps the count.
  pub count-update :
      (p q : R → Bool) (f : R → R) (rs : List R)
      → ((r : R) → p r ≡ true → q (f r) ≡ q r)
      → count_where q (update_where p f rs) ≡ count_where q rs
  unfolding count_where update_where
  count-update p q f [] h = refl
  count-update p q f (r ∷ rs) h = ground (arith, count-update p q f rs h, h r)

  -- An update that falsifies the test on every row that has it.
  pub count-update_clears :
      (p q : R → Bool) (f : R → R) (rs : List R)
      → ((r : R) → p r ≡ true → q (f r) ≡ false)
      → ((r : R) → p r ≡ false → q r ≡ false)
      → count_where q (update_where p f rs) ≡ 0
  unfolding count_where update_where
  count-update_clears p q f [] h k = refl
  count-update_clears p q f (r ∷ rs) h k =
      ground (arith, count-update_clears p q f rs h k, h r, k r)

  pub count-select_le :
      (p q : R → Bool) (rs : List R) → count_where q (select p rs) ≤ count_where q rs
  unfolding count_where select
  count-select_le p q [] = omega arith
  count-select_le p q (r ∷ rs) = ground (arith, count-select_le p q rs)

  pub count-delete_le :
      (p q : R → Bool) (rs : List R) → count_where q (delete_where p rs) ≤ count_where q rs
  unfolding delete_where
  count-delete_le p q rs = count-select_le (λ r. not (p r)) q rs

  pub count-delete_mono :
      (p q s : R → Bool) (rs : List R)
      → ((r : R) → q r ≡ true → p r ≡ false → s r ≡ true)
      → count_where q (delete_where p rs) ≤ count_where s rs
  unfolding delete_where count_where select
  count-delete_mono p q s [] h = omega arith
  count-delete_mono p q s (r ∷ rs) h = ground (arith, count-delete_mono p q s rs h, h r)

  -- Rows that the deletion leaves alone.
  pub count-delete_other :
      (p q : R → Bool) (rs : List R)
      → ((r : R) → q r ≡ true → p r ≡ false)
      → count_where q (delete_where p rs) ≡ count_where q rs
  unfolding delete_where count_where select
  count-delete_other p q [] h = refl
  count-delete_other p q (r ∷ rs) h = ground (arith, count-delete_other p q rs h, h r)

  pub count-delete_all :
      (p q : R → Bool) (rs : List R)
      → ((r : R) → q r ≡ true → p r ≡ true)
      → count_where q (delete_where p rs) ≡ 0
  unfolding delete_where count_where select
  count-delete_all p q [] h = refl
  count-delete_all p q (r ∷ rs) h = ground (arith, count-delete_all p q rs h, h r)

  pub count_mono :
      (p q : R → Bool) (rs : List R)
      → ((r : R) → p r ≡ true → q r ≡ true)
      → count_where p rs ≤ count_where q rs
  unfolding count_where
  count_mono p q [] h = omega arith
  count_mono p q (r ∷ rs) h = ground (arith, count_mono p q rs h, h r)

  pub count-or_le :
      (p q : R → Bool) (rs : List R)
      → count_where (λ r. p r || q r) rs ≤ count_where p rs + count_where q rs
  unfolding count_where
  count-or_le p q [] = omega arith
  count-or_le p q (r ∷ rs) = ground (arith, count-or_le p q rs)

  -- An update of no row changes nothing.
  pub update-none :
      (p : R → Bool) (f : R → R) (rs : List R) → count_where p rs ≡ 0 → update_where p f rs ≡ rs
  unfolding count_where update_where
  update-none p f [] h = refl
  update-none p f (r ∷ rs) h = ground (arith, update-none p f rs)
