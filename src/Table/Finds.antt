-- ===== src/Table/Finds.antt =====
-- The first row that a test holds of, in tables that are extended or updated.
use ryu_rooms.Prelude.{◌≡◌, refl, Bool, true, none, some, List, [], ◌∷◌, ◌++◌, arith}
use ryu_rooms.Table.{count_where, find_where, update_where}

module _ {ℓ} {R : Type ℓ} where
  pub find-snoc :
      (p : R → Bool) (rs : List R) (r : R)
      → find_where p rs ≡ none
      → p r ≡ true
      → find_where p (rs ++ r ∷ []) ≡ some r
  unfolding find_where
  find-snoc p [] r h e = ground arith
  find-snoc p (q ∷ rs) r h e = ground (arith, find-snoc p rs r)

  -- An update that keeps the test finds the updated row.
  pub find-update :
      (p : R → Bool) (f : R → R) (rs : List R) (r : R)
      → ((q : R) → p q ≡ true → p (f q) ≡ true)
      → find_where p rs ≡ some r
      → find_where p (update_where p f rs) ≡ some (f r)
  unfolding find_where update_where
  find-update p f [] r k h = absurd (ground arith)
  find-update p f (q ∷ rs) r k h = ground (arith, k q, find-update p f rs r k)

  pub find_none_of_count :
      (p : R → Bool) (rs : List R) → count_where p rs ≡ 0 → find_where p rs ≡ none
  unfolding find_where count_where
  find_none_of_count p [] h = refl
  find_none_of_count p (q ∷ rs) h = ground (arith, find_none_of_count p rs)
