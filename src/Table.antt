-- ===== src/Table.antt =====
-- The SQL of backend/src/store.rs on tables as lists of rows in insertion order: selection, update,
-- deletion and `ORDER BY … LIMIT`, each with its condition as a Boolean test on a row.
pub mod Counts
pub mod Finds
pub mod Newest
pub mod Orders
pub mod Unique
use ryu_rooms.Prelude.{
  ℕ, ◌+◌, Bool, true, false, ◌&&◌, ◌||◌, not, String, ◌==◌, Option, none, some, List, [], ◌∷◌,
  if◌then◌else◌, take,
}

abbrev pub count_one : Bool → ℕ
count_one true = 1
count_one false = 0

module _ {ℓ} {R : Type ℓ} where
  unfoldable pub select : (R → Bool) → List R → List R
  select p [] = []
  select p (r ∷ rs) = let rest = select p rs in if p r then r ∷ rest else rest

  unfoldable pub find_where : (R → Bool) → List R → Option R
  find_where p [] = none
  find_where p (r ∷ rs) = if p r then some r else find_where p rs

  unfoldable pub any_where : (R → Bool) → List R → Bool
  any_where p [] = false
  any_where p (r ∷ rs) = p r || any_where p rs

  unfoldable pub count_where : (R → Bool) → List R → ℕ
  count_where p [] = 0
  count_where p (r ∷ rs) = count_one (p r) + count_where p rs

  unfoldable pub update_where : (R → Bool) → (R → R) → List R → List R
  update_where p f [] = []
  update_where p f (r ∷ rs) = (if p r then f r else r) ∷ update_where p f rs

  unfoldable pub delete_where : (R → Bool) → List R → List R
  unfolding select
  delete_where p = select (λ r. not (p r))

  insert_by : (R → R → Bool) → R → List R → List R
  insert_by before r [] = r ∷ []
  insert_by before r (q ∷ qs) = if before q r then q ∷ insert_by before r qs else r ∷ q ∷ qs

  -- `ORDER BY`: `before a b` says that `a` comes before `b`.
  unfoldable pub sort_by : (R → R → Bool) → List R → List R
  unfolding insert_by
  sort_by before [] = []
  sort_by before (r ∷ rs) = insert_by before r (sort_by before rs)

  unfoldable pub first_by : (R → R → Bool) → ℕ → List R → List R
  unfolding sort_by
  first_by before limit rs = take limit (sort_by before rs)

  -- `key IN (SELECT key …)`.
  abbrev pub is_in : (R → String) → List R → R → Bool
  is_in key keep r = any_where (λ q. key q == key r) keep

  -- `DELETE … WHERE p AND key NOT IN (SELECT key … WHERE p ORDER BY … LIMIT n)`.
  unfoldable pub trim_by : (R → String) → (R → R → Bool) → (R → Bool) → ℕ → List R → List R
  unfolding delete_where first_by any_where
  trim_by key before p limit rs =
      let keep = first_by before limit (select p rs) in
      delete_where (λ r. p r && not (is_in key keep r)) rs
