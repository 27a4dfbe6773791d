-- ===== src/Text/Trim.antt =====
-- Laws of trimming.
use Prim.Native.Char.{Char}
use Prim.Native.String.{[], ◌∷◌}
use ryu_rooms.Prelude.{String, ◌≡◌, refl, ◌⊎◌, inl, inr, Bool, false, arith, Bool-cases}
use ryu_rooms.Text.{
  any_char, keep_before, trim_start_matches, trim_end_matches, trim, is_whitespace,
}

module _ (p : Char → Bool) where
  keep_before_idem :
      (c : Char) (r : String)
      → trim_end_matches p r ≡ r
      → trim_end_matches p (keep_before p c r) ≡ keep_before p c r
  unfolding trim_end_matches
  keep_before_idem c [] h = elim (Bool-cases (p c)) [ inl e ↦ rw e refl | inr e ↦ rw e (rw e refl) ]
  keep_before_idem c (d ∷ t) h = rw h refl

  pub trim_end_matches_idem :
      (s : String) → trim_end_matches p (trim_end_matches p s) ≡ trim_end_matches p s
  unfolding trim_end_matches
  trim_end_matches_idem [] = refl
  trim_end_matches_idem (c ∷ s) =
      keep_before_idem c (trim_end_matches p s) (trim_end_matches_idem s)

  trim_start_cases :
      (s : String)
      → (trim_start_matches p s ≡ [])
        ⊎ ((c : Char) × (t : String) × (trim_start_matches p s ≡ c ∷ t) × (p c ≡ false))
  unfolding trim_start_matches
  trim_start_cases [] = inl refl
  trim_start_cases (c ∷ s) = elim (Bool-cases (p c)) [
    | inl e ↦ rw e (trim_start_cases s)
    | inr e ↦ inr (c, s, rw e refl, e)
  ]

  trim_start-keep_before :
      (c : Char) (r : String)
      → p c ≡ false
      → trim_start_matches p (keep_before p c r) ≡ keep_before p c r
  unfolding trim_start_matches
  trim_start-keep_before c [] h = rw h (rw h refl)
  trim_start-keep_before c (d ∷ t) h = rw h refl

  pub trim_start-trim_end-trim_start :
      (s : String)
      → trim_start_matches p (trim_end_matches p (trim_start_matches p s))
        ≡ trim_end_matches p (trim_start_matches p s)
  unfolding trim_end_matches
  trim_start-trim_end-trim_start s = elim (trim_start_cases s) [
    | inl e ↦ rw e (unfold trim_start_matches in refl)
    | inr (c, t, e, h) ↦ rw e (trim_start-keep_before c (trim_end_matches p t) h)
  ]

pub trim_idem : (s : String) → trim (trim s) ≡ trim s
unfolding trim
trim_idem s =
    rw trim_start-trim_end-trim_start
      (trim_end_matches_idem is_whitespace (trim_start_matches is_whitespace s))

module _ (p : Char → Bool) where
  trim_start_of_none : (s : String) → any_char p s ≡ false → trim_start_matches p s ≡ s
  unfolding any_char trim_start_matches
  trim_start_of_none [] h = refl
  trim_start_of_none (c ∷ s) h = ground arith

  trim_end_of_none : (s : String) → any_char p s ≡ false → trim_end_matches p s ≡ s
  unfolding any_char trim_end_matches
  trim_end_of_none [] h = refl
  trim_end_of_none (c ∷ []) h = ground arith
  trim_end_of_none (c ∷ d ∷ s) h = rw (trim_end_of_none (d ∷ s) (ground arith)) refl

pub trim_of_none : (s : String) → any_char is_whitespace s ≡ false → trim s ≡ s
unfolding trim
trim_of_none s h = rw (trim_start_of_none is_whitespace s h) (trim_end_of_none is_whitespace s h)
