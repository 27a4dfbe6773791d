-- ===== src/Custody/Giving.antt =====
-- What a run gives where it gives a result (crates/core/crypto/src/custody.rs, lib.rs).
use ryu_rooms.Prelude.{◌≡◌, refl, subst}
use ryu_rooms.Result.{Result, ok, err, ◌>>=◌}
use ryu_rooms.Custody.{CustodyError, Folder, Run, leaving}

abbrev GivenBy : {K A : Type 0} → (Folder K → A → Type 0) → Run K A → Type 0
GivenBy Q (ok (w, a)) = Q w a
GivenBy Q (err _) = Unit

-- `Gives Q m`: where `m` gives a result, `Q` holds of the folder that it leaves and of the result.
pub record Gives {K A : Type 0} (Q : Folder K → A → Type 0) (m : Run K A) : Type 0 where
  pub given : GivenBy Q m

module _ {K : Type 0} where
  pub Gives-ok :
      {A : Type 0} (Q : Folder K → A → Type 0) (w : Folder K) (a : A) → Q w a → Gives Q (ok (w, a))
  Gives-ok Q w a h = record { given = h }

  pub Gives-err :
      {A : Type 0} (Q : Folder K → A → Type 0) (w : Folder K) (e : CustodyError)
      → Gives Q (err (w, e))
  Gives-err Q w e = record { given = tt }

  pub Gives-bind :
      {A B : Type 0} (Q : Folder K → B → Type 0) (R : Folder K → A → Type 0) (m : Run K A)
      (f : Folder K × A → Run K B)
      → Gives R m
      → ((w : Folder K) (a : A) → R w a → Gives Q (f (w, a)))
      → Gives Q (m >>= f)
  Gives-bind Q R (ok (w, a)) f h k = k w a h.given
  Gives-bind Q R (err e) f h k = record { given = tt }

  pub Gives-leaving :
      {A B : Type 0} (Q : Folder K → B → Type 0) (w : Folder K) (r : Result CustodyError A)
      (f : Folder K × A → Run K B)
      → ((a : A) → r ≡ ok a → Gives Q (f (w, a)))
      → Gives Q (leaving w r >>= f)
  Gives-leaving Q w (ok a) f k = k a refl
  Gives-leaving Q w (err e) f k = record { given = tt }

  pub of_Gives :
      {A : Type 0} (Q : Folder K → A → Type 0) (m : Run K A) (w : Folder K) (a : A)
      → Gives Q m
      → m ≡ ok (w, a)
      → Q w a
  of_Gives Q m w a h e = (subst (λ (r : Run K _). Gives Q r) e h).given

  pub Gives-mono :
      {A : Type 0} (Q R : Folder K → A → Type 0) (m : Run K A)
      → Gives Q m
      → ((w : Folder K) (a : A) → Q w a → R w a)
      → Gives R m
  Gives-mono Q R (ok (w, a)) h k = record { given = k w a h.given }
  Gives-mono Q R (err e) h k = record { given = tt }

  pub Gives-Unit : {A : Type 0} (m : Run K A) → Gives (λ (_ : Folder K) (_ : A). Unit {0}) m
  Gives-Unit (ok (w, a)) = record { given = tt }
  Gives-Unit (err e) = record { given = tt }
