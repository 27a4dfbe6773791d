-- ===== src/Store/Keeps.antt =====
-- Predicates on the database through the sequencing of actions of the store.
use ryu_rooms.Prelude.{sym, subst, Bool, true, false, Option, none, some}
use ryu_rooms.Result.{Result, ok, err}
use ryu_rooms.Store.{Db, StoreError, RoomStore, Exec, continue, or_raise, reject_if, ◌>>=◌}
use ryu_rooms.Store.Read.Keeps.{IsReading}

-- `m` keeps `P` of the database, whether it returns or fails.
pub record Keeps {ℓ} {A : Type ℓ} (P : Db → Type 0) (m : Exec A) : Type ℓ where
  pub at : (s : RoomStore) → P s.db → P (m s).1.db

module _ {P : Db → Type 0} where
  pub Keeps-bind {ℓ κ} :
      {A : Type ℓ} {B : Type κ} (m : Exec A) (f : A → Exec B)
      → Keeps P m
      → ((a : A) → Keeps P (f a))
      → Keeps P (m >>= f)
  Keeps-bind m f h k = record { at = λ s c. rest (m s).0 (m s).1 (h.at s c) }
    where
      rest : (r : Result StoreError _) (t : RoomStore) → P t.db → P (continue r f t).1.db
      rest (ok a) t c = (k a).at t c
      rest (err e) t c = c

  pub Keeps-lift {ℓ} : {A : Type ℓ} (r : Result StoreError A) → Keeps {A = A} P (λ s. (r, s))
  Keeps-lift r = record { at = λ s c. c }

  pub Keeps-or_raise {ℓ} : {A : Type ℓ} (o : Option A) (e : StoreError) → Keeps P (or_raise o e)
  Keeps-or_raise none e = record { at = λ s c. c }
  Keeps-or_raise (some a) e = record { at = λ s c. c }

  pub Keeps-reject_if : (b : Bool) (e : StoreError) → Keeps P (reject_if b e)
  Keeps-reject_if true e = record { at = λ s c. c }
  Keeps-reject_if false e = record { at = λ s c. c }

  pub Keeps-of_reading {ℓ} : {A : Type ℓ} (m : Exec A) → IsReading m → Keeps P m
  Keeps-of_reading m h = record { at = λ s c. subst P (sym (h.same s)) c }
