-- ===== src/Store/Consistent/Recovery.antt =====
-- The rounds of `recover_running` of backend/src/store.rs, one for each run.
use ryu_rooms.Prelude.{
  ℕ, ◌+◌, String, ◌≡◌, refl, sym, subst, ◌⊎◌, inl, inr, Bool, true, ◌&&◌, not, ◌==◌, arith,
  Bool-cases, eq_refl, Option, none, some, List, [], ◌∷◌,
}
use ryu_rooms.Result.{Result, Result-cases, ok, err}
use ryu_rooms.Table.{any_where, count_where, select, update_where}
use ryu_rooms.Table.Counts.{count_mono}
use ryu_rooms.Model.{is_active}
use ryu_rooms.Store.{RunRow, StoreError, seal as seal_failed, continue, pure, RoomStore, External}
use ryu_rooms.Store.Ids.{ctx}
use ryu_rooms.Store.Closing.{recovery_message, interrupted, recover_each}
use ryu_rooms.Store.Consistent.{IsConsistent}
use ryu_rooms.Store.Consistent.Rows.{
  run_ids-update, run_rooms-update, active-update, IsShrunk, IsShrunk-IsConsistent,
}

-- An active run whose id is not listed.
abbrev pub is_missed : List RunRow → RunRow → Bool
is_missed runs r = is_active r.status && not (any_where (λ (q : RunRow). q.id == r.id) runs)

abbrev pub is_recovered : String → RunRow → Bool
is_recovered id r = r.id == id && is_active r.status

missed-cons :
    (listed runs : List RunRow) (r : RunRow)
    → count_where (is_missed listed) runs ≡ 0
    → count_where (is_missed (r ∷ listed)) (r ∷ runs) ≡ 0
unfolding count_where any_where
missed-cons listed runs r h = ground (
  arith,
  h,
  eq_refl r.id,
  count_mono (is_missed (r ∷ listed)) (is_missed listed) runs (λ q e. ground arith),
)

abbrev pub active : List RunRow → List RunRow
active = select (λ (r : RunRow). is_active r.status)

-- The list of all active runs misses none.
pub missed-active : (runs : List RunRow) → count_where (is_missed (active runs)) runs ≡ 0
unfolding count_where select
missed-active [] = refl
missed-active (r ∷ runs) = elim (Bool-cases (is_active r.status)) [
  | inl a ↦
      let kept : active (r ∷ runs) ≡ r ∷ active runs = rw a refl in
      subst (λ l. count_where (is_missed l) (r ∷ runs) ≡ 0) (sym kept)
        (missed-cons (active runs) runs r (missed-active runs))
  | inr a ↦
      let dropped : active (r ∷ runs) ≡ active runs = rw a refl in
      subst (λ l. count_where (is_missed l) (r ∷ runs) ≡ 0) (sym dropped)
        (ground (arith, missed-active runs))
]

abbrev pub add_changed : ℕ → Result StoreError ℕ × RoomStore → Result StoreError ℕ × RoomStore
add_changed n (ok rest, s) = (ok (n + rest), s)
add_changed n (err e, s) = (err e, s)

pub add_changed_lem :
    (n : ℕ) (q : Result StoreError ℕ × RoomStore)
    → continue q.0 (λ rest. pure (n + rest)) q.1 ≡ add_changed n q
add_changed_lem n (ok rest, s) = refl
add_changed_lem n (err e, s) = refl

pub db-add_changed : (n : ℕ) (q : Result StoreError ℕ × RoomStore) → (add_changed n q).1 ≡ q.1
db-add_changed n (ok rest, s) = refl
db-add_changed n (err e, s) = refl

module _ (x : External) where
  pub recovery_message_cases :
      (nonce : ℕ) (id : String) (s : RoomStore)
      → ((e : StoreError) × (x.sealing.is_writable ≡ true)
          × (recovery_message x nonce x.sealing.is_writable id s ≡ (err e, s)))
        ⊎ ((m : Option String) × (recovery_message x nonce x.sealing.is_writable id s ≡ (ok m, s)))
  recovery_message_cases nonce id s = elim (Bool-cases x.sealing.is_writable) [
    | inr w ↦ inr (none, rw w refl)
    | inl w ↦
        elim (Result-cases (
          x.sealing.seal_text nonce "generation interrupted by node restart"
            (ctx "room_runs" "error_message" id))) [
              | inr (e, p) ↦ inl (seal_failed e, w, rw (w, p) refl)
              | inl (m, p) ↦ inr (some m, rw (w, p) refl)
            ]
  ]

  abbrev pub recovered : String → String → Option String → RoomStore → RoomStore
  recovered now id message s = record s {
    db = record s.db { runs = update_where (is_recovered id) (interrupted now message) s.db.runs };
  }

  pub recovered-IsShrunk :
      (now id : String) (message : Option String) (s : RoomStore)
      → IsShrunk s.db (recovered now id message s).db
  recovered-IsShrunk now id message s = record {
    rooms = λ k. refl;
    run_ids = λ k. omega (arith, run_ids-update (is_recovered id) end s.db.runs k (λ r. refl));
    run_rooms = λ k. omega (arith, run_rooms-update (is_recovered id) end s.db.runs k (λ r. refl));
    active = λ k. active-update (is_recovered id) end s.db.runs k (λ r e. refl);
    free = λ k. inr (omega arith);
  }
    where
      end : RunRow → RunRow
      end = interrupted now message

  -- One round: the update, and then the rounds for the other runs.
  pub recover_each-cons :
      (nonce : ℕ → ℕ) (k : ℕ) (now : String) (run : RunRow) (runs : List RunRow) (s : RoomStore)
      (m : Option String)
      → recovery_message x (nonce k) x.sealing.is_writable run.id s ≡ (ok m, s)
      → recover_each x nonce k now (run ∷ runs) s
        ≡ add_changed
            (count_where (is_recovered run.id) s.db.runs)
            (recover_each x nonce (k + 1) now runs (recovered now run.id m s))
  unfolding recover_each
  recover_each-cons nonce k now run runs s m p =
      rw p (add_changed_lem (count_where (is_recovered run.id) s.db.runs) _)

  -- A message that does not seal ends the rounds.
  pub recover_each-refused :
      (nonce : ℕ → ℕ) (k : ℕ) (now : String) (run : RunRow) (runs : List RunRow) (s : RoomStore)
      (e : StoreError)
      → recovery_message x (nonce k) x.sealing.is_writable run.id s ≡ (err e, s)
      → recover_each x nonce k now (run ∷ runs) s ≡ (err e, s)
  unfolding recover_each
  recover_each-refused nonce k now run runs s e p = rw p refl

  pub recover_each-IsConsistent :
      (nonce : ℕ → ℕ) (k : ℕ) (now : String) (runs : List RunRow) (s : RoomStore)
      → IsConsistent s.db
      → IsConsistent (recover_each x nonce k now runs s).1.db
  unfolding recover_each
  recover_each-IsConsistent nonce k now [] s c = c
  recover_each-IsConsistent nonce k now (run ∷ runs) s c =
      elim (recovery_message_cases (nonce k) run.id s) [
        | inl (e, _, p) ↦ rw p c
        | inr (m, p) ↦
            subst (λ q. IsConsistent q.1.db) (sym (recover_each-cons nonce k now run runs s m p))
              (rw db-add_changed (
                recover_each-IsConsistent nonce (k + 1) now runs (recovered now run.id m s) (
                  IsShrunk-IsConsistent s.db (recovered now run.id m s).db c.one_message
                    (recovered-IsShrunk now run.id m s) c)))
      ]
