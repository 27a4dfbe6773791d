-- ===== src/Store/Consistent/Restart.antt =====
-- `recover_running` of backend/src/store.rs as a whole.
use ryu_rooms.Prelude.{
  ℕ, ◌+◌, ◌≤◌, String, ◌≡◌, refl, sym, subst, ◌⊎◌, inl, inr, Bool, false, ◌==◌, arith, eq_iff,
  Option, List, [], ◌∷◌,
}
use native.Mathlib.Nat.{le_trans}
use ryu_rooms.Result.{Result, Result-cases, ok, err}
use ryu_rooms.Table.{any_where, count_where, update_where}
use ryu_rooms.Table.Counts.{count-update_mono, count_mono, count-update_clears}
use ryu_rooms.Model.{is_active}
use ryu_rooms.Store.{RoomRow, RunRow, StoreError, RoomStore, External, Draw}
use ryu_rooms.Store.Turns.{holds}
use ryu_rooms.Store.Closing.{interrupted, recover_each, recover_running}
use ryu_rooms.Store.Consistent.{IsConsistent}
use ryu_rooms.Store.Consistent.Rows.{room_ids-update, IsShrunk, IsShrunk-IsConsistent}
use ryu_rooms.Store.Consistent.Recovery.{
  is_missed, is_recovered, active, missed-active, recovery_message_cases, recovered, add_changed,
  db-add_changed, recover_each-cons, recover_each-refused, recover_each-IsConsistent,
}

abbrev is_running : RunRow → Bool
is_running r = is_active r.status

add_changed-ok :
    (c : ℕ) (q : Result StoreError ℕ × RoomStore) (n : ℕ)
    → (add_changed c q).0 ≡ ok n
    → (rest : ℕ) × (q.0 ≡ ok rest)
add_changed-ok c (ok rest, s) n h = (rest, refl)
add_changed-ok c (err e, s) n h = cc

ok-add_changed :
    (c : ℕ) (q : Result StoreError ℕ × RoomStore) (n : ℕ)
    → q.0 ≡ ok n
    → (add_changed c q).0 ≡ ok (c + n)
ok-add_changed c (ok rest, s) n h = ground arith
ok-add_changed c (err e, s) n h = cc

module _ (x : External) where
  -- What a round that goes on leaves missed was missed by the longer list.
  missed-recovered :
      (now : String) (run : RunRow) (runs : List RunRow) (m : Option String) (s : RoomStore)
      → count_where (is_missed runs) (recovered x now run.id m s).db.runs
        ≤ count_where (is_missed (run ∷ runs)) s.db.runs
  unfolding any_where
  missed-recovered now run runs m s =
      count-update_mono (is_recovered run.id) (is_missed runs) (is_missed (run ∷ runs))
        (interrupted now m) s.db.runs (λ r e q. absurd (ground arith))
        (λ r e q. ground (arith, eq_iff r.id run.id, eq_iff run.id r.id))

  recover_each_clears :
      (nonce : ℕ → ℕ) (k : ℕ) (now : String) (runs : List RunRow) (s : RoomStore) (n : ℕ)
      → (recover_each x nonce k now runs s).0 ≡ ok n
      → count_where is_running (recover_each x nonce k now runs s).1.db.runs
        ≤ count_where (is_missed runs) s.db.runs
  unfolding recover_each any_where
  recover_each_clears nonce k now [] s n h =
      count_mono is_running (is_missed []) s.db.runs (λ r e. ground arith)
  recover_each_clears nonce k now (run ∷ runs) s n h =
      elim (recovery_message_cases x (nonce k) run.id s) [
        | inl (e, _, p) ↦
            absurd (ground (arith, h, recover_each-refused x nonce k now run runs s e p))
        | inr (m, p) ↦
            let before = count_where (is_recovered run.id) s.db.runs in
            let after = recover_each x nonce (k + 1) now runs (recovered x now run.id m s) in
            let step = recover_each-cons x nonce k now run runs s m p in
            let (rest, q) = add_changed-ok before after n (subst (λ t. t.0 ≡ ok n) step h) in
            subst
              (λ t.
                count_where is_running t.1.db.runs ≤ count_where (is_missed (run ∷ runs)) s.db.runs)
              (sym step)
              (rw db-add_changed (
                le_trans
                  (recover_each_clears nonce (k + 1) now runs (recovered x now run.id m s) rest q)
                  (missed-recovered now run runs m s)))
      ]

  pub recover_each-rooms :
      (nonce : ℕ → ℕ) (k : ℕ) (now : String) (runs : List RunRow) (s : RoomStore)
      → (recover_each x nonce k now runs s).1.db.rooms ≡ s.db.rooms
  unfolding recover_each
  recover_each-rooms nonce k now [] s = refl
  recover_each-rooms nonce k now (run ∷ runs) s =
      elim (recovery_message_cases x (nonce k) run.id s) [
        | inl (e, _, p) ↦ rw p refl
        | inr (m, p) ↦
            subst (λ t. t.1.db.rooms ≡ s.db.rooms)
              (sym (recover_each-cons x nonce k now run runs s m p))
              (rw db-add_changed
                (recover_each-rooms nonce (k + 1) now runs (recovered x now run.id m s)))
      ]

  recover_each_total :
      (nonce : ℕ → ℕ) (k : ℕ) (now : String) (runs : List RunRow) (s : RoomStore)
      → x.sealing.is_writable ≡ false
      → (n : ℕ) × ((recover_each x nonce k now runs s).0 ≡ ok n)
  unfolding recover_each
  recover_each_total nonce k now [] s w = (0, refl)
  recover_each_total nonce k now (run ∷ runs) s w =
      elim (recovery_message_cases x (nonce k) run.id s) [
        | inl (e, t, p) ↦ absurd (ground arith)
        | inr (m, p) ↦
            let before = count_where (is_recovered run.id) s.db.runs in
            let (n, q) = recover_each_total nonce (k + 1) now runs (recovered x now run.id m s) w in
            (
              before + n,
              subst (λ t. t.0 ≡ ok (before + n))
                  (sym (recover_each-cons x nonce k now run runs s m p))
                  (ok-add_changed before _ n q),
            )
      ]

  module _ (d : Draw) (s : RoomStore) where
    abbrev pub rounds : Result StoreError ℕ × RoomStore
    rounds = recover_each x d.nonce 0 (x.to_rfc3339 (d.now 0)) (active s.db.runs) s

    abbrev pub mark : RoomRow → RoomRow
    mark r = record r { status = "failed"; updated_at = x.to_rfc3339 (d.now 0) }

    abbrev pub marked : RoomStore
    marked = record rounds.1 {
      db = record rounds.1.db {
        rooms = update_where (λ (r : RoomRow). r.status == "running") mark rounds.1.db.rooms;
      };
    }

    pub recover_running_cases :
        ((e : StoreError) × (rounds.0 ≡ err e) × (recover_running x d s ≡ (err e, rounds.1)))
        ⊎ ((n : ℕ) × (rounds.0 ≡ ok n) × (recover_running x d s ≡ (ok n, marked)))
    unfolding recover_running
    recover_running_cases = elim (Result-cases rounds.0) [
      | inr (e, p) ↦ inl (e, p, rw p refl)
      | inl (n, p) ↦ inr (n, p, rw p refl)
    ]

    no_run_left : (n : ℕ) → rounds.0 ≡ ok n → count_where is_running rounds.1.db.runs ≡ 0
    no_run_left n p = omega (
      arith,
      recover_each_clears d.nonce 0 (x.to_rfc3339 (d.now 0)) (active s.db.runs) s n p,
      missed-active s.db.runs,
    )

    -- A recovery that succeeds leaves no run queued or running and no room running.
    pub recover_running_clears :
        (n : ℕ)
        → (recover_running x d s).0 ≡ ok n
        → (count_where is_running (recover_running x d s).1.db.runs ≡ 0)
          × (count_where (λ (r : RoomRow). r.status == "running") (recover_running x d s).1.db.rooms
              ≡ 0)
    recover_running_clears n h = elim recover_running_cases [
      | inl (e, p, q) ↦ absurd (ground (arith, h, q))
      | inr (k, p, q) ↦ rw q (
        no_run_left k p,
        count-update_clears (λ r. r.status == "running") (λ r. r.status == "running") mark
            rounds.1.db.rooms (λ r e. refl) (λ r e. e),
      )
    ]

    -- On a store that cannot be written to, sealed under a key that is not held, the recovery
    -- still succeeds.
    pub recover_running_total :
        x.sealing.is_writable ≡ false → (n : ℕ) × ((recover_running x d s).0 ≡ ok n)
    recover_running_total w =
        let (k, p) = recover_each_total d.nonce 0 (x.to_rfc3339 (d.now 0)) (active s.db.runs) s w in
        elim recover_running_cases [
          | inl (e, r, q) ↦ absurd (ground (arith, p, r))
          | inr (n, r, q) ↦ (n, rw q refl)
        ]

    marked-IsShrunk : (n : ℕ) → rounds.0 ≡ ok n → IsShrunk rounds.1.db marked.db
    marked-IsShrunk n p = record {
      rooms =
          λ k. room_ids-update (λ r. r.status == "running") mark rounds.1.db.rooms k (λ r. refl);
      run_ids = λ k. omega arith;
      run_rooms = λ k. omega arith;
      active = λ k. omega arith;
      free = λ k. inl (
          omega (
            arith,
            no_run_left n p,
            count_mono (holds k) is_running rounds.1.db.runs (λ r e. ground arith),
          ));
    }

    pub recover_running-IsConsistent : IsConsistent s.db → IsConsistent (recover_running x d s).1.db
    recover_running-IsConsistent c =
        let c' =
          recover_each-IsConsistent x d.nonce 0 (x.to_rfc3339 (d.now 0)) (active s.db.runs) s c in
        elim recover_running_cases [
          | inl (e, p, q) ↦ rw q c'
          | inr (n, p, q) ↦
              rw q (
                IsShrunk-IsConsistent rounds.1.db marked.db c'.one_message (marked-IsShrunk n p) c')
        ]
