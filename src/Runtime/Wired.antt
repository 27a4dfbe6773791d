-- ===== src/Runtime/Wired.antt =====
-- Which task a channel of backend/src/inference.rs belongs to.
pub mod Tasks
pub mod Told
pub mod Entries
use ryu_rooms.Prelude.{
  ◌<◌, ◌+◌, ◌++◌, [], ◌∷◌, ℕ, ap, sym, ◌∙◌, String, ◌≡◌, refl, inl, inr, ◌⊎◌, Bool, ◌&&◌, some,
  List, ◌==◌, arith, Bool-cases,
}
use ryu_rooms.Table.{any_where, find_where, delete_where}
use ryu_rooms.Store.Turns.{AcceptedRun}
use ryu_rooms.Runtime.{
  ActiveRun, RoomRuntime, remove_active, remove_active_for_room, is_entry_of, start_run, snapshot,
}
use ryu_rooms.Runtime.{Generation}
use ryu_rooms.Runtime.Guards.{Guards}
use ryu_rooms.Runtime.Generating.{room_of, run_of}

abbrev pub In : {A : Type 0} → A → List A → Type 0
In a [] = ⊥
In a (b ∷ bs) = (a ≡ b) ⊎ In a bs

In-snoc_cases : {A : Type 0} (a b : A) (l : List A) → In a (l ++ b ∷ []) → In a l ⊎ (a ≡ b)
In-snoc_cases a b [] (inl e) = inr e
In-snoc_cases a b [] (inr h) = absurd h
In-snoc_cases a b (c ∷ l) (inl e) = inl (inl e)
In-snoc_cases a b (c ∷ l) (inr h) = elim (In-snoc_cases a b l h) [
  | inl i ↦ inl (inr i)
  | inr e ↦ inr e
]

In-snoc : {A : Type 0} (a b : A) (l : List A) → In a l → In a (l ++ b ∷ [])
In-snoc a b [] h = absurd h
In-snoc a b (c ∷ l) (inl e) = inl e
In-snoc a b (c ∷ l) (inr h) = inr (In-snoc a b l h)

In-snoc_last : {A : Type 0} (b : A) (l : List A) → In b (l ++ b ∷ [])
In-snoc_last b [] = inl refl
In-snoc_last b (c ∷ l) = inr (In-snoc_last b l)

pub In-cons :
    {A : Type 0} (a b : A) (k l : List A) → (In a k → In a l) → In a (b ∷ k) → In a (b ∷ l)
In-cons a b k l h (inl e) = inl e
In-cons a b k l h (inr i) = inr (h i)

In-delete : {A : Type 0} (p : A → Bool) (a : A) (l : List A) → In a (delete_where p l) → In a l
unfolding delete_where
In-delete p a [] h = h
In-delete p a (b ∷ l) h = elim (Bool-cases (p b)) [
  | inl e ↦ inr (In-delete p a l (rw e at h))
  | inr e ↦ In-cons a b (delete_where p l) l (In-delete p a l) (rw e at h)
]

-- What `find_where` gives is in the list.
pub In-find : {A : Type 0} (p : A → Bool) (a : A) (l : List A) → find_where p l ≡ some a → In a l
unfolding find_where
In-find p a [] h = absurd cc
In-find {A} p a (b ∷ l) h = elim (Bool-cases (p b)) [
  | inl e ↦ inl (sym (some_inj (rw e at h)))
  | inr e ↦ inr (In-find p a l (rw e at h))
]
  where
    some_inj : {c d : A} → some c ≡ some d → c ≡ d
    some_inj e = cc

-- The channels of the tasks are distinct and were given out, and each entry of the map has the
-- channel of a task for its own room and run.
pub record Wired (active : List ActiveRun) (channels : ℕ) (spawned : List Generation) : Type 0 where
  pub given : (g : Generation) → In g spawned → g.channel < channels
  pub unique : (g h : Generation) → In g spawned → In h spawned → g.channel ≡ h.channel → g ≡ h
  pub task :
      (entry : ActiveRun)
      → In entry active
      → (g : Generation) × In g spawned
        × (g.channel ≡ entry.channel)
        × (room_of g ≡ entry.room_id)
        × (run_of g ≡ entry.run_id)

abbrev pub IsWired : RoomRuntime → Type 0
IsWired rt = Wired rt.active rt.channels rt.spawned

-- Fewer entries.
pub Wired-delete :
    (p : ActiveRun → Bool) (active : List ActiveRun) (channels : ℕ) (spawned : List Generation)
    → Wired active channels spawned
    → Wired (delete_where p active) channels spawned
Wired-delete p active channels spawned c = record {
  given = c.given;
  unique = c.unique;
  task = λ entry h. c.task entry (In-delete p entry active h);
}

-- A new task with the next channel, and its entry.
Wired-start :
    (accepted : AcceptedRun) (active : List ActiveRun) (channels : ℕ) (spawned : List Generation)
    → Wired active channels spawned
    → Wired
        (record { room_id = accepted.snapshot.id; run_id = accepted.run.run_id; channel = channels }
          ∷ active)
        (channels + 1)
        (spawned ++ record { accepted = accepted; channel = channels; partial = "" } ∷ [])
Wired-start accepted active channels spawned c = record {
  given = λ g h. elim (In-snoc_cases g new spawned h) [
    | inl i ↦ omega (arith, c.given g i)
    | inr e ↦ omega (arith, ap (λ (k : Generation). k.channel) e)
  ];
  unique = λ g h ig ih e. elim (In-snoc_cases g new spawned ig) [
    | inl i ↦ elim (In-snoc_cases h new spawned ih) [
      | inl j ↦ c.unique g h i j e
      | inr f ↦ absurd (omega (arith, c.given g i, e, ap (λ (k : Generation). k.channel) f))
    ]
    | inr f ↦ elim (In-snoc_cases h new spawned ih) [
      | inl j ↦ absurd (omega (arith, c.given h j, e, ap (λ (k : Generation). k.channel) f))
      | inr k ↦ f ∙ sym k
    ]
  ];
  task = tasks;
}
  where
    new : Generation
    new = record { accepted = accepted; channel = channels; partial = "" }

    tasks :
        (entry : ActiveRun)
        → In entry (
            record {
              room_id = accepted.snapshot.id;
              run_id = accepted.run.run_id;
              channel = channels;
            }
            ∷ active)
        → (g : Generation) × In g (spawned ++ new ∷ [])
          × (g.channel ≡ entry.channel)
          × (room_of g ≡ entry.room_id)
          × (run_of g ≡ entry.run_id)
    tasks entry (inl e) = (
      new,
      In-snoc_last new spawned,
      sym (ap (λ (q : ActiveRun). q.channel) e),
      sym (ap (λ (q : ActiveRun). q.room_id) e),
      sym (ap (λ (q : ActiveRun). q.run_id) e),
    )
    tasks entry (inr h) =
        let (g, i, channel, room, run) = c.task entry h in
        (g, In-snoc g new spawned i, channel, room, run)

pub remove_active-Guards : (room_id run_id : String) → Guards Wired (remove_active room_id run_id)
unfolding remove_active
remove_active-Guards room_id run_id = record {
  at = λ rt c.
      Wired-delete (λ run. is_entry_of room_id run && run.run_id == run_id) rt.active rt.channels
        rt.spawned c;
}

pub remove_active_for_room-Guards :
    (room_id : String) → Guards Wired (remove_active_for_room room_id)
unfolding remove_active_for_room
remove_active_for_room-Guards room_id = record {
  at = λ rt c. Wired-delete (is_entry_of room_id) rt.active rt.channels rt.spawned c;
}

pub start_run-Guards : (accepted : AcceptedRun) → Guards Wired (start_run accepted)
unfolding start_run
start_run-Guards accepted = record {
  at = λ rt c. elim (Bool-cases (any_where (is_entry_of accepted.snapshot.id) rt.active)) [
    | inl b ↦ rw b c
    | inr b ↦ rw b (Wired-start accepted rt.active rt.channels rt.spawned c)
  ];
}
