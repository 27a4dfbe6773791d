-- ===== src/Runtime/Wired/Entries.antt =====
-- Which entries of the map `active` of backend/src/inference.rs a call or a task step may take away.
use ryu_rooms.Prelude.{
  ℕ, String, ◌≡◌, refl, ap, inl, inr, Bool, false, ◌&&◌, List, [], ◌∷◌, ◌==◌, Bool-cases,
}
use ryu_rooms.Table.{any_where, delete_where}
use ryu_rooms.Store.{External}
use ryu_rooms.Store.Turns.{AcceptedRun}
use ryu_rooms.Runtime.{
  ActiveRun, Generation, RoomRuntime, is_entry_of, remove_active, remove_active_for_room, start_run,
}
use ryu_rooms.Runtime.Generating.{room_of, run_of}
use ryu_rooms.Runtime.Guards.{Guards, submit_turn-Guards, stop_run-Guards, close_room-Guards}
use ryu_rooms.Runtime.Moves.{Moves, submits, cancels, shuts, opens, streams}
use ryu_rooms.Runtime.Wired.{In, In-cons}
use ryu_rooms.Runtime.Wired.Tasks.{task_step-Holds, task_open-Holds}

In-delete_other :
    {A : Type 0} (p : A → Bool) (a : A) (l : List A)
    → p a ≡ false
    → In a l
    → In a (delete_where p l)
unfolding delete_where
In-delete_other p a [] e h = h
In-delete_other p a (b ∷ l) e h = elim (Bool-cases (p b)) [
  | inr off ↦ rw off (In-cons a b l (delete_where p l) (In-delete_other p a l e) h)
  | inl on ↦ rw on (elim h [
    | inl same ↦ absurd (let both = ap p same in cc)
    | inr later ↦ In-delete_other p a l e later
  ])
]

-- The entry is in the map.
abbrev Has : ActiveRun → List ActiveRun → ℕ → List Generation → Type 0
Has entry active channels spawned = In entry active

-- The entry is that of the room and the run.
abbrev pub is_of : String → String → ActiveRun → Bool
is_of room_id run_id entry = is_entry_of room_id entry && entry.run_id == run_id

module _ (entry : ActiveRun) where
  remove_active-Has :
      (room_id run_id : String)
      → is_of room_id run_id entry ≡ false
      → Guards (Has entry) (remove_active room_id run_id)
  unfolding remove_active
  remove_active-Has room_id run_id e = record {
    at = λ rt h. In-delete_other (is_of room_id run_id) entry rt.active e h;
  }

  remove_active_for_room-Has :
      (room_id : String)
      → is_entry_of room_id entry ≡ false
      → Guards (Has entry) (remove_active_for_room room_id)
  unfolding remove_active_for_room
  remove_active_for_room-Has room_id e = record {
    at = λ rt h. In-delete_other (is_entry_of room_id) entry rt.active e h;
  }

  start_run-Has : (accepted : AcceptedRun) → Guards (Has entry) (start_run accepted)
  unfolding start_run
  start_run-Has accepted = record {
    at = λ rt h. elim (Bool-cases (any_where (is_entry_of accepted.snapshot.id) rt.active)) [
      | inl busy ↦ rw busy h
      | inr idle ↦ rw idle (inr h)
    ];
  }

module _ (x : External) where
  -- What a move is about: the run that is stopped, the room that is closed, or the run of the task.
  abbrev pub is_about : {a b : RoomRuntime} → Moves x a b → ActiveRun → Bool
  is_about (submits d session input) entry = false
  is_about (cancels d room_id run_id) entry = is_of room_id run_id entry
  is_about (shuts d d' room_id) entry = is_entry_of room_id entry
  is_about (opens d g answer) entry = is_of (room_of g) (run_of g) entry
  is_about (streams d d' g signal) entry = is_of (room_of g) (run_of g) entry

  -- A run keeps its entry through whatever is not about it. An entry that is in the map before a
  -- move is in it after the move, unless the move stops that run of that room, closes that room, or
  -- is a step of a task of that room and that run: submitting a turn takes no entry away, also where
  -- the room is busy, and a task of an earlier run that ends late leaves the entry of the next one.
  pub Moves-In :
      (entry : ActiveRun) {a b : RoomRuntime} (m : Moves x a b)
      → is_about m entry ≡ false
      → In entry a.active
      → In entry b.active
  Moves-In entry {a} (submits d session input) e h =
      (submit_turn-Guards (Has entry) x d session input (start_run-Has entry)).at a h
  Moves-In entry {a} (cancels d room_id run_id) e h =
      (stop_run-Guards (Has entry) x d room_id run_id (remove_active-Has entry room_id run_id e)).at
        a h
  Moves-In entry {a} (shuts d d' room_id) e h =
      (close_room-Guards (Has entry) x d d' room_id
          (λ run_id. remove_active-Has entry room_id run_id (rw e refl))
          (remove_active_for_room-Has entry room_id e)).at
        a h
  Moves-In entry {a} (opens d g answer) e h =
      task_open-Holds x (Has entry) g d answer a (remove_active-Has entry (room_of g) (run_of g) e)
        h
  Moves-In entry {a} (streams d d' g signal) e h =
      task_step-Holds x (Has entry) g d d' signal a
        (remove_active-Has entry (room_of g) (run_of g) e) h
