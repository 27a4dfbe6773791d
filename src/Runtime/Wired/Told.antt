-- ===== src/Runtime/Wired/Told.antt =====
-- Whom stopping a run of backend/src/inference.rs tells, after any sequence of calls and task steps.
use ryu_rooms.Prelude.{
  String, ◌≡◌, refl, ◌∙◌, ap, inl, inr, true, false, ◌&&◌, some, eqb, ◌==◌, arith, Bool-cases,
  Option-cases, eq_of_==, eq_iff,
}
use ryu_rooms.Result.{Result-cases}
use ryu_rooms.Table.{find_where}
use ryu_rooms.Table.Counts.{find_where-test}
use ryu_rooms.Store.{External, Draw}
use ryu_rooms.Store.Runs.{stop_run as stop_run_in_store}
use ryu_rooms.Runtime.{
  ActiveRun, Generation, RoomRuntime, is_canceled, is_entry_of, send_cancel, remove_active,
  snapshot, stop_run, publish,
}
use ryu_rooms.Runtime.Generating.{room_of, run_of}
use ryu_rooms.Runtime.Moves.{Moves, Runtimes, start, move, submits, cancels, shuts, opens, streams}
use ryu_rooms.Runtime.Active.{snapshot-canceled}
use ryu_rooms.Runtime.Guards.{submit_turn-Guards, stop_run-Guards, close_room-Guards}
use ryu_rooms.Runtime.Wired.{
  In, In-find, Wired, IsWired, start_run-Guards, remove_active-Guards,
  remove_active_for_room-Guards,
}
use ryu_rooms.Runtime.Wired.Tasks.{task_step-Holds, task_open-Holds}

module _ (x : External) where
  Moves-IsWired : {a b : RoomRuntime} → Moves x a b → IsWired a → IsWired b
  Moves-IsWired {a} (submits d session input) c =
      (submit_turn-Guards Wired x d session input start_run-Guards).at a c
  Moves-IsWired {a} (cancels d room_id run_id) c =
      (stop_run-Guards Wired x d room_id run_id (remove_active-Guards room_id run_id)).at a c
  Moves-IsWired {a} (shuts d d' room_id) c =
      (close_room-Guards Wired x d d' room_id (remove_active-Guards room_id)
          (remove_active_for_room-Guards room_id)).at
        a c
  Moves-IsWired {a} (opens d g answer) c =
      task_open-Holds x Wired g d answer a (remove_active-Guards (room_of g) (run_of g)) c
  Moves-IsWired {a} (streams d d' g signal) c =
      task_step-Holds x Wired g d d' signal a (remove_active-Guards (room_of g) (run_of g)) c

  -- Whatever sequence of calls and of task steps the runtime goes through, it stays wired: the tasks
  -- that it spawned have distinct channels, all of which it gave out, and each entry of the map has
  -- the channel of a task for its own room and its own run.
  pub Runtimes-IsWired : {a b : RoomRuntime} → IsWired a → Runtimes x a b → IsWired b
  Runtimes-IsWired c start = c
  Runtimes-IsWired c (move r m) = Moves-IsWired m (Runtimes-IsWired c r)

  -- Nothing after the first part of `stop_run` cancels.
  stop_run-canceled :
      (d : Draw) (room_id run_id : String) (rt : RoomRuntime)
      → (stop_run x d room_id run_id rt).1.canceled ≡ (send_cancel room_id run_id rt).1.canceled
  unfolding stop_run remove_active publish send_cancel
  stop_run-canceled d room_id run_id rt =
      let rt' = (send_cancel room_id run_id rt).1 in
      elim (Result-cases (stop_run_in_store x d room_id run_id rt'.store).0) [
        | inr (er, p) ↦ rw p refl
        | inl (_, p) ↦
            let t =
              (remove_active room_id run_id
                (record rt' { store = (stop_run_in_store x d room_id run_id rt'.store).1 })).1 in
            let (canceled, _) = snapshot-canceled x room_id t in
            elim (Result-cases (snapshot x room_id t).0) [
              | inr (er, q) ↦ rw (p, q, canceled) refl
              | inl (found, q) ↦ rw (p, q, canceled) refl
            ]
      ]

  same_run :
      (room_id run_id : String) (rt : RoomRuntime) (g : Generation) (entry : ActiveRun)
      → IsWired rt
      → In g rt.spawned
      → (room_of g == room_id && run_of g == run_id) ≡ false
      → find_where (is_entry_of room_id) rt.active ≡ some entry
      → (entry.run_id == run_id) ≡ true
      → eqb g.channel entry.channel ≡ true
      → ⊥
  same_run room_id run_id rt g entry c i other found e f =
      let of_room : (entry.room_id == room_id) ≡ true =
        find_where-test (is_entry_of room_id) rt.active entry found in
      let (h, j, channel, room, run) =
        c.task entry (In-find (is_entry_of room_id) entry rt.active found) in
      let same : g ≡ h = c.unique g h i j (ground (arith, f, channel)) in
      let room' : (room_of g == room_id) ≡ true =
        (eq_iff (room_of g) room_id).1 (ap room_of same ∙ room ∙ eq_of_== of_room) in
      let run' : (run_of g == run_id) ≡ true =
        (eq_iff (run_of g) run_id).1 (ap run_of same ∙ run ∙ eq_of_== e) in
      let both = rw (room', run') at other in cc

  send_cancel-others :
      (room_id run_id : String) (rt : RoomRuntime) (g : Generation)
      → IsWired rt
      → In g rt.spawned
      → (room_of g == room_id && run_of g == run_id) ≡ false
      → is_canceled g.channel (send_cancel room_id run_id rt).1.canceled
        ≡ is_canceled g.channel rt.canceled
  unfolding send_cancel is_canceled
  send_cancel-others room_id run_id rt g c i other =
      elim (Option-cases (find_where (is_entry_of room_id) rt.active)) [
        | inl lost ↦ rw lost refl
        | inr (entry, found) ↦ elim (Bool-cases (entry.run_id == run_id)) [
          | inr e ↦ rw (found, e) refl
          | inl e ↦ elim (Bool-cases (eqb g.channel entry.channel)) [
            | inr f ↦ rw (found, e, f) refl
            | inl f ↦ absurd (same_run room_id run_id rt g entry c i other found e f)
          ]
        ]
      ]

  -- Stopping a run tells only its own task. After any sequence of calls and of task steps from a
  -- wired runtime, as an empty one is, stopping a run leaves what every spawned task of another room
  -- or of another run has been told, whether the store then cancels the run or fails.
  pub stop_run_tells_only :
      (d : Draw) (room_id run_id : String) (rt0 rt : RoomRuntime) (g : Generation)
      → IsWired rt0
      → Runtimes x rt0 rt
      → In g rt.spawned
      → (room_of g == room_id && run_of g == run_id) ≡ false
      → is_canceled g.channel (stop_run x d room_id run_id rt).1.canceled
        ≡ is_canceled g.channel rt.canceled
  stop_run_tells_only d room_id run_id rt0 rt g c r i other =
      ap (is_canceled g.channel) (stop_run-canceled d room_id run_id rt)
      ∙ send_cancel-others room_id run_id rt g (Runtimes-IsWired c r) i other
