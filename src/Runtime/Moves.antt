-- ===== src/Runtime/Moves.antt =====
-- The moves of the runtime of backend/src/inference.rs, calls and task steps, and the store under
-- them.
use Prim.Native.String.{◌++◌ as append}
use ryu_rooms.Prelude.{
  Bool-cases, ◌==◌, ◌&&◌, inl, inr, String, ◌≡◌, refl, sym, subst, not, Option, none, some,
  if◌then◌else◌,
}
use ryu_rooms.Result.{Result, ok, err}
use ryu_rooms.Model.{RoomSession, RoomSnapshot}
use ryu_rooms.Store.{empty, StoreError, External, Draw}
use ryu_rooms.Store.Turns.{SubmitTurnInput}
use ryu_rooms.Store.Runs.{append_delta, finish_run}
use ryu_rooms.Store.Lifecycle.{Reach, here, next, Reach-IsConsistent, extends}
use ryu_rooms.Text.{is_empty}
use ryu_rooms.Store.Consistent.{IsConsistent}
use ryu_rooms.Runtime.{
  Generation, RoomRuntime, on_store, publish, remove_active, submit_turn, stop_run, close_room,
}
use ryu_rooms.Runtime.Generating.{
  Signal, ModelStreamEvent, completed, failed, text_delta, changed, next as item, completion,
  failure, fail_generation, on_delta, on_completed, on_event, generation_step, task_step, run_of,
  room_of, request_id_of, report, told, fail_unless_told, after_delta, after_finish, ends, goes_on,
  settle_task, model_error_code, ModelStreamError, open_stream, task_open,
}
use ryu_rooms.Runtime.Follows.{
  trans, finish_run-Runs, submit_turn-Follows, stop_run-Follows, close_room-Follows,
}

module _ (x : External) where
  report-same :
      (g : Generation) (code : String) (r : Result StoreError RoomSnapshot) (rt : RoomRuntime)
      → (report x (room_of g) (run_of g) (request_id_of g) code r rt).store ≡ rt.store
  unfolding publish
  report-same g code (ok found) rt = refl
  report-same g code (err e) rt = refl

  fail_generation-Reach :
      (d : Draw) (g : Generation) (code : String) (rt : RoomRuntime)
      → Reach x rt.store (fail_generation x d g code rt).store
  unfolding fail_generation
  fail_generation-Reach d g code rt =
      let after = on_store (finish_run x d (room_of g) (run_of g) (failure code)) rt in
      subst (λ t. Reach x rt.store t) (sym (report-same g code after.0 after.1))
        ((finish_run-Runs x d (room_of g) (run_of g) (failure code) refl).at rt.store)

  fail_unless_told-Reach :
      (d : Draw) (g : Generation) (code : String) (rt : RoomRuntime)
      → Reach x rt.store (fail_unless_told x d g code rt).1.store
  fail_unless_told-Reach d g code rt = elim (Bool-cases (told x g rt)) [
    | inl t ↦ rw t here
    | inr t ↦ rw t (fail_generation-Reach d g code rt)
  ]

  on_delta-Reach :
      (d d' : Draw) (g : Generation) (delta : String) (rt : RoomRuntime)
      → Reach x rt.store (on_delta x d d' g delta rt).1.store
  unfolding on_delta publish
  on_delta-Reach d d' g delta rt =
      let after = on_store (append_delta x d (room_of g) (run_of g) delta) rt in
      trans x (next here (extends d (room_of g) (run_of g) delta)) (by_case after.0 after.1)
    where
      g' : Generation
      g' = record g { partial = append g.partial delta }

      by_case :
          (r : Result StoreError (Unit {0})) (t : RoomRuntime)
          → Reach x t.store (after_delta x d' g' delta r t).1.store
      by_case (ok _) t = here
      by_case (err _) t = fail_unless_told-Reach d' g' "outputRejected" t

  on_completed-Reach :
      (d d' : Draw) (g : Generation) (rt : RoomRuntime)
      → Reach x rt.store (on_completed x d d' g rt).1.store
  unfolding on_completed publish
  on_completed-Reach d d' g rt = elim (Bool-cases (told x g rt)) [
    | inl t ↦ rw t here
    | inr t ↦
        let after = on_store (finish_run x d (room_of g) (run_of g) completion) rt in
        rw t (
          trans x ((finish_run-Runs x d (room_of g) (run_of g) completion refl).at rt.store)
            (by_case after.0 after.1))
  ]
    where
      by_case :
          (r : Result StoreError RoomSnapshot) (t : RoomRuntime)
          → Reach x t.store (after_finish x d' g r t).1.store
      by_case (ok _) t = here
      by_case (err _) t = fail_generation-Reach d' g "storeUnavailable" t

  -- An event of another request ends the task as a protocol error.
  checked :
      (d : Draw) (g : Generation) (request_id : String)
      (m : RoomRuntime → Option Generation × RoomRuntime) (rt : RoomRuntime)
      → Reach x rt.store (m rt).1.store
      → Reach x rt.store
          (if not (request_id == request_id_of g)
            then ends (fail_generation x d g "modelProtocol" rt)
            else m rt).1.store
  checked d g request_id m rt h = elim (Bool-cases (request_id == request_id_of g)) [
    | inl e ↦ rw e h
    | inr e ↦ rw e (fail_generation-Reach d g "modelProtocol" rt)
  ]

  on_event-Reach :
      (d d' : Draw) (g : Generation) (event : ModelStreamEvent) (rt : RoomRuntime)
      → Reach x rt.store (on_event x d d' g event rt).1.store
  unfolding on_event
  on_event-Reach d d' g (text_delta request_id delta) rt =
      checked d g request_id
        (λ rt. if is_empty delta then goes_on g rt else on_delta x d d' g delta rt) rt
        (elim (Bool-cases (is_empty delta)) [
          | inl e ↦ rw e here
          | inr e ↦ rw e (on_delta-Reach d d' g delta rt)
        ])
  on_event-Reach d d' g (completed request_id) rt =
      checked d g request_id (on_completed x d d' g) rt (on_completed-Reach d d' g rt)
  on_event-Reach d d' g (failed request_id _ _) rt =
      checked d g request_id (fail_unless_told x d g "modelFailed") rt
        (fail_unless_told-Reach d g "modelFailed" rt)

  generation_step-Reach :
      (d d' : Draw) (g : Generation) (signal : Signal) (rt : RoomRuntime)
      → Reach x rt.store (generation_step x d d' g signal rt).1.store
  unfolding generation_step
  generation_step-Reach d d' g (changed is_ok) rt = elim (Bool-cases (is_ok && told x g rt)) [
    | inl t ↦ rw t here
    | inr t ↦ rw t here
  ]
  generation_step-Reach d d' g (item none) rt = fail_generation-Reach d g "modelStreamEnded" rt
  generation_step-Reach d d' g (item (some (err error))) rt =
      fail_unless_told-Reach d g (model_error_code error) rt
  generation_step-Reach d d' g (item (some (ok event))) rt = on_event-Reach d d' g event rt

  task_step-Reach :
      (d d' : Draw) (g : Generation) (signal : Signal) (rt : RoomRuntime)
      → Reach x rt.store (task_step x d d' g signal rt).1.store
  unfolding task_step remove_active
  task_step-Reach d d' g signal rt =
      let after = generation_step x d d' g signal rt in
      trans x (generation_step-Reach d d' g signal rt) (by_case after.0 after.1)
    where
      by_case :
          (next : Option Generation) (t : RoomRuntime)
          → Reach x t.store (settle_task x g (next, t)).1.store
      by_case (some g') t = here
      by_case none t = here

  task_open-Reach :
      (d : Draw) (g : Generation) (answer : Result ModelStreamError (Unit {0})) (rt : RoomRuntime)
      → Reach x rt.store (task_open x d g answer rt).1.store
  unfolding task_open open_stream remove_active
  task_open-Reach d g (ok _) rt = here
  task_open-Reach d g (err error) rt = fail_generation-Reach d g (model_error_code error) rt

  -- The runtime moves: a call of one of its operations by anyone, the answer that a generation's
  -- task has to its request, or a step of its loop.
  pub data Moves (rt : RoomRuntime) : RoomRuntime → Type 0 where
    submits :
        (d : Draw) (session : RoomSession) (input : SubmitTurnInput)
        → Moves rt (submit_turn x d session input rt).1
    cancels : (d : Draw) (room_id run_id : String) → Moves rt (stop_run x d room_id run_id rt).1
    shuts : (d d' : Draw) (room_id : String) → Moves rt (close_room x d d' room_id rt).1
    opens :
        (d : Draw) (g : Generation) (answer : Result ModelStreamError (Unit {0}))
        → Moves rt (task_open x d g answer rt).1
    streams :
        (d d' : Draw) (g : Generation) (signal : Signal) → Moves rt (task_step x d d' g signal rt).1

  pub data Runtimes (rt : RoomRuntime) : RoomRuntime → Type 0 where
    start : Runtimes rt rt
    move : {a b : RoomRuntime} → Runtimes rt a → Moves a b → Runtimes rt b

  Moves-Reach : {a b : RoomRuntime} → Moves a b → Reach x a.store b.store
  Moves-Reach {a} (submits d session input) = (submit_turn-Follows x d session input).at a
  Moves-Reach {a} (cancels d room_id run_id) = (stop_run-Follows x d room_id run_id).at a
  Moves-Reach {a} (shuts d d' room_id) = (close_room-Follows x d d' room_id).at a
  Moves-Reach {a} (opens d g answer) = task_open-Reach d g answer a
  Moves-Reach {a} (streams d d' g signal) = task_step-Reach d d' g signal a

  -- Whatever sequence of calls and of task steps the runtime goes through, its store goes through a
  -- sequence of locked sections: the runtime refines the store.
  pub Runtimes-Reach : {a b : RoomRuntime} → Runtimes a b → Reach x a.store b.store
  Runtimes-Reach start = here
  Runtimes-Reach (move r m) = trans x (Runtimes-Reach r) (Moves-Reach m)

  -- So whatever calls and task steps follow on an empty database, in any order, the database is
  -- consistent: at most one run of a room is queued or running, and its room is running or closed.
  pub Runtimes-IsConsistent :
      {a b : RoomRuntime} → a.store.db ≡ empty → Runtimes a b → IsConsistent b.store.db
  Runtimes-IsConsistent e r = Reach-IsConsistent x e (Runtimes-Reach r)
