-- ===== src/Runtime/Wired/Tasks.antt =====
-- The task of a generation (backend/src/inference.rs) and the map `active`: it removes its own entry
-- when it ends and changes nothing else of what the runtime keeps of tasks.
use Prim.Native.String.{◌++◌ as append}
use ryu_rooms.Prelude.{
  ℕ, String, ◌≡◌, refl, sym, subst, inl, inr, not, ◌&&◌, Option, none, some, List, Bool-cases, ◌==◌,
  if◌then◌else◌,
}
use ryu_rooms.Result.{Result, ok, err}
use ryu_rooms.Text.{is_empty}
use ryu_rooms.Model.{RoomSnapshot}
use ryu_rooms.Store.{StoreError, External, Draw}
use ryu_rooms.Store.Runs.{append_delta, finish_run}
use ryu_rooms.Runtime.{ActiveRun, Generation, RoomRuntime, on_store, publish, remove_active}
use ryu_rooms.Runtime.Generating.{
  Signal, ModelStreamEvent, ModelStreamError, changed, completed, failed, text_delta, next, room_of,
  run_of, request_id_of, told, ends, goes_on, report, fail_generation, fail_unless_told, on_delta,
  on_completed, on_event, after_delta, after_finish, generation_step, open_stream, task_step,
  task_open, settle_task, model_error_code, completion,
}
use ryu_rooms.Runtime.Guards.{Guards, Holds}

-- What the runtime keeps of its tasks.
abbrev Wires : Type 0
Wires = List ActiveRun × ℕ × List Generation

abbrev wires : RoomRuntime → Wires
wires rt = (rt.active, rt.channels, rt.spawned)

module _ (x : External) where
  report-wires :
      (room_id run_id request_id code : String) (r : Result StoreError RoomSnapshot)
      (rt : RoomRuntime)
      → wires (report x room_id run_id request_id code r rt) ≡ wires rt
  unfolding publish
  report-wires room_id run_id request_id code (ok found) rt = refl
  report-wires room_id run_id request_id code (err e) rt = refl

  fail_generation-wires :
      (d : Draw) (g : Generation) (code : String) (rt : RoomRuntime)
      → wires (fail_generation x d g code rt) ≡ wires rt
  unfolding fail_generation
  fail_generation-wires d g code rt = report-wires (room_of g) (run_of g) (request_id_of g) code _ _

  fail_unless_told-wires :
      (d : Draw) (g : Generation) (code : String) (rt : RoomRuntime)
      → wires (fail_unless_told x d g code rt).1 ≡ wires rt
  fail_unless_told-wires d g code rt = elim (Bool-cases (told x g rt)) [
    | inl t ↦ rw t refl
    | inr t ↦ rw t (fail_generation-wires d g code rt)
  ]

  on_delta-wires :
      (d d' : Draw) (g : Generation) (delta : String) (rt : RoomRuntime)
      → wires (on_delta x d d' g delta rt).1 ≡ wires rt
  unfolding on_delta publish
  on_delta-wires d d' g delta rt =
      let after = on_store (append_delta x d (room_of g) (run_of g) delta) rt in
      by_case after.0 after.1
    where
      g' : Generation
      g' = record g { partial = append g.partial delta }

      by_case :
          (r : Result StoreError (Unit {0})) (t : RoomRuntime)
          → wires (after_delta x d' g' delta r t).1 ≡ wires t
      by_case (ok _) t = refl
      by_case (err _) t = fail_unless_told-wires d' g' "outputRejected" t

  on_completed-wires :
      (d d' : Draw) (g : Generation) (rt : RoomRuntime)
      → wires (on_completed x d d' g rt).1 ≡ wires rt
  unfolding on_completed publish
  on_completed-wires d d' g rt = elim (Bool-cases (told x g rt)) [
    | inl t ↦ rw t refl
    | inr t ↦
        let after = on_store (finish_run x d (room_of g) (run_of g) completion) rt in
        rw t (by_case after.0 after.1)
  ]
    where
      by_case :
          (r : Result StoreError RoomSnapshot) (t : RoomRuntime)
          → wires (after_finish x d' g r t).1 ≡ wires t
      by_case (ok _) t = refl
      by_case (err _) t = fail_generation-wires d' g "storeUnavailable" t

  checked :
      (d : Draw) (g : Generation) (request_id : String)
      (m : RoomRuntime → Option Generation × RoomRuntime) (rt : RoomRuntime)
      → wires (m rt).1 ≡ wires rt
      → wires
          (if not (request_id == request_id_of g)
            then ends (fail_generation x d g "modelProtocol" rt)
            else m rt).1
        ≡ wires rt
  checked d g request_id m rt h = elim (Bool-cases (request_id == request_id_of g)) [
    | inl e ↦ rw e h
    | inr e ↦ rw e (fail_generation-wires d g "modelProtocol" rt)
  ]

  on_event-wires :
      (d d' : Draw) (g : Generation) (event : ModelStreamEvent) (rt : RoomRuntime)
      → wires (on_event x d d' g event rt).1 ≡ wires rt
  unfolding on_event
  on_event-wires d d' g (text_delta request_id delta) rt =
      checked d g request_id
        (λ rt. if is_empty delta then goes_on g rt else on_delta x d d' g delta rt) rt
        (elim (Bool-cases (is_empty delta)) [
          | inl e ↦ rw e refl
          | inr e ↦ rw e (on_delta-wires d d' g delta rt)
        ])
  on_event-wires d d' g (completed request_id) rt =
      checked d g request_id (on_completed x d d' g) rt (on_completed-wires d d' g rt)
  on_event-wires d d' g (failed request_id _ _) rt =
      checked d g request_id (fail_unless_told x d g "modelFailed") rt
        (fail_unless_told-wires d g "modelFailed" rt)

  generation_step-wires :
      (d d' : Draw) (g : Generation) (signal : Signal) (rt : RoomRuntime)
      → wires (generation_step x d d' g signal rt).1 ≡ wires rt
  unfolding generation_step
  generation_step-wires d d' g (changed is_ok) rt = elim (Bool-cases (is_ok && told x g rt)) [
    | inl t ↦ rw t refl
    | inr t ↦ rw t refl
  ]
  generation_step-wires d d' g (next none) rt = fail_generation-wires d g "modelStreamEnded" rt
  generation_step-wires d d' g (next (some (err error))) rt =
      fail_unless_told-wires d g (model_error_code error) rt
  generation_step-wires d d' g (next (some (ok event))) rt = on_event-wires d d' g event rt

  open_stream-wires :
      (d : Draw) (g : Generation) (answer : Result ModelStreamError (Unit {0})) (rt : RoomRuntime)
      → wires (open_stream x d g answer rt).1 ≡ wires rt
  unfolding open_stream
  open_stream-wires d g (ok _) rt = refl
  open_stream-wires d g (err error) rt = fail_generation-wires d g (model_error_code error) rt

  module _ (P : List ActiveRun → ℕ → List Generation → Type 0) (g : Generation) where
    settle_task-Holds :
        (r : Option Generation × RoomRuntime) (rt : RoomRuntime)
        → wires r.1 ≡ wires rt
        → Guards P (remove_active (room_of g) (run_of g))
        → Holds P rt
        → Holds P (settle_task x g r).1
    settle_task-Holds (some g', t) rt e k c = subst (λ (w : Wires). P w.0 w.1 w.2) (sym e) c
    settle_task-Holds (none, t) rt e k c = k.at t (subst (λ (w : Wires). P w.0 w.1 w.2) (sym e) c)

    pub task_step-Holds :
        (d d' : Draw) (signal : Signal) (rt : RoomRuntime)
        → Guards P (remove_active (room_of g) (run_of g))
        → Holds P rt
        → Holds P (task_step x d d' g signal rt).1
    unfolding task_step
    task_step-Holds d d' signal rt k c =
        settle_task-Holds (generation_step x d d' g signal rt) rt
          (generation_step-wires d d' g signal rt) k c

    pub task_open-Holds :
        (d : Draw) (answer : Result ModelStreamError (Unit {0})) (rt : RoomRuntime)
        → Guards P (remove_active (room_of g) (run_of g))
        → Holds P rt
        → Holds P (task_open x d g answer rt).1
    unfolding task_open
    task_open-Holds d answer rt k c =
        settle_task-Holds (open_stream x d g answer rt) rt (open_stream-wires d g answer rt) k c
