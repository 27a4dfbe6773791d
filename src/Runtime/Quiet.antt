-- ===== src/Runtime/Quiet.antt =====
-- The task of a run that is over (backend/src/inference.rs): what it may still be given.
use Prim.Native.String.{◌++◌ as append}
use ryu_rooms.Prelude.{
  Option, String, ◌≡◌, refl, ◌∙◌, inl, inr, Bool, true, ◌&&◌, not, none, some, arith, ◌==◌,
  if◌then◌else◌, Bool-cases,
}
use ryu_rooms.Result.{Result, Result-cases, ok, err}
use ryu_rooms.Text.{is_empty}
use ryu_rooms.Table.{count_where, find_where}
use ryu_rooms.Table.Counts.{count_mono, count_of_find, find_where-test}
use ryu_rooms.Model.{RoomSnapshot, is_active}
use ryu_rooms.Store.{RunRow, Db, StoreError, RoomStore, External, Draw, or_raise, not_found, ◌>>=◌}
use ryu_rooms.Store.Ids.{validate_room_id}
use ryu_rooms.Store.Read.{snapshot}
use ryu_rooms.Store.Read.Keeps.{IsReading, snapshot-IsReading, IsReading-bind}
use ryu_rooms.Store.Runs.{RunTerminal, append_delta, finish_run, settle, is_run}
use ryu_rooms.Store.Runs.Effect.{settle_cases}
use ryu_rooms.Store.Runs.Extending.{append_delta_cases, is_running_run}
use ryu_rooms.Runtime.{Generation, RoomRuntime, on_store, publish}
use ryu_rooms.Runtime.Generating.{
  Signal, ModelStreamEvent, changed, completed, failed, text_delta, next, room_of, run_of,
  request_id_of, told, ends, goes_on, report, fail_generation, fail_unless_told, on_delta,
  on_completed, on_event, after_delta, after_finish, generation_step, model_error_code, completion,
  failure,
}

-- No run of the id is queued or running.
abbrev pub IsOver : String → Db → Type 0
IsOver run_id db = count_where (λ (r : RunRow). r.id == run_id && is_active r.status) db.runs ≡ 0

found_active :
    (run_id : String) (p : RunRow → Bool) (db : Db) (run : RunRow)
    → find_where p db.runs ≡ some run
    → is_active run.status ≡ true
    → ((r : RunRow) → p r ≡ true → (r.id == run_id) ≡ true)
    → IsOver run_id db
    → ⊥
found_active run_id p db run found active of_run over =
    let one = count_of_find p (λ (r : RunRow). is_active r.status) db.runs run found active in
    let two =
      count_mono (λ (r : RunRow). p r && is_active r.status)
        (λ (r : RunRow). r.id == run_id && is_active r.status) db.runs
        (λ r e. ground (arith, of_run r, e)) in
    omega (arith, one, two, over)

module _ (x : External) where
  settle-IsOver :
      (d : Draw) (room_id run_id : String) (terminal : RunTerminal) (s : RoomStore)
      → IsOver run_id s.db
      → (settle x d room_id run_id terminal s).1 ≡ s
  settle-IsOver d room_id run_id terminal s over =
      elim (settle_cases x d room_id run_id terminal s) [
        | inl (e, p) ↦ rw p refl
        | inr (run, found, inl (_, p)) ↦ rw p refl
        | inr (run, found, inr (active, _)) ↦ absurd (
            found_active run_id (is_run room_id run_id) s.db run found active
              (λ r e. ground (arith, e)) over)
      ]

  append_delta-IsOver :
      (d : Draw) (room_id run_id delta : String) (s : RoomStore)
      → IsOver run_id s.db
      → (append_delta x d room_id run_id delta s).1.db ≡ s.db
  append_delta-IsOver d room_id run_id delta s over =
      elim (append_delta_cases x d room_id run_id delta s) [
        | inl (e, p) ↦ rw p refl
        | inr (run, current, sealed, found, _, _, _, _, _) ↦ absurd (
            found_active run_id (is_running_run room_id run_id) s.db run found
              (ground (arith, find_where-test (is_running_run room_id run_id) s.db.runs run found))
              (λ r e. ground (arith, e)) over)
      ]

  finish_run-IsOver :
      (d : Draw) (room_id run_id : String) (terminal : RunTerminal) (s : RoomStore)
      → IsOver run_id s.db
      → (finish_run x d room_id run_id terminal s).1.db ≡ s.db
  unfolding finish_run
  finish_run-IsOver d given run_id terminal s over = elim (Result-cases (validate_room_id given)) [
    | inr (e, p) ↦ rw p refl
    | inl (room_id, p) ↦
        let same = settle-IsOver d room_id run_id terminal s over in
        elim (Result-cases (settle x d room_id run_id terminal s).0) [
          | inr (e, q) ↦ rw (p, q, same) refl
          | inl (_, q) ↦ rw (p, q, same) ((read room_id).same s)
        ]
  ]
    where
      shown : (found : Option RoomSnapshot) → IsReading (or_raise found not_found)
      shown none = record { same = λ s. refl }
      shown (some found) = record { same = λ s. refl }

      read :
          (room_id : String) → IsReading (snapshot x room_id >>= λ found. or_raise found not_found)
      read room_id = IsReading-bind (snapshot x room_id) _ (snapshot-IsReading x room_id) shown

  report-db :
      (room_id run_id request_id code : String) (r : Result StoreError RoomSnapshot)
      (rt : RoomRuntime)
      → (report x room_id run_id request_id code r rt).store.db ≡ rt.store.db
  unfolding publish
  report-db room_id run_id request_id code (ok found) rt = refl
  report-db room_id run_id request_id code (err e) rt = refl

  fail_generation-IsOver :
      (d : Draw) (g : Generation) (code : String) (rt : RoomRuntime)
      → IsOver (run_of g) rt.store.db
      → (fail_generation x d g code rt).store.db ≡ rt.store.db
  unfolding fail_generation
  fail_generation-IsOver d g code rt over =
      report-db (room_of g) (run_of g) (request_id_of g) code _ _
      ∙ finish_run-IsOver d (room_of g) (run_of g) (failure code) rt.store over

  fail_unless_told-IsOver :
      (d : Draw) (g : Generation) (code : String) (rt : RoomRuntime)
      → IsOver (run_of g) rt.store.db
      → (fail_unless_told x d g code rt).1.store.db ≡ rt.store.db
  fail_unless_told-IsOver d g code rt over = elim (Bool-cases (told x g rt)) [
    | inl t ↦ rw t refl
    | inr t ↦ rw t (fail_generation-IsOver d g code rt over)
  ]

  on_delta-IsOver :
      (d d' : Draw) (g : Generation) (delta : String) (rt : RoomRuntime)
      → IsOver (run_of g) rt.store.db
      → (on_delta x d d' g delta rt).1.store.db ≡ rt.store.db
  unfolding on_delta publish
  on_delta-IsOver d d' g delta rt over =
      let after = on_store (append_delta x d (room_of g) (run_of g) delta) rt in
      let same = append_delta-IsOver d (room_of g) (run_of g) delta rt.store over in
      by_case after.0 after.1 (rw same over) ∙ same
    where
      g' : Generation
      g' = record g { partial = append g.partial delta }

      by_case :
          (r : Result StoreError (Unit {0})) (t : RoomRuntime)
          → IsOver (run_of g) t.store.db
          → (after_delta x d' g' delta r t).1.store.db ≡ t.store.db
      by_case (ok _) t over = refl
      by_case (err _) t over = fail_unless_told-IsOver d' g' "outputRejected" t over

  on_completed-IsOver :
      (d d' : Draw) (g : Generation) (rt : RoomRuntime)
      → IsOver (run_of g) rt.store.db
      → (on_completed x d d' g rt).1.store.db ≡ rt.store.db
  unfolding on_completed publish
  on_completed-IsOver d d' g rt over = elim (Bool-cases (told x g rt)) [
    | inl t ↦ rw t refl
    | inr t ↦
        let after = on_store (finish_run x d (room_of g) (run_of g) completion) rt in
        let same = finish_run-IsOver d (room_of g) (run_of g) completion rt.store over in
        rw t (by_case after.0 after.1 (rw same over) ∙ same)
  ]
    where
      by_case :
          (r : Result StoreError RoomSnapshot) (t : RoomRuntime)
          → IsOver (run_of g) t.store.db
          → (after_finish x d' g r t).1.store.db ≡ t.store.db
      by_case (ok _) t over = refl
      by_case (err _) t over = fail_generation-IsOver d' g "storeUnavailable" t over

  -- An event of another request ends the task as a protocol error.
  checked :
      (d : Draw) (g : Generation) (request_id : String)
      (m : RoomRuntime → Option Generation × RoomRuntime) (rt : RoomRuntime)
      → IsOver (run_of g) rt.store.db
      → (m rt).1.store.db ≡ rt.store.db
      → (if not (request_id == request_id_of g)
          then ends (fail_generation x d g "modelProtocol" rt)
          else m rt).1.store.db
        ≡ rt.store.db
  checked d g request_id m rt over h = elim (Bool-cases (request_id == request_id_of g)) [
    | inl e ↦ rw e h
    | inr e ↦ rw e (fail_generation-IsOver d g "modelProtocol" rt over)
  ]

  on_event-IsOver :
      (d d' : Draw) (g : Generation) (event : ModelStreamEvent) (rt : RoomRuntime)
      → IsOver (run_of g) rt.store.db
      → (on_event x d d' g event rt).1.store.db ≡ rt.store.db
  unfolding on_event
  on_event-IsOver d d' g (text_delta request_id delta) rt over =
      checked d g request_id
        (λ rt. if is_empty delta then goes_on g rt else on_delta x d d' g delta rt) rt over
        (elim (Bool-cases (is_empty delta)) [
          | inl e ↦ rw e refl
          | inr e ↦ rw e (on_delta-IsOver d d' g delta rt over)
        ])
  on_event-IsOver d d' g (completed request_id) rt over =
      checked d g request_id (on_completed x d d' g) rt over (on_completed-IsOver d d' g rt over)
  on_event-IsOver d d' g (failed request_id _ _) rt over =
      checked d g request_id (fail_unless_told x d g "modelFailed") rt over
        (fail_unless_told-IsOver d g "modelFailed" rt over)

  -- A run that is over stays as it is whatever its task is still given. While the database has no
  -- queued or running run of the task's id, as after the run was stopped, failed, completed or
  -- interrupted, no signal changes the database: not a late delta, a completion, a failure, an error
  -- or the end of the stream, whether the task was told to stop or not.
  pub generation_step-IsOver :
      (d d' : Draw) (g : Generation) (signal : Signal) (rt : RoomRuntime)
      → IsOver (run_of g) rt.store.db
      → (generation_step x d d' g signal rt).1.store.db ≡ rt.store.db
  unfolding generation_step
  generation_step-IsOver d d' g (changed is_ok) rt over = elim (Bool-cases (is_ok && told x g rt)) [
    | inl t ↦ rw t refl
    | inr t ↦ rw t refl
  ]
  generation_step-IsOver d d' g (next none) rt over =
      fail_generation-IsOver d g "modelStreamEnded" rt over
  generation_step-IsOver d d' g (next (some (err error))) rt over =
      fail_unless_told-IsOver d g (model_error_code error) rt over
  generation_step-IsOver d d' g (next (some (ok event))) rt over =
      on_event-IsOver d d' g event rt over
