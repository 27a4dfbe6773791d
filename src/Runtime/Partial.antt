-- ===== src/Runtime/Partial.antt =====
-- What a task of backend/src/inference.rs has streamed, and what the database holds of it.
use Prim.Native.String.{◌++◌ as append, [], ◌∷◌}
use text.Mathlib.TextLemmas.{append-nil}
use ryu_rooms.Prelude.{
  String, ◌≡◌, inl, inr, refl, true, ◌&&◌, Option, none, some, ◌==◌, arith, Bool-cases, subst,
}
use ryu_rooms.Result.{Result, Result-cases, ok, err}
use ryu_rooms.Text.{is_empty}
use ryu_rooms.Model.{RoomSnapshot}
use ryu_rooms.Seal.{IsFaithful}
use ryu_rooms.Store.{StoreError, External, Draw}
use ryu_rooms.Store.Runs.{append_delta}
use ryu_rooms.Store.Runs.Growing.{Says, append_delta-Says}
use ryu_rooms.Runtime.{Generation, RoomRuntime, publish}
use ryu_rooms.Runtime.Generating.{
  Signal, ModelStreamEvent, changed, completed, failed, text_delta, next, room_of, run_of,
  request_id_of, told, ends, fail_unless_told, on_delta, on_completed, on_event, after_finish,
  generation_step, model_error_code,
}

module _ (x : External) (law : IsFaithful x.sealing) where
  -- The database holds what the task has streamed.
  abbrev pub InStep : Generation → RoomRuntime → Type 0
  InStep g rt = Says x (room_of g) (run_of g) rt.store g.partial

  -- The task goes on from `g` in `rt` to `g'` in `rt'`.
  abbrev pub GoesOn : Option Generation × RoomRuntime → Generation → RoomRuntime → Type 0
  GoesOn r g' rt' = r ≡ (some g', rt')

  -- The text that a signal carries: that of a delta of the model's stream.
  abbrev pub carried : Signal → String
  carried (next (some (ok (text_delta request_id delta)))) = delta
  carried (next (some (ok (completed request_id)))) = ""
  carried (next (some (ok (failed request_id code message)))) = ""
  carried (next (some (err error))) = ""
  carried (next none) = ""
  carried (changed is_ok) = ""

  -- The task is still that of its run, it has streamed the text, and the database holds it.
  abbrev pub HasStreamed : Generation → String → Generation → RoomRuntime → Type 0
  HasStreamed g text g' rt' =
      (g' ≡ record g { partial = text }) × Says x (room_of g) (run_of g) rt'.store text

  or_this : Generation → Option Generation → Generation
  or_this g none = g
  or_this g (some g') = g'

  moved :
      (g g0 g' : Generation) (text : String) (rt0 rt' : RoomRuntime)
      → GoesOn (some g0, rt0) g' rt'
      → HasStreamed g text g0 rt0
      → HasStreamed g text g' rt'
  unfolding or_this
  moved g g0 g' text rt0 rt' h says =
      subst (λ (r : Option Generation × RoomRuntime). HasStreamed g text (or_this g r.0) r.1) h says

  -- A step that leaves what was streamed as it was.
  unmoved :
      (g g' : Generation) (rt rt' : RoomRuntime)
      → GoesOn (some g, rt) g' rt'
      → InStep g rt
      → HasStreamed g (append g.partial "") g' rt'
  unmoved g g' rt rt' h says =
      moved g g g' (append g.partial "") rt rt' h (rw (append-nil g.partial) (refl, says))

  -- An empty text is that of no signal.
  nothing_carried : (delta : String) → is_empty delta ≡ true → "" ≡ delta
  nothing_carried [] e = refl
  nothing_carried (c ∷ s) e = absurd cc

  never : (g' : Generation) (rt rt' : RoomRuntime) → GoesOn (ends rt) g' rt' → ⊥
  never g' rt rt' h = ground (arith, h)

  fail_unless_told-ends :
      (d : Draw) (g g' : Generation) (code : String) (rt rt' : RoomRuntime)
      → GoesOn (fail_unless_told x d g code rt) g' rt'
      → ⊥
  fail_unless_told-ends d g g' code rt rt' h = elim (Bool-cases (told x g rt)) [
    | inl t ↦ ground (arith, h, t)
    | inr t ↦ ground (arith, h, t)
  ]

  after_finish-ends :
      (d : Draw) (g g' : Generation) (r : Result StoreError RoomSnapshot) (rt rt' : RoomRuntime)
      → GoesOn (after_finish x d g r rt) g' rt'
      → ⊥
  after_finish-ends d g g' (ok found) rt rt' h = never g' _ rt' h
  after_finish-ends d g g' (err e) rt rt' h = never g' _ rt' h

  on_delta-InStep :
      (d d' : Draw) (g g' : Generation) (delta : String) (rt rt' : RoomRuntime)
      → InStep g rt
      → GoesOn (on_delta x d d' g delta rt) g' rt'
      → HasStreamed g (append g.partial delta) g' rt'
  unfolding on_delta publish
  on_delta-InStep d d' g g' delta rt rt' says h =
      elim (Result-cases (append_delta x d (room_of g) (run_of g) delta rt.store).0) [
        | inr (e, p) ↦ absurd (
            fail_unless_told-ends d' (record g { partial = append g.partial delta }) g'
              "outputRejected" _ rt' (rw p at h))
        | inl (_, p) ↦
            let t = (append_delta x d (room_of g) (run_of g) delta rt.store).1 in
            let (current, before, after, _) =
              append_delta-Says x (room_of g) (run_of g) d delta rt.store t law
                (ground (arith, p)) in
            let same : current ≡ g.partial =
              ground (arith, before.found, before.opened, says.found, says.opened) in
            let g'' = record g { partial = append g.partial delta } in
            let grown : Says x (room_of g) (run_of g) t g''.partial = rw same at after in
            moved g g'' g' (append g.partial delta) _ rt' (rw p at h) (refl, grown)
      ]

  on_event-InStep :
      (d d' : Draw) (g g' : Generation) (event : ModelStreamEvent) (rt rt' : RoomRuntime)
      → InStep g rt
      → GoesOn (on_event x d d' g event rt) g' rt'
      → HasStreamed g (append g.partial (carried (next (some (ok event))))) g' rt'
  unfolding on_event on_completed
  on_event-InStep d d' g g' (text_delta request_id delta) rt rt' says h =
      elim (Bool-cases (request_id == request_id_of g)) [
        | inr e ↦ absurd (never g' _ rt' (rw e at h))
        | inl e ↦ elim (Bool-cases (is_empty delta)) [
          | inl n ↦
              subst (λ t. HasStreamed g (append g.partial t) g' rt') (nothing_carried delta n)
                (unmoved g g' rt rt' (rw (e, n) at h) says)
          | inr n ↦ on_delta-InStep d d' g g' delta rt rt' says (rw (e, n) at h)
        ]
      ]
  on_event-InStep d d' g g' (completed request_id) rt rt' says h =
      elim (Bool-cases (request_id == request_id_of g)) [
        | inr e ↦ absurd (never g' _ rt' (rw e at h))
        | inl e ↦ elim (Bool-cases (told x g rt)) [
          | inl t ↦ absurd (never g' _ rt' (rw (e, t) at h))
          | inr t ↦ absurd (after_finish-ends d' g g' _ _ rt' (rw (e, t) at h))
        ]
      ]
  on_event-InStep d d' g g' (failed request_id _ _) rt rt' says h =
      elim (Bool-cases (request_id == request_id_of g)) [
        | inr e ↦ absurd (never g' _ rt' (rw e at h))
        | inl e ↦ absurd (fail_unless_told-ends d g g' "modelFailed" rt rt' (rw e at h))
      ]

  -- Where what is sealed opens again, and while the database says of the run what its task has
  -- streamed, every step after which the task goes on adds the text that its signal carries to both:
  -- the task is the same but for that text at the end of what it has streamed, and read back from
  -- the new database the run says that same text. A signal that is not a delta carries no text.
  pub generation_step-InStep :
      (d d' : Draw) (g g' : Generation) (signal : Signal) (rt rt' : RoomRuntime)
      → InStep g rt
      → GoesOn (generation_step x d d' g signal rt) g' rt'
      → HasStreamed g (append g.partial (carried signal)) g' rt'
  unfolding generation_step
  generation_step-InStep d d' g g' (changed is_ok) rt rt' says h =
      elim (Bool-cases (is_ok && told x g rt)) [
        | inl t ↦ absurd (never g' rt rt' (rw t at h))
        | inr t ↦ unmoved g g' rt rt' (rw t at h) says
      ]
  generation_step-InStep d d' g g' (next none) rt rt' says h = absurd (never g' _ rt' h)
  generation_step-InStep d d' g g' (next (some (err error))) rt rt' says h =
      absurd (fail_unless_told-ends d g g' (model_error_code error) rt rt' h)
  generation_step-InStep d d' g g' (next (some (ok event))) rt rt' says h =
      on_event-InStep d d' g g' event rt rt' says h
