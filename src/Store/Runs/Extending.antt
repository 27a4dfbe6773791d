-- ===== src/Store/Runs/Extending.antt =====
-- What a delta does to the database.
use Prim.Native.String.{◌++◌ as append}
use ryu_rooms.Prelude.{
  ◌≤◌, String, ◌≡◌, ◌⊎◌, inl, inr, Bool, ◌&&◌, some, ltb, ◌==◌, arith, Bool-cases, Option-cases,
}
use ryu_rooms.Result.{Result-cases, ok, err}
use ryu_rooms.Text.{char_count}
use ryu_rooms.Table.{find_where, update_where}
use ryu_rooms.Limits.{max_message_chars, validate_delta}
use ryu_rooms.Limits.Accepts.{validate_delta_iff}
use ryu_rooms.Store.{
  RunRow, Db, StoreError, invalid, seal as seal_failed, not_found, RoomStore, External, Draw,
}
use ryu_rooms.Store.Ids.{ctx, open_value}
use ryu_rooms.Store.Runs.{is_run, append_delta}

abbrev pub is_running_run : String → String → RunRow → Bool
is_running_run room_id run_id r = is_run room_id run_id r && r.status == "running"

module _ (x : External) (d : Draw) (room_id run_id : String) where
  abbrev pub extended : String → Db → Db
  extended sealed db = record db {
    rooms =
        update_where (λ r. r.id == room_id) (λ r. record r { updated_at = x.to_rfc3339 (d.now 0) })
          db.rooms;
    runs =
        update_where (is_running_run room_id run_id) (λ r. record r { partial_text = sealed })
          db.runs;
  }

  abbrev pub Extends : String → RoomStore → Type 0
  Extends delta s =
      (run : RunRow) × (current : String) × (sealed : String) × (find_where
          (is_running_run room_id run_id) s.db.runs
        ≡ some run)
      × (validate_delta delta ≡ ok delta)
      × (open_value x run.partial_text (ctx "room_runs" "partial_text" run_id) ≡ ok current)
      × (char_count (append current delta) ≤ max_message_chars)
      × (x.sealing.seal_text (d.nonce 0) (append current delta)
            (ctx "room_runs" "partial_text" run_id)
          ≡ ok sealed)
      × (append_delta x d room_id run_id delta s ≡ (ok tt, record s { db = extended sealed s.db }))

  extend :
      (delta : String) (s : RoomStore) (run : RunRow) (current : String)
      → find_where (is_running_run room_id run_id) s.db.runs ≡ some run
      → validate_delta delta ≡ ok delta
      → open_value x run.partial_text (ctx "room_runs" "partial_text" run_id) ≡ ok current
      → ((e : StoreError) × (append_delta x d room_id run_id delta s ≡ (err e, s)))
        ⊎ Extends delta s
  unfolding append_delta
  extend delta s run current q p o =
      elim (Bool-cases (ltb max_message_chars (char_count (append current delta)))) [
        | inl long ↦ inl (invalid "assistant output is too long", ground arith)
        | inr short ↦
            elim (Result-cases (
              x.sealing.seal_text (d.nonce 0) (append current delta)
                (ctx "room_runs" "partial_text" run_id))) [
                  | inr (e, m) ↦ inl (seal_failed e, ground arith)
                  | inl (sealed, m) ↦
                      inr (run, current, sealed, q, p, o, ground arith, m, ground arith)
                ]
      ]

  -- A delta is refused and changes nothing, or it extends what the running run opens to, which stays
  -- within the limit on a message.
  pub append_delta_cases :
      (delta : String) (s : RoomStore)
      → ((e : StoreError) × (append_delta x d room_id run_id delta s ≡ (err e, s)))
        ⊎ Extends delta s
  unfolding append_delta
  append_delta_cases delta s = elim (Result-cases (validate_delta delta)) [
    | inr (e, p) ↦ inl (invalid e, ground arith)
    | inl (checked, p) ↦
        let same = ((validate_delta_iff delta checked).0 p).0 in
        elim (Option-cases (find_where (is_running_run room_id run_id) s.db.runs)) [
          | inl q ↦ inl (not_found, ground arith)
          | inr (run, q) ↦
              elim (Result-cases
                (open_value x run.partial_text (ctx "room_runs" "partial_text" run_id))) [
                  | inr (e, o) ↦ inl (e, ground arith)
                  | inl (current, o) ↦ extend delta s run current q (rw same at p) o
                ]
        ]
  ]
