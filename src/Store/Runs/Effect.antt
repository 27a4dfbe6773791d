-- ===== src/Store/Runs/Effect.antt =====
-- What finishing a run does to the database.
use mathlib.Core.List.{append-nil}
use ryu_rooms.Prelude.{
  ℕ, String, ◌≡◌, refl, ◌⊎◌, inl, inr, Bool, true, false, ◌&&◌, ◌||◌, not, Option, none, some, List,
  [], ◌∷◌, ◌++◌, ◌==◌, arith, Option-cases, Bool-cases, if◌then◌else◌,
}
use ryu_rooms.Result.{Result, Result-cases, ok, err}
use ryu_rooms.Text.{is_empty}
use ryu_rooms.Table.{any_where, find_where, update_where, trim_by}
use ryu_rooms.Limits.{max_history_messages, max_retained_runs}
use ryu_rooms.Model.{is_active, run_status_text}
use ryu_rooms.Store.{
  MessageRow, RunRow, Db, StoreError, seal as seal_failed, not_found, database, RoomStore, External,
  Draw, insert_message, has_room,
}
use ryu_rooms.Store.Ids.{ctx, opaque_id, open_value, seal_opt}
use ryu_rooms.Store.Read.{newer_message, newer_run}
use ryu_rooms.Store.Runs.{
  RunTerminal, is_run, trim_runs, trim_messages, is_completed, keep_answer, finish_active, settle,
}

module _ (x : External) (d : Draw) (room_id run_id : String) (terminal : RunTerminal) where
  abbrev pub answer : String → MessageRow
  answer sealed = record {
    id = opaque_id "msg_" (d.uuid 0);
    room_id = room_id;
    role = "assistant";
    text = sealed;
    participant_id = none;
    created_at = x.to_rfc3339 (d.now 0);
  }

  abbrev pub is_kept : String → Bool
  is_kept text = is_completed terminal.status && not (is_empty text)

  -- The message rows that a finished run with the text adds: one if it completed with some text.
  pub data AnswerRows (db : Db) (text : String) : List MessageRow → Type 0 where
    nothing : is_kept text ≡ false → AnswerRows db text []
    kept :
        {rows : List MessageRow} (sealed : String)
        → is_kept text ≡ true
        → x.sealing.seal_text
            (d.nonce 0)
            text
            (ctx "room_messages" "text" (opaque_id "msg_" (d.uuid 0)))
          ≡ ok sealed
        → any_where (λ (r : MessageRow). r.id == opaque_id "msg_" (d.uuid 0)) db.messages ≡ false
        → rows ≡ answer sealed ∷ []
        → AnswerRows db text rows

  abbrev pub with_answer : RoomStore → List MessageRow → RoomStore
  with_answer s rows = record s { db = record s.db { messages = s.db.messages ++ rows } }

  keep_answer_cases :
      (s : RoomStore) (text : String)
      → ((e : StoreError) × (keep_answer x d room_id terminal.status text s ≡ (err e, s)))
        ⊎ ((rows : List MessageRow) × AnswerRows s.db text rows
            × (keep_answer x d room_id terminal.status text s ≡ (ok tt, with_answer s rows)))
  unfolding keep_answer insert_message
  keep_answer_cases s text = elim (Bool-cases (is_kept text)) [
    | inr k ↦ inr ([], nothing k, ground (arith, append-nil s.db.messages))
    | inl k ↦
        elim (Result-cases (
          x.sealing.seal_text (d.nonce 0) text
            (ctx "room_messages" "text" (opaque_id "msg_" (d.uuid 0))))) [
              | inr (e, p) ↦ inl (seal_failed e, ground arith)
              | inl (sealed, p) ↦
                  elim (Bool-cases (
                    any_where (λ (r : MessageRow). r.id == opaque_id "msg_" (d.uuid 0))
                      s.db.messages
                    || not (has_room room_id s.db))) [
                      | inl v ↦ inl (database, ground arith)
                      | inr v ↦
                          inr
                            (answer sealed ∷ [], kept sealed k p (ground arith) refl, ground arith)
                    ]
            ]
  ]

  seal_opt_cases :
      (s : RoomStore) (nonce : ℕ) (value : Option String)
      → ((e : StoreError) × (seal_opt x nonce value (ctx "room_runs" "error_message" run_id) s
            ≡ (err e, s)))
        ⊎ ((message : Option String) × (seal_opt x nonce value
                (ctx "room_runs" "error_message" run_id)
                s
              ≡ (ok message, s)))
  seal_opt_cases s nonce none = inr (none, refl)
  seal_opt_cases s nonce (some value) =
      elim (Result-cases
        (x.sealing.seal_text nonce value (ctx "room_runs" "error_message" run_id))) [
          | inr (e, p) ↦ inl (seal_failed e, ground arith)
          | inl (sealed, p) ↦ inr (some sealed, ground arith)
        ]

  -- The database after the run has finished, written out: the answer is added, the run and its room
  -- have their new status, and the room is trimmed.
  abbrev pub settled : List MessageRow → Option String → Db → Db
  settled rows message db = record db {
    rooms =
        update_where (λ r. r.id == room_id)
          (λ r. record r {
            status =
                if r.status == "closed"
                then "closed"
                else if run_status_text terminal.status == "failed"
                then "failed"
                else "idle";
            updated_at = x.to_rfc3339 (d.now 0);
          })
          db.rooms;
    messages =
        trim_by (λ r. r.id) newer_message (λ r. r.room_id == room_id) max_history_messages
          (db.messages ++ rows);
    runs =
        trim_by (λ r. r.id) newer_run (λ r. r.room_id == room_id) max_retained_runs
          (update_where (is_run room_id run_id)
            (λ r. record r {
              status = run_status_text terminal.status;
              error_code = terminal.error_code;
              error_message = message;
              finished_at = some (x.to_rfc3339 (d.now 0));
            })
            db.runs);
  }

  abbrev pub Finishes : RoomStore → RunRow → Result StoreError (Unit {0}) × RoomStore → Type 0
  Finishes s run r =
      (text : String) × (rows : List MessageRow) × (message : Option String) × (open_value x
          run.partial_text (ctx "room_runs" "partial_text" run_id)
        ≡ ok text)
      × AnswerRows s.db text rows
      × (r ≡ (ok tt, record s { db = settled rows message s.db }))

  finish_active_cases :
      (s : RoomStore) (run : RunRow)
      → ((e : StoreError) × ((finish_active x d room_id run_id terminal run s).0 ≡ err e)
          × ((finish_active x d room_id run_id terminal run s).1.unreadable ≡ s.unreadable))
        ⊎ Finishes s run (finish_active x d room_id run_id terminal run s)
  unfolding finish_active trim_runs trim_messages
  finish_active_cases s run =
      elim (Result-cases (open_value x run.partial_text (ctx "room_runs" "partial_text" run_id))) [
        | inr (e, p) ↦ inl (e, ground arith, ground arith)
        | inl (text, p) ↦ elim (keep_answer_cases s text) [
          | inl (e, q) ↦ inl (e, ground (arith, q), ground (arith, q))
          | inr (rows, a, q) ↦
              elim (seal_opt_cases (with_answer s rows) (d.nonce 1) terminal.error_message) [
                | inl (e, m) ↦ inl (e, ground (arith, q, m), ground (arith, q, m))
                | inr (message, m) ↦ inr (text, rows, message, p, a, ground (arith, q, m))
              ]
        ]
      ]

  abbrev pub settling : RoomStore → Result StoreError (Unit {0}) × RoomStore
  settling s = settle x d room_id run_id terminal s

  -- Finishing a run fails and changes nothing, or meets a run that is over and changes nothing, or
  -- settles an active run.
  pub settle_cases :
      (s : RoomStore)
      → ((e : StoreError) × (settling s ≡ (err e, s)))
        ⊎ ((run : RunRow) × (find_where (is_run room_id run_id) s.db.runs ≡ some run)
            × (((is_active run.status ≡ false) × (settling s ≡ (ok tt, s)))
                ⊎ ((is_active run.status ≡ true) × Finishes s run (settling s))))
  unfolding settle
  settle_cases s = elim (Option-cases (find_where (is_run room_id run_id) s.db.runs)) [
    | inl p ↦ inl (not_found, ground arith)
    | inr (run, p) ↦ elim (Bool-cases (is_active run.status)) [
      | inr i ↦ inr (run, p, inl (i, ground arith))
      | inl i ↦ elim (finish_active_cases s run) [
        | inl (e, q, u) ↦ inl (e, ground (arith, q, u))
        | inr (text, rows, message, o, a, q) ↦
            inr (run, p, inr (i, (text, rows, message, o, a, ground (arith, q))))
      ]
    ]
  ]
