-- ===== src/Store/Turns/Effect.antt =====
-- What the transaction of `append_user_turn` of backend/src/store.rs does to the database.
use ryu_rooms.Prelude.{
  String, ◌≡◌, ◌⊎◌, inl, inr, false, Option, none, some, [], ◌∷◌, ◌++◌, Option-cases, Bool-cases,
  ◌==◌, arith, eq_iff,
}
use ryu_rooms.Result.{Result, Result-cases, ok, err}
use ryu_rooms.Table.{any_where, count_where, find_where, update_where}
use ryu_rooms.Store.{
  RoomRow, MessageRow, RunRow, Db, StoreError, seal as seal_failed, not_found, closed, conflict,
  RoomStore, External, Draw, insert_message, insert_run, same_turn,
}
use ryu_rooms.Store.Ids.{ctx, opaque_id, open_value}
use ryu_rooms.Store.Turns.{SealedTurn, holds, seal_turn, start_turn, accept_turn, find_key}

-- Sealing the three texts changes nothing.
pub seal_turn_cases :
    (x : External) (d : Draw) (message_id run_id text : String) (s : RoomStore)
    → ((v : SealedTurn) × (seal_turn x d message_id run_id text s ≡ (ok v, s)))
      ⊎ ((e : StoreError) × (seal_turn x d message_id run_id text s ≡ (err e, s)))
unfolding seal_turn
seal_turn_cases x d message_id run_id text s =
    elim (Result-cases
      (x.sealing.seal_text (d.nonce 0) text (ctx "room_messages" "text" message_id))) [
        | inr (e, p) ↦ inr (seal_failed e, ground arith)
        | inl (m, p) ↦
            elim (Result-cases
              (x.sealing.seal_text (d.nonce 1) text (ctx "room_runs" "input_text" run_id))) [
                | inr (e, q) ↦ inr (seal_failed e, ground arith)
                | inl (i, q) ↦
                    elim (Result-cases (
                      x.sealing.seal_text (d.nonce 2) "" (ctx "room_runs" "partial_text" run_id))) [
                        | inr (e, r) ↦ inr (seal_failed e, ground arith)
                        | inl (t, r) ↦
                            inl (record { message = m; input = i; partial = t }, ground arith)
                      ]
              ]
      ]

module _ (x : External) (d : Draw) (room_id participant_id : String) (key : Option String)
    (text : String) where
  abbrev pub new_run : SealedTurn → RunRow
  new_run sealed = record {
    id = opaque_id "run_" (d.uuid 1);
    room_id = room_id;
    request_id = opaque_id "req_" (d.uuid 2);
    idempotency_key = key;
    input_text = sealed.input;
    status = "running";
    partial_text = sealed.partial;
    error_code = none;
    error_message = none;
    started_at = some (x.to_rfc3339 (d.now 0));
    finished_at = none;
    created_at = x.to_rfc3339 (d.now 0);
  }

  abbrev pub new_message : SealedTurn → MessageRow
  new_message sealed = record {
    id = opaque_id "msg_" (d.uuid 0);
    room_id = room_id;
    role = "user";
    text = sealed.message;
    participant_id = some participant_id;
    created_at = x.to_rfc3339 (d.now 0);
  }

  abbrev pub started : SealedTurn → Db → Db
  started sealed db = record db {
    rooms =
        update_where (λ r. r.id == room_id)
          (λ r. record r { status = "running"; updated_at = x.to_rfc3339 (d.now 0) }) db.rooms;
    messages = db.messages ++ new_message sealed ∷ [];
    runs = db.runs ++ new_run sealed ∷ [];
  }

  -- A start that does not fail.
  pub record Started (s : RoomStore) (r : Result StoreError (String × Option String) × RoomStore)
      : Type 0 where
    pub sealed : SealedTurn
    pub idle : count_where (holds room_id) s.db.runs ≡ 0
    pub new_id : any_where (λ (r : RunRow). r.id == opaque_id "run_" (d.uuid 1)) s.db.runs ≡ false
    pub new_key : any_where (same_turn (new_run sealed)) s.db.runs ≡ false
    pub new_message_id :
        any_where (λ (r : MessageRow). r.id == opaque_id "msg_" (d.uuid 0)) s.db.messages ≡ false
    pub sealing :
        seal_turn x d (opaque_id "msg_" (d.uuid 0)) (opaque_id "run_" (d.uuid 1)) text s
        ≡ (ok sealed, s)
    pub result : r ≡ (
      ok (opaque_id "run_" (d.uuid 1), some (opaque_id "msg_" (d.uuid 0))),
      record s { db = started sealed s.db },
    )

  start_turn-Started :
      (s : RoomStore) (a : String × Option String)
      → (start_turn x d room_id participant_id key text s).0 ≡ ok a
      → Started s (start_turn x d room_id participant_id key text s)
  unfolding start_turn insert_message insert_run
  start_turn-Started s a h =
      elim (seal_turn_cases x d (opaque_id "msg_" (d.uuid 0)) (opaque_id "run_" (d.uuid 1)) text
        s) [
          | inr (e, q) ↦ absurd (ground (arith, q))
          | inl (sealed, q) ↦ record {
            sealed = sealed;
            idle = ground (arith, q);
            new_id = ground (arith, q);
            new_key = ground (arith, q);
            new_message_id = ground (arith, q);
            sealing = q;
            result = ground (arith, q);
          }
        ]

  -- Nothing that `start_turn` does touches the counter of unreadable rows.
  start_turn-unreadable :
      (s : RoomStore)
      → (start_turn x d room_id participant_id key text s).1.unreadable ≡ s.unreadable
  unfolding start_turn insert_message insert_run
  start_turn-unreadable s =
      elim (seal_turn_cases x d (opaque_id "msg_" (d.uuid 0)) (opaque_id "run_" (d.uuid 1)) text
        s) [ inr (e, q) ↦ ground (arith, q) | inl (sealed, q) ↦ ground (arith, q) ]

  -- A turn whose key is that of an earlier run with the same text.
  pub record Known (s : RoomStore) (r : Result StoreError (String × Option String) × RoomStore)
      : Type 0 where
    pub run : RunRow
    pub found : find_key room_id key s.db ≡ some run
    pub same_text : open_value x run.input_text (ctx "room_runs" "input_text" run.id) ≡ ok text
    pub result : r ≡ (ok (run.id, none), s)

  -- The room of an accepted turn exists and is open.
  pub record IsOpen (s : RoomStore) : Type 0 where
    pub room : RoomRow
    pub found : find_where (λ (r : RoomRow). r.id == room_id) s.db.rooms ≡ some room
    pub not_closed : (room.status == "closed") ≡ false

  abbrev pub accepting : RoomStore → Result StoreError (String × Option String) × RoomStore
  accepting s = accept_turn x d room_id participant_id key text s

  abbrev pub Outcome : RoomStore → Type 0
  Outcome s =
      ((e : StoreError) × (accepting s ≡ (err e, s)))
      ⊎ (IsOpen s
          × (Known s (accepting s)
              ⊎ ((find_key room_id key s.db ≡ none) × Started s (accepting s))))

  accept_known :
      (s : RoomStore) (run : RunRow) → IsOpen s → find_key room_id key s.db ≡ some run → Outcome s
  unfolding accept_turn
  accept_known s run o k =
      elim (Result-cases (open_value x run.input_text (ctx "room_runs" "input_text" run.id))) [
        | inr (e, p) ↦ inl (e, ground (arith, o.found, o.not_closed))
        | inl (previous, p) ↦ elim (Bool-cases (previous == text)) [
          | inr q ↦ inl (conflict, ground (arith, o.found, o.not_closed))
          | inl q ↦ inr (
            o,
            inl (record {
              run = run;
              found = k;
              same_text = ground (arith, eq_iff previous text);
              result = ground (arith, o.found, o.not_closed);
            }),
          )
        ]
      ]

  accept_new : (s : RoomStore) → IsOpen s → find_key room_id key s.db ≡ none → Outcome s
  unfolding accept_turn
  accept_new s o k = elim (Result-cases (start_turn x d room_id participant_id key text s).0) [
    | inr (e, p) ↦ inl (e, ground (arith, o.found, o.not_closed, start_turn-unreadable s))
    | inl (a, p) ↦
        let st = start_turn-Started s a p in
        inr (
          o,
          inr (
            k,
            record {
              sealed = st.sealed;
              idle = st.idle;
              new_id = st.new_id;
              new_key = st.new_key;
              new_message_id = st.new_message_id;
              sealing = st.sealing;
              result = ground (arith, o.found, o.not_closed, st.result);
            },
          ),
        )
  ]

  -- Under the transaction a turn is refused and nothing changes, or its key is known with the same
  -- text and nothing changes, or it starts a run in an open room that no run holds.
  pub accept_turn_cases : (s : RoomStore) → Outcome s
  unfolding accept_turn
  accept_turn_cases s =
      elim (Option-cases (find_where (λ (r : RoomRow). r.id == room_id) s.db.rooms)) [
        | inl p ↦ inl (not_found, ground arith)
        | inr (room, p) ↦ elim (Bool-cases (room.status == "closed")) [
          | inl c ↦ inl (closed, ground arith)
          | inr c ↦
              let o : IsOpen s = record { room = room; found = p; not_closed = c } in
              elim (Option-cases (find_key room_id key s.db)) [
                | inr (run, k) ↦ accept_known s run o k
                | inl k ↦ accept_new s o k
              ]
        ]
      ]
