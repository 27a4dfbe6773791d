-- ===== src/Store/Turns/Replay.antt =====
-- A turn that is sent again under its key (`append_user_turn` of backend/src/store.rs).
use ryu_rooms.Prelude.{
  String, ◌≡◌, refl, inl, inr, none, some, if◌then◌else◌, ◌==◌, arith, eq_refl, Bool-cases,
}
use ryu_rooms.Result.{Result-cases, ok, err}
use ryu_rooms.Table.Finds.{find-snoc, find-update}
use ryu_rooms.Seal.{IsFaithful}
use ryu_rooms.Store.{RoomRow, conflict, RoomStore, External, Draw}
use ryu_rooms.Store.Ids.{ctx, opaque_id, open_value}
use ryu_rooms.Store.Turns.{SealedTurn, has_key, seal_turn, accept_turn, find_key}
use ryu_rooms.Store.Turns.Effect.{new_run, started, accept_turn_cases, IsOpen}

module _ (x : External) (law : IsFaithful x.sealing) (d : Draw) where
  -- The input that a started run keeps opens to the text of its turn.
  sealed-opens :
      (message_id run_id text : String) (s : RoomStore) (v : SealedTurn)
      → seal_turn x d message_id run_id text s ≡ (ok v, s)
      → open_value x v.input (ctx "room_runs" "input_text" run_id) ≡ ok text
  unfolding seal_turn
  sealed-opens message_id run_id text s v h =
      elim (Result-cases
        (x.sealing.seal_text (d.nonce 0) text (ctx "room_messages" "text" message_id))) [
          | inr (e, p) ↦ absurd (ground arith)
          | inl (m, p) ↦
              elim (Result-cases
                (x.sealing.seal_text (d.nonce 1) text (ctx "room_runs" "input_text" run_id))) [
                  | inr (e, q) ↦ absurd (ground arith)
                  | inl (i, q) ↦
                      elim (Result-cases (
                        x.sealing.seal_text (d.nonce 2) ""
                          (ctx "room_runs" "partial_text" run_id))) [
                            | inr (e, r) ↦ absurd (ground arith)
                            | inl (t, r) ↦ ground (
                              arith,
                              law.open-seal (d.nonce 1) text (ctx "room_runs" "input_text" run_id) i
                                  q,
                            )
                          ]
                ]
        ]

module _ (x : External) (law : IsFaithful x.sealing) (d d' : Draw)
    (room_id participant_id participant_id' key text text' : String) where
  -- The database right after a start, and the same key again.
  again :
      (s : RoomStore) (v : SealedTurn)
      → IsOpen x d room_id participant_id (some key) text s
      → find_key room_id (some key) s.db ≡ none
      → open_value x v.input (ctx "room_runs" "input_text" (opaque_id "run_" (d.uuid 1))) ≡ ok text
      → let t = record s { db = started x d room_id participant_id (some key) text v s.db } in
        accept_turn x d' room_id participant_id' (some key) text' t
        ≡ ((if text == text' then ok (opaque_id "run_" (d.uuid 1), none) else err conflict), t)
  unfolding accept_turn
  again s v o k p =
      let t = record s { db = started x d room_id participant_id (some key) text v s.db } in
      let row =
        find-update (λ (r : RoomRow). r.id == room_id)
          (λ r. record r { status = "running"; updated_at = x.to_rfc3339 (d.now 0) }) s.db.rooms
          o.room (λ q e. e) o.found in
      let run =
        find-snoc (has_key room_id key) s.db.runs
          (new_run x d room_id participant_id (some key) text v) k
          (ground (arith, eq_refl room_id, eq_refl key)) in
      elim (Bool-cases (text == text')) [
        | inl e ↦ rw (row, run, p, e) refl
        | inr e ↦ rw (row, run, p, e) refl
      ]

  -- Where what is sealed opens again: when a turn that started a run is sent again under its key,
  -- right after and by anyone in the room, the same text names the run that it started and another
  -- text is a conflict. Nothing is written in either case.
  pub accept_turn-accept_turn :
      (run_id message_id : String) (s t : RoomStore)
      → accept_turn x d room_id participant_id (some key) text s ≡ (ok (run_id, some message_id), t)
      → accept_turn x d' room_id participant_id' (some key) text' t
        ≡ ((if text == text' then ok (run_id, none) else err conflict), t)
  accept_turn-accept_turn run_id message_id s t h =
      elim (accept_turn_cases x d room_id participant_id (some key) text s) [
        | inl (e, q) ↦ absurd (ground (arith, q, h))
        | inr (o, inl known) ↦ absurd (ground (arith, known.result, h))
        | inr (o, inr (k, st)) ↦
            let same =
              again s st.sealed o k (sealed-opens x law d _ _ text s st.sealed st.sealing) in
            ground (arith, same, st.result, h)
      ]
