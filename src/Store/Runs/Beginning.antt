-- ===== src/Store/Runs/Beginning.antt =====
-- What a run says when `append_user_turn` of backend/src/store.rs has accepted its turn.
use ryu_rooms.Prelude.{
  String, ◌≡◌, refl, inl, inr, false, Option, none, some, List, [], ◌∷◌, ◌==◌, arith, eq_refl,
}
use ryu_rooms.Result.{Result-cases, ok}
use ryu_rooms.Table.{any_where, find_where}
use ryu_rooms.Table.Finds.{find-snoc}
use ryu_rooms.Seal.{IsFaithful}
use ryu_rooms.Store.{RunRow, RoomStore, External, Draw}
use ryu_rooms.Store.Ids.{ctx, opaque_id, open_value}
use ryu_rooms.Store.Turns.{SealedTurn, accept_turn, seal_turn}
use ryu_rooms.Store.Turns.Effect.{accept_turn_cases, new_run}
use ryu_rooms.Store.Runs.Extending.{is_running_run}
use ryu_rooms.Store.Runs.Growing.{Says}

none_running :
    (room_id run_id : String) (runs : List RunRow)
    → any_where (λ (r : RunRow). r.id == run_id) runs ≡ false
    → find_where (is_running_run room_id run_id) runs ≡ none
unfolding any_where find_where
none_running room_id run_id [] h = refl
none_running room_id run_id (r ∷ runs) h = ground (arith, none_running room_id run_id runs)

module _ (x : External) (law : IsFaithful x.sealing) (d : Draw) where
  partial-opens :
      (message_id run_id text : String) (s : RoomStore) (v : SealedTurn)
      → seal_turn x d message_id run_id text s ≡ (ok v, s)
      → open_value x v.partial (ctx "room_runs" "partial_text" run_id) ≡ ok ""
  unfolding seal_turn
  partial-opens message_id run_id text s v h =
      elim (Result-cases
        (x.sealing.seal_text (d.nonce 0) text (ctx "room_messages" "text" message_id))) [
          | inr (e, p) ↦ absurd (ground arith)
          | inl (m, p) ↦
              elim (Result-cases
                (x.sealing.seal_text (d.nonce 1) text (ctx "room_runs" "input_text" run_id))) [
                  | inr (e, q) ↦ absurd (ground arith)
                  | inl (i, q) ↦
                      elim (Result-cases (
                        x.sealing.seal_text (d.nonce 2) ""
                          (ctx "room_runs" "partial_text" run_id))) [
                            | inr (e, r) ↦ absurd (ground arith)
                            | inl (t, r) ↦ ground (
                              arith,
                              law.open-seal (d.nonce 2) "" (ctx "room_runs" "partial_text" run_id) t
                                  r,
                            )
                          ]
                ]
        ]

  -- Where what is sealed opens again, a turn that starts a run leaves that run running, with nothing
  -- said: what the task of the run begins with is what the database holds.
  pub accept_turn-Says :
      (room_id participant_id : String) (key : Option String) (text run_id message_id : String)
      (s t : RoomStore)
      → accept_turn x d room_id participant_id key text s ≡ (ok (run_id, some message_id), t)
      → Says x room_id run_id t ""
  accept_turn-Says room_id participant_id key text run_id message_id s t h =
      elim (accept_turn_cases x d room_id participant_id key text s) [
        | inl (e, q) ↦ absurd (ground (arith, q, h))
        | inr (o, inl known) ↦ absurd (ground (arith, known.result, h))
        | inr (o, inr (k, st)) ↦
            let id = opaque_id "run_" (d.uuid 1) in
            let row = new_run x d room_id participant_id key text st.sealed in
            let found =
              find-snoc (is_running_run room_id id) s.db.runs row
                (none_running room_id id s.db.runs st.new_id)
                (ground (arith, eq_refl room_id, eq_refl id)) in
            let opens =
              partial-opens (opaque_id "msg_" (d.uuid 0)) id text s st.sealed st.sealing in
            let same : run_id ≡ id = ground (arith, st.result, h) in
            record {
              run = row;
              found = rw same (ground (arith, st.result, h, found));
              opened = rw same opens;
            }
      ]
