-- ===== src/Store/Lifecycle/Closed.antt =====
-- Closed rooms (backend/src/store.rs) through each locked section.
use ryu_rooms.Prelude.{
  ℕ, ◌≤◌, String, ◌≡◌, refl, inl, inr, Bool, true, false, ◌&&◌, not, Option, some, List, ◌==◌,
  arith, eq_iff, Bool-cases,
}
use native.Mathlib.Nat.{le_trans}
use ryu_rooms.Model.{run_status_text}
use ryu_rooms.Table.{count_where, find_where}
use ryu_rooms.Table.Counts.{count-snoc, count-update_ge, count_of_find, count_split}
use ryu_rooms.Store.{RoomRow, InviteRow, ParticipantRow, SessionRow, Db, RoomStore, External, Draw}
use ryu_rooms.Store.Rooms.{insert_new_room}
use ryu_rooms.Store.Rooms.Effect.{insert_new_room_cases}
use ryu_rooms.Store.Invites.{admit, revoke_invite, rotate}
use ryu_rooms.Store.Invites.Admission.{admit_cases}
use ryu_rooms.Store.Invites.Rotation.{revoke_invite_cases, rotate_cases}
use ryu_rooms.Store.Turns.{accept_turn}
use ryu_rooms.Store.Turns.Effect.{accept_turn_cases}
use ryu_rooms.Store.Runs.{
  RunTerminal, append_delta, room_status_after, settle, stop_run, unless_closed,
}
use ryu_rooms.Store.Runs.Effect.{settle_cases}
use ryu_rooms.Store.Runs.Stopping.{stop_run_cases}
use ryu_rooms.Store.Runs.Extending.{append_delta_cases}
use ryu_rooms.Store.Closing.{close_room, recover_running}
use ryu_rooms.Store.Closing.Effect.{is_open_room, close_room_cases}
use ryu_rooms.Store.Consistent.{IsConsistent}
use ryu_rooms.Store.Consistent.Recovery.{active}
use ryu_rooms.Store.Consistent.Restart.{mark, recover_running_cases, recover_each-rooms}

-- A row of the room that is closed.
abbrev pub is_closed : String → RoomRow → Bool
is_closed k r = r.id == k && r.status == "closed"

-- The room exists under its id and is closed.
abbrev pub IsClosed : String → Db → Type 0
IsClosed k db = 1 ≤ count_where (is_closed k) db.rooms

still_closed :
    (status new : String)
    → (status == "closed") ≡ true
    → (unless_closed status new == "closed") ≡ true
still_closed status new h = rw h refl

never_both : (status : String) → (status == "running") ≡ true → (status == "closed") ≡ true → ⊥
never_both status h g = let g' = rw ((eq_iff status "running").0 h) at g in ground (arith, g')

module _ (k : String) where
  pub insert_new_room-IsClosed :
      (room : RoomRow) (invite : InviteRow) (host : ParticipantRow) (s : RoomStore)
      → IsClosed k s.db
      → IsClosed k (insert_new_room room invite host s).1.db
  insert_new_room-IsClosed room invite host s h = elim (insert_new_room_cases room invite host s) [
    | inl q ↦ rw q h
    | inr (_, _, _, q) ↦ rw q (omega (arith, h, count-snoc (is_closed k) s.db.rooms room))
  ]

  pub rotate-IsClosed :
      (room_id : String) (digest : List ℕ) (expires_at now_text : String) (s : RoomStore)
      → IsClosed k s.db
      → IsClosed k (rotate room_id digest expires_at now_text s).1.db
  rotate-IsClosed room_id digest expires_at now_text s h =
      elim (rotate_cases room_id digest expires_at now_text s) [
        | inl (e, q) ↦ rw q h
        | inr (room, _, _, _, q) ↦ rw q h
      ]

  module _ (x : External) where
    pub admit-IsClosed :
        (now : ℕ) (digest : List ℕ) (participant : String → ParticipantRow)
        (session : String → SessionRow) (s : RoomStore)
        → IsClosed k s.db
        → IsClosed k (admit x now digest participant session s).1.db
    admit-IsClosed now digest participant session s h =
        elim (admit_cases x now digest participant session s) [
          | inl (e, q) ↦ rw q h
          | inr a ↦ rw a.result h
        ]

    pub revoke_invite-IsClosed :
        (d : Draw) (given : String) (s : RoomStore)
        → IsClosed k s.db
        → IsClosed k (revoke_invite x d given s).1.db
    revoke_invite-IsClosed d given s h = elim (revoke_invite_cases x d given s) [
      | inl (e, q) ↦ rw q h
      | inr (room_id, _, _, q) ↦ rw q h
    ]

    pub append_delta-IsClosed :
        (d : Draw) (room_id run_id delta : String) (s : RoomStore)
        → IsClosed k s.db
        → IsClosed k (append_delta x d room_id run_id delta s).1.db
    append_delta-IsClosed d room_id run_id delta s h =
        elim (append_delta_cases x d room_id run_id delta s) [
          | inl (e, q) ↦ rw q h
          | inr (run, current, sealed, _, _, _, _, _, q) ↦ rw q (
              le_trans h (
                count-update_ge (λ r. r.id == room_id) (is_closed k)
                  (λ r. record r { updated_at = x.to_rfc3339 (d.now 0) }) s.db.rooms (λ r e c. c)))
        ]

    pub stop_run-IsClosed :
        (d : Draw) (given run_id : String) (s : RoomStore)
        → IsClosed k s.db
        → IsClosed k (stop_run x d given run_id s).1.db
    stop_run-IsClosed d given run_id s h = elim (stop_run_cases x d run_id given s) [
      | inl (e, q) ↦ rw q h
      | inr (room_id, message, _, _, _, _, q) ↦ rw q (
          le_trans h (
            count-update_ge (λ r. r.id == room_id) (is_closed k)
              (λ r. record r {
                status = unless_closed r.status "idle";
                updated_at = x.to_rfc3339 (d.now 1);
              })
              s.db.rooms (λ r e c. ground (arith, still_closed r.status "idle"))))
    ]

    pub settle-IsClosed :
        (d : Draw) (room_id run_id : String) (terminal : RunTerminal) (s : RoomStore)
        → IsClosed k s.db
        → IsClosed k (settle x d room_id run_id terminal s).1.db
    settle-IsClosed d room_id run_id terminal s h =
        elim (settle_cases x d room_id run_id terminal s) [
          | inl (e, q) ↦ rw q h
          | inr (run, _, inl (_, q)) ↦ rw q h
          | inr (run, _, inr (_, (text, rows, message, _, _, q))) ↦ rw q (
              le_trans h (
                count-update_ge (λ r. r.id == room_id) (is_closed k)
                  (λ r. record r {
                    status =
                        unless_closed r.status
                          (room_status_after (run_status_text terminal.status));
                    updated_at = x.to_rfc3339 (d.now 0);
                  })
                  s.db.rooms
                  (λ r e c. ground (
                    arith,
                    still_closed r.status (room_status_after (run_status_text terminal.status)),
                  ))))
        ]

    pub close_room-IsClosed :
        (d : Draw) (given : String) (s : RoomStore)
        → IsClosed k s.db
        → IsClosed k (close_room x d given s).1.db
    close_room-IsClosed d given s h = elim (close_room_cases x d given s) [
      | inl (e, q) ↦ rw q h
      | inr (room_id, _, _, q) ↦ rw q (
          le_trans h (
            count-update_ge (is_open_room room_id) (is_closed k)
              (λ r. record r { status = "closed"; updated_at = x.to_rfc3339 (d.now 0) }) s.db.rooms
              (λ r e c. ground arith)))
    ]

    pub recover_running-IsClosed :
        (d : Draw) (s : RoomStore) → IsClosed k s.db → IsClosed k (recover_running x d s).1.db
    recover_running-IsClosed d s h =
        let same = recover_each-rooms x d.nonce 0 (x.to_rfc3339 (d.now 0)) (active s.db.runs) s in
        elim (recover_running_cases x d s) [
          | inl (e, _, q) ↦ rw (q, same) h
          | inr (n, _, q) ↦
              rw (q, same)
                (le_trans h (
                  count-update_ge (λ r. r.status == "running") (is_closed k) (mark x d s) s.db.rooms
                    (λ r e c. absurd (never_both r.status e (ground arith)))))
        ]

    -- The room that a turn opens is not the closed one.
    open_other :
        (room_id : String) (room : RoomRow) (db : Db)
        → IsConsistent db
        → find_where (λ (r : RoomRow). r.id == room_id) db.rooms ≡ some room
        → (room.status == "closed") ≡ false
        → IsClosed k db
        → (room_id == k) ≡ false
    open_other room_id room db c f o h = elim (Bool-cases (room_id == k)) [
      | inr e ↦ e
      | inl e ↦
          let same = (eq_iff room_id k).0 e in
          let f' = rw same at f in
          absurd (
            omega (
              arith,
              h,
              c.one_room k,
              count_split (λ (r : RoomRow). r.id == k) (λ r. r.status == "closed") db.rooms,
              count_of_find (λ (r : RoomRow). r.id == k) (λ r. not (r.status == "closed")) db.rooms
                  room f' (ground arith),
            ))
    ]

    pub accept_turn-IsClosed :
        (d : Draw) (room_id participant_id : String) (key : Option String) (text : String)
        (s : RoomStore)
        → IsConsistent s.db
        → IsClosed k s.db
        → IsClosed k (accept_turn x d room_id participant_id key text s).1.db
    accept_turn-IsClosed d room_id participant_id key text s c h =
        elim (accept_turn_cases x d room_id participant_id key text s) [
          | inl (e, q) ↦ rw q h
          | inr (o, inl known) ↦ rw known.result h
          | inr (o, inr (_, st)) ↦
              let other = open_other room_id o.room s.db c o.found o.not_closed h in
              rw st.result (
                le_trans h (
                  count-update_ge (λ r. r.id == room_id) (is_closed k)
                    (λ r. record r { status = "running"; updated_at = x.to_rfc3339 (d.now 0) })
                    s.db.rooms
                    (λ r e c. absurd (ground (arith, eq_iff r.id room_id, eq_iff r.id k)))))
        ]
