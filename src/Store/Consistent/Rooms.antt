-- ===== src/Store/Consistent/Rooms.antt =====
-- The invariant through `create_room` and the operations on invites of backend/src/store.rs.
use ryu_rooms.Prelude.{
  ℕ, String, ◌≡◌, refl, subst, inl, inr, false, ◌==◌, arith, Bool-cases, eq_iff, List,
}
use ryu_rooms.Table.{count_where}
use ryu_rooms.Table.Counts.{count-snoc, count_of_not_any, count_mono}
use ryu_rooms.Table.Unique.{unique-snoc}
use ryu_rooms.Store.{
  RoomRow, InviteRow, ParticipantRow, SessionRow, RunRow, Db, RoomStore, External, Draw, has_room,
}
use ryu_rooms.Store.Turns.{holds}
use ryu_rooms.Store.Rooms.{insert_new_room}
use ryu_rooms.Store.Rooms.Effect.{with_room_rows, insert_new_room_cases}
use ryu_rooms.Store.Invites.{admit, rotate, revoke_invite}
use ryu_rooms.Store.Invites.Admission.{admitted, admit_cases}
use ryu_rooms.Store.Invites.Rotation.{rotated, rotate_cases, revoked, revoke_invite_cases}
use ryu_rooms.Store.Consistent.{IsConsistent, is_free}

module _ (room : RoomRow) (invite : InviteRow) (host : ParticipantRow) where
  with_room_rows-IsConsistent :
      (db : Db)
      → IsConsistent db
      → has_room room.id db ≡ false
      → IsConsistent (with_room_rows room invite host db)
  with_room_rows-IsConsistent db c new = record {
    one_room = λ k. unique-snoc (λ r. r.id) db.rooms room k (c.one_room k) new;
    one_run = c.one_run;
    one_message = c.one_message;
    one_active = c.one_active;
    owned = λ k. ground (arith, count-snoc (λ (r : RoomRow). r.id == k) db.rooms room, c.owned k);
    held = λ k. elim (Bool-cases (room.id == k)) [
      | inl e ↦ inl (subst (λ j. count_where (holds j) db.runs ≡ 0) ((eq_iff room.id k).0 e) unheld)
      | inr e ↦ ground (arith, count-snoc (is_free k) db.rooms room, c.held k)
    ];
  }
    where
      unheld : count_where (holds room.id) db.runs ≡ 0
      unheld = ground (
        arith,
        c.owned room.id,
        count_of_not_any (λ (r : RoomRow). r.id == room.id) db.rooms new,
        count_mono (holds room.id) (λ (r : RunRow). r.room_id == room.id) db.runs
            (λ r e. ground arith),
      )

  pub insert_new_room-IsConsistent :
      (s : RoomStore) → IsConsistent s.db → IsConsistent (insert_new_room room invite host s).1.db
  insert_new_room-IsConsistent s c = elim (insert_new_room_cases room invite host s) [
    | inl p ↦ rw p c
    | inr (new, _, _, p) ↦ rw p (with_room_rows-IsConsistent s.db c new)
  ]

-- A change that leaves rooms, messages and runs alone.
unrelated :
    (a b : Db)
    → b.rooms ≡ a.rooms
    → b.messages ≡ a.messages
    → b.runs ≡ a.runs
    → IsConsistent a
    → IsConsistent b
unrelated a b r m u c = record {
  one_room = λ k. rw r (c.one_room k);
  one_run = λ k. rw u (c.one_run k);
  one_message = λ k. rw m (c.one_message k);
  one_active = λ k. rw u (c.one_active k);
  owned = λ k. rw (r, u) (c.owned k);
  held = λ k. rw (r, u) (c.held k);
}

pub admit-IsConsistent :
    (x : External) (now : ℕ) (digest : List ℕ) (participant : String → ParticipantRow)
    (session : String → SessionRow) (s : RoomStore)
    → IsConsistent s.db
    → IsConsistent (admit x now digest participant session s).1.db
admit-IsConsistent x now digest participant session s c =
    elim (admit_cases x now digest participant session s) [
      | inl (e, p) ↦ rw p c
      | inr a ↦ rw a.result (
          unrelated s.db (admitted x now digest participant session a.invite.room_id s.db) refl refl
            refl c)
    ]

pub rotate-IsConsistent :
    (room_id : String) (digest : List ℕ) (expires_at now_text : String) (s : RoomStore)
    → IsConsistent s.db
    → IsConsistent (rotate room_id digest expires_at now_text s).1.db
rotate-IsConsistent room_id digest expires_at now_text s c =
    elim (rotate_cases room_id digest expires_at now_text s) [
      | inl (e, p) ↦ rw p c
      | inr (_, _, _, _, p) ↦
          rw p (unrelated s.db (rotated room_id digest expires_at now_text s.db) refl refl refl c)
    ]

pub revoke_invite-IsConsistent :
    (x : External) (d : Draw) (given : String) (s : RoomStore)
    → IsConsistent s.db
    → IsConsistent (revoke_invite x d given s).1.db
revoke_invite-IsConsistent x d given s c = elim (revoke_invite_cases x d given s) [
  | inl (e, p) ↦ rw p c
  | inr (room_id, _, _, p) ↦ rw p (unrelated s.db (revoked x d room_id s.db) refl refl refl c)
]
