-- ===== src/Store/Rooms/Effect.antt =====
-- What creating a room does to the database.
use ryu_rooms.Prelude.{
  ◌≡◌, refl, ◌⊎◌, inl, inr, Bool, false, ◌||◌, not, [], ◌∷◌, ◌++◌, ◌==◌, arith, Bool-cases,
}
use ryu_rooms.Result.{ok, err}
use ryu_rooms.Table.{any_where}
use ryu_rooms.Store.{
  RoomRow, InviteRow, ParticipantRow, Db, database, RoomStore, insert_room, insert_invite,
  insert_participant, has_room,
}
use ryu_rooms.Store.Rooms.{insert_new_room}

module _ (room : RoomRow) (invite : InviteRow) (host : ParticipantRow) where
  abbrev pub with_room_rows : Db → Db
  with_room_rows db = record db {
    rooms = db.rooms ++ room ∷ [];
    invites = db.invites ++ invite ∷ [];
    participants = db.participants ++ host ∷ [];
  }

  abbrev no_invite : Db → Bool
  no_invite db =
      any_where (λ (r : InviteRow). r.room_id == invite.room_id) db.invites
      || not (any_where (λ (r : RoomRow). r.id == invite.room_id) (db.rooms ++ room ∷ []))

  abbrev no_host : Db → Bool
  no_host db =
      any_where (λ (r : ParticipantRow). r.id == host.id) db.participants
      || not (any_where (λ (r : RoomRow). r.id == host.room_id) (db.rooms ++ room ∷ []))

  -- A room is created with its invite and its host, or nothing changes.
  pub insert_new_room_cases :
      (s : RoomStore)
      → (insert_new_room room invite host s ≡ (err database, s))
        ⊎ ((has_room room.id s.db ≡ false)
            × (any_where (λ (r : InviteRow). r.room_id == invite.room_id) s.db.invites ≡ false)
            × (any_where (λ (r : ParticipantRow). r.id == host.id) s.db.participants ≡ false)
            × (insert_new_room room invite host s ≡ (ok tt, record s { db = with_room_rows s.db })))
  unfolding insert_new_room insert_room insert_invite insert_participant
  insert_new_room_cases s = elim (Bool-cases (has_room room.id s.db)) [
    | inl v ↦ inl (rw v refl)
    | inr v ↦ elim (Bool-cases (no_invite s.db)) [
      | inl w ↦ inl (rw (v, w) refl)
      | inr w ↦ elim (Bool-cases (no_host s.db)) [
        | inl y ↦ inl (rw (v, w, y) refl)
        | inr y ↦ inr (v, ground arith, ground arith, rw (v, w, y) refl)
      ]
    ]
  ]
