-- ===== src/Store/Closing/Effect.antt =====
-- What closing a room does to the database.
use ryu_rooms.Prelude.{
  ◌≤◌, String, ◌≡◌, ◌⊎◌, inl, inr, Bool, ◌&&◌, not, eqb, ◌==◌, arith, Bool-cases,
}
use ryu_rooms.Result.{Result-cases, ok, err}
use ryu_rooms.Table.{count_where, update_where}
use ryu_rooms.Table.Counts.{update-none}
use ryu_rooms.Store.{RoomRow, ParticipantRow, Db, StoreError, not_found, RoomStore, External, Draw}
use ryu_rooms.Store.Ids.{validate_room_id}
use ryu_rooms.Store.Invites.Rotation.{revoked_invites, revoked_sessions}
use ryu_rooms.Store.Closing.{close_room}

abbrev pub is_open_room : String → RoomRow → Bool
is_open_room room_id r = r.id == room_id && not (r.status == "closed")

module _ (x : External) (d : Draw) where
  abbrev pub closed_db : String → Db → Db
  closed_db room_id db =
      record (revoked_sessions room_id (x.to_rfc3339 (d.now 2))
        (revoked_invites room_id (x.to_rfc3339 (d.now 1)) db)) {
          rooms =
              update_where (is_open_room room_id)
                (λ r. record r { status = "closed"; updated_at = x.to_rfc3339 (d.now 0) }) db.rooms;
          participants =
              update_where (λ (p : ParticipantRow). p.room_id == room_id)
                (λ p. record p { online = 0 }) db.participants;
        }

  -- Closing fails and changes nothing, or closes a room that was open, revokes its invite and its
  -- sessions, and takes its participants offline.
  pub close_room_cases :
      (given : String) (s : RoomStore)
      → ((e : StoreError) × (close_room x d given s ≡ (err e, s)))
        ⊎ ((room_id : String) × (validate_room_id given ≡ ok room_id)
            × (1 ≤ count_where (is_open_room room_id) s.db.rooms)
            × (close_room x d given s ≡ (ok tt, record s { db = closed_db room_id s.db })))
  unfolding close_room
  close_room_cases given s = elim (Result-cases (validate_room_id given)) [
    | inr (e, p) ↦ inl (e, ground arith)
    | inl (room_id, p) ↦ elim (Bool-cases (eqb (count_where (is_open_room room_id) s.db.rooms) 0)) [
      | inl z ↦ inl (
        not_found,
        ground (
          arith,
          update-none (is_open_room room_id)
              (λ r. record r { status = "closed"; updated_at = x.to_rfc3339 (d.now 0) }) s.db.rooms,
        ),
      )
      | inr z ↦ inr (room_id, p, ground arith, ground arith)
    ]
  ]
