-- ===== src/Store/Invites/Rotation.antt =====
-- What issuing and revoking an invite do to the database.
use ryu_rooms.Prelude.{
  ℕ, ◌≤◌, String, ◌≡◌, refl, ◌⊎◌, inl, inr, Bool, false, ◌&&◌, not, none, some, List, eqb, is_some,
  ◌==◌, arith, Bool-cases, Option-cases,
}
use ryu_rooms.Result.{Result, Result-cases, ok, err}
use ryu_rooms.Table.{count_where, find_where, update_where}
use ryu_rooms.Table.Counts.{update-none}
use ryu_rooms.Store.{
  RoomRow, InviteRow, SessionRow, Db, StoreError, not_found, closed, RoomStore, External, Draw,
  without_participants,
}
use ryu_rooms.Store.Ids.{validate_room_id}
use ryu_rooms.Store.Invites.{is_guest_of, rotate, revoke_invite}

-- Invites and sessions of a room that are revoked at a time.
abbrev pub is_unrevoked_invite : String → InviteRow → Bool
is_unrevoked_invite room_id i = i.room_id == room_id && not (is_some i.revoked_at)

abbrev pub revoked_invites : String → String → Db → Db
revoked_invites room_id now_text db = record db {
  invites =
      update_where (is_unrevoked_invite room_id) (λ i. record i { revoked_at = some now_text })
        db.invites;
}

abbrev pub revoked_sessions : String → String → Db → Db
revoked_sessions room_id now_text db = record db {
  sessions =
      update_where (λ (s : SessionRow). s.room_id == room_id && not (is_some s.revoked_at))
        (λ s. record s { revoked_at = some now_text }) db.sessions;
}

-- The guests of a room are gone, and their sessions with them.
abbrev pub without_guests : String → String → Db → Db
without_guests room_id now_text db =
    without_participants (is_guest_of room_id) (revoked_sessions room_id now_text db)

module _ (room_id : String) (invite_digest : List ℕ) (expires_at now_text : String) where
  abbrev pub renew : InviteRow → InviteRow
  renew i = record i { digest = invite_digest; expires_at = expires_at; revoked_at = none }

  abbrev pub rotated : Db → Db
  rotated db = without_guests room_id now_text (record db {
    invites = update_where (λ (i : InviteRow). i.room_id == room_id) renew db.invites;
  })

  abbrev pub rotating : RoomStore → Result StoreError String × RoomStore
  rotating s = rotate room_id invite_digest expires_at now_text s

  -- Rotation fails and changes nothing, or renews the invite of an open room, revokes the sessions
  -- of the room and drops its guests.
  pub rotate_cases :
      (s : RoomStore)
      → ((e : StoreError) × (rotating s ≡ (err e, s)))
        ⊎ ((room : RoomRow) × (find_where (λ (r : RoomRow). r.id == room_id) s.db.rooms ≡ some room)
            × ((room.status == "closed") ≡ false)
            × (1 ≤ count_where (λ (i : InviteRow). i.room_id == room_id) s.db.invites)
            × (rotating s ≡ (ok room.share_origin, record s { db = rotated s.db })))
  unfolding rotate
  rotate_cases s = elim (Option-cases (find_where (λ (r : RoomRow). r.id == room_id) s.db.rooms)) [
    | inl f ↦ inl (not_found, rw f refl)
    | inr (room, f) ↦ elim (Bool-cases (room.status == "closed")) [
      | inl c ↦ inl (closed, rw (f, c) refl)
      | inr c ↦
          elim (Bool-cases
            (eqb (count_where (λ (i : InviteRow). i.room_id == room_id) s.db.invites) 0)) [
              | inl z ↦ inl (not_found, rw (f, c, z) refl)
              | inr z ↦ inr (room, f, c, ground arith, rw (f, c, z) refl)
            ]
    ]
  ]

module _ (x : External) (d : Draw) where
  abbrev pub revoked : String → Db → Db
  revoked room_id db =
      without_guests room_id (x.to_rfc3339 (d.now 1))
        (revoked_invites room_id (x.to_rfc3339 (d.now 0)) db)

  -- Revocation fails and changes nothing, or revokes an invite that was not revoked yet, revokes the
  -- sessions of the room and drops its guests.
  pub revoke_invite_cases :
      (given : String) (s : RoomStore)
      → ((e : StoreError) × (revoke_invite x d given s ≡ (err e, s)))
        ⊎ ((room_id : String) × (validate_room_id given ≡ ok room_id)
            × (1 ≤ count_where (is_unrevoked_invite room_id) s.db.invites)
            × (revoke_invite x d given s ≡ (ok tt, record s { db = revoked room_id s.db })))
  unfolding revoke_invite
  revoke_invite_cases given s = elim (Result-cases (validate_room_id given)) [
    | inr (e, p) ↦ inl (e, rw p refl)
    | inl (room_id, p) ↦
        elim (Bool-cases (eqb (count_where (is_unrevoked_invite room_id) s.db.invites) 0)) [
          | inl z ↦ inl (
            not_found,
            rw (p, z)
                (ground (
                  arith,
                  update-none (is_unrevoked_invite room_id)
                      (λ i. record i { revoked_at = some (x.to_rfc3339 (d.now 0)) }) s.db.invites,
                )),
          )
          | inr z ↦ inr (room_id, p, ground arith, rw (p, z) refl)
        ]
  ]
