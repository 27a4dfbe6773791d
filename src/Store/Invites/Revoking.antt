-- ===== src/Store/Invites/Revoking.antt =====
-- Revoked sessions and `resolve_session` of backend/src/store.rs.
use ryu_rooms.Prelude.{
  ℕ, String, ◌≡◌, inl, inr, Bool, false, ◌&&◌, ◌||◌, not, some, List, [], ◌∷◌, ltb, is_some, ◌==◌,
  arith, Bool-cases, Option-cases,
}
use ryu_rooms.Result.{Result-cases, ok}
use ryu_rooms.Text.{byte_len, is_empty, trim}
use ryu_rooms.Model.{RoomSession, parse_participant_role}
use ryu_rooms.Table.{any_where, count_where, delete_where, find_where, update_where}
use ryu_rooms.Table.Counts.{count-update_clears, count-delete_le}
use ryu_rooms.Store.{InviteRow, ParticipantRow, SessionRow, Db, RoomStore, External, Draw}
use ryu_rooms.Store.Ids.{ctx, open_value, validate_room_id}
use ryu_rooms.Store.Closing.{close_room}
use ryu_rooms.Store.Closing.Effect.{close_room_cases}
use ryu_rooms.Store.Invites.{
  session_row, is_live, is_guest_of, resolve_row, resolve_session, revoke_invite, rotate,
}
use ryu_rooms.Store.Invites.Rotation.{
  renew, revoked_invites, without_guests, revoke_invite_cases, rotate_cases,
}

abbrev pub is_open_session : String → SessionRow → Bool
is_open_session room_id s = s.room_id == room_id && not (is_some s.revoked_at)

count_delete_none {ℓ} :
    {R : Type ℓ} (p q : R → Bool) (rs : List R)
    → count_where q rs ≡ 0
    → count_where q (delete_where p rs) ≡ 0
count_delete_none p q rs h = omega (arith, count-delete_le p q rs)

-- The join only finds sessions of the table.
session_row-revoked :
    (room_id : String) (digest : List ℕ) (participants : List ParticipantRow)
    (sessions : List SessionRow) (s : SessionRow) (p : ParticipantRow)
    → count_where (is_open_session room_id) sessions ≡ 0
    → session_row digest participants sessions ≡ some (s, p)
    → is_open_session room_id s ≡ false
unfolding session_row count_where
session_row-revoked room_id digest participants [] s p z h = absurd (ground arith)
session_row-revoked room_id digest participants (q ∷ sessions) s p z h =
    elim (Option-cases
      (find_where (λ (r : ParticipantRow). r.id == q.participant_id) participants)) [
        | inl g ↦ ground (arith, session_row-revoked room_id digest participants sessions s p)
        | inr (r, g) ↦ ground (arith, session_row-revoked room_id digest participants sessions s p)
      ]

module _ (x : External) where
  resolve_row-revoked :
      (room_id : String) (now : ℕ) (raw : String) (s : SessionRow) (p : ParticipantRow)
      (t : RoomStore) (session : RoomSession)
      → is_open_session room_id s ≡ false
      → (resolve_row x now raw (some (s, p)) t).0 ≡ ok (some session)
      → (session.room_id == room_id) ≡ false
  resolve_row-revoked room_id now raw s p t session z h =
      elim (Bool-cases (is_live x now s.revoked_at s.expires_at)) [
        | inr l ↦ absurd (ground arith)
        | inl l ↦
            elim (Result-cases (
              open_value x p.display_name
                (ctx "room_participants" "display_name" s.participant_id))) [
                  | inr (e, o) ↦ absurd (ground arith)
                  | inl (name, o) ↦ elim (Option-cases (parse_participant_role s.role)) [
                    | inl r ↦ absurd (ground arith)
                    | inr (role, r) ↦ ground arith
                  ]
                ]
      ]

  -- Where every session of a room is revoked, no secret resolves to a session of that room.
  pub resolve_session-revoked :
      (room_id : String) (now : ℕ) (raw : String) (t : RoomStore) (session : RoomSession)
      → count_where (is_open_session room_id) t.db.sessions ≡ 0
      → (resolve_session x now raw t).0 ≡ ok (some session)
      → (session.room_id == room_id) ≡ false
  unfolding resolve_session
  resolve_session-revoked room_id now raw t session z h =
      elim (Bool-cases (is_empty (trim raw) || ltb 128 (byte_len (trim raw)))) [
        | inl b ↦ absurd (ground arith)
        | inr b ↦
            elim (Option-cases
              (session_row (x.sha256 (trim raw)) t.db.participants t.db.sessions)) [
                | inl f ↦ absurd (ground arith)
                | inr ((s, p), f) ↦
                    resolve_row-revoked room_id now (trim raw) s p t session
                      (session_row-revoked room_id (x.sha256 (trim raw)) t.db.participants
                        t.db.sessions s p z f)
                      (ground arith)
              ]
      ]

  -- The revocation of the sessions of a room leaves none open.
  none_open :
      (room_id now_text : String) (sessions : List SessionRow)
      → count_where (is_open_session room_id) (
          update_where
            (is_open_session room_id)
            (λ s. record s { revoked_at = some now_text })
            sessions)
        ≡ 0
  none_open room_id now_text sessions =
      count-update_clears (is_open_session room_id) (is_open_session room_id)
        (λ s. record s { revoked_at = some now_text }) sessions (λ s e. ground arith) (λ s e. e)

  without_guests-none :
      (room_id now_text : String) (db : Db)
      → count_where (is_open_session room_id) (without_guests room_id now_text db).sessions ≡ 0
  without_guests-none room_id now_text db =
      count_delete_none
        (λ (s : SessionRow).
          any_where (λ (q : ParticipantRow). is_guest_of room_id q && q.id == s.participant_id)
            db.participants)
        (is_open_session room_id) _ (none_open room_id now_text db.sessions)

  -- The operations that end the sessions of a room, with what they return.
  pub data Ends (d : Draw) (room_id : String) (s : RoomStore) : RoomStore → Type 0 where
    by_revoke :
        (given : String)
        → validate_room_id given ≡ ok room_id
        → {t : RoomStore} → revoke_invite x d given s ≡ (ok tt, t)
        → Ends d room_id s t
    by_close :
        (given : String)
        → validate_room_id given ≡ ok room_id
        → {t : RoomStore} → close_room x d given s ≡ (ok tt, t)
        → Ends d room_id s t
    by_rotate :
        (digest : List ℕ) (expires_at now_text origin : String) {t : RoomStore}
        → rotate room_id digest expires_at now_text s ≡ (ok origin, t)
        → Ends d room_id s t

  Ends-none_open :
      (d : Draw) (room_id : String) (s t : RoomStore)
      → Ends d room_id s t
      → count_where (is_open_session room_id) t.db.sessions ≡ 0
  Ends-none_open d room_id s t (by_revoke given v h) = elim (revoke_invite_cases x d given s) [
    | inl (e, q) ↦ absurd (ground (arith, q, h))
    | inr (k, w, _, q) ↦ ground (
      arith,
      v,
      w,
      q,
      h,
      without_guests-none k (x.to_rfc3339 (d.now 1))
          (revoked_invites k (x.to_rfc3339 (d.now 0)) s.db),
    )
  ]
  Ends-none_open d room_id s t (by_close given v h) = elim (close_room_cases x d given s) [
    | inl (e, q) ↦ absurd (ground (arith, q, h))
    | inr (k, w, _, q) ↦
        ground (arith, v, w, q, h, none_open k (x.to_rfc3339 (d.now 2)) s.db.sessions)
  ]
  Ends-none_open d room_id s t (by_rotate digest expires_at now_text origin h) =
      elim (rotate_cases room_id digest expires_at now_text s) [
        | inl (e, q) ↦ absurd (ground (arith, q, h))
        | inr (room, _, _, _, q) ↦ ground (
          arith,
          q,
          h,
          without_guests-none room_id now_text (record s.db {
            invites =
                update_where (λ (i : InviteRow). i.room_id == room_id)
                  (renew room_id digest expires_at now_text) s.db.invites;
          }),
        )
      ]

  -- On the database that a successful revocation of the invite, closing of the room or rotation of
  -- the invite leaves, no secret resolves to a session of the room, at any time.
  pub resolve_session-Ends :
      (d : Draw) (room_id : String) (s t : RoomStore) (now : ℕ) (raw : String)
      (session : RoomSession)
      → Ends d room_id s t
      → (resolve_session x now raw t).0 ≡ ok (some session)
      → (session.room_id == room_id) ≡ false
  resolve_session-Ends d room_id s t now raw session ends h =
      resolve_session-revoked room_id now raw t session (Ends-none_open d room_id s t ends) h
