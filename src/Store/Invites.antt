-- ===== src/Store/Invites.antt =====
-- Invites and guest sessions of backend/src/store.rs.
pub mod Admission
pub mod Rotation
pub mod Entering
pub mod Revoking
pub mod Capacity
use Prim.Native.String.{[] as nil}
use Prim.Native.Char.{Char}
use ryu_rooms.Prelude.{
  ℕ, ◌+◌, String, Bool, true, false, ◌&&◌, ◌||◌, not, Option, none, some, List, [], ◌∷◌, eqb, leb,
  ltb, is_some, if◌then◌else◌, ◌==◌,
}
use ryu_rooms.Result.{Result, ok, err, map_err}
use ryu_rooms.Text.{any_char, byte_len, is_control, is_empty, trim}
use ryu_rooms.Table.{any_where, count_where, delete_where, find_where, select, update_where}
use ryu_rooms.Limits.{invite_ttl_secs, max_participants, session_ttl_secs, validate_display_name}
use ryu_rooms.Model.{ParticipantRole, RoomSession, parse_participant_role}
use ryu_rooms.Store.{
  RoomRow, InviteRow, ParticipantRow, SessionRow, Db, StoreError, invalid, not_found, database,
  conflict, closed, invite_unavailable, RoomStore, External, Draw, Exec, continue, pure, raise,
  lift, or_raise, reject_if, query, transaction, insert_participant, insert_session, update_invites,
  update_sessions, delete_participants, ct_eq, ◌>>=◌, ◌>>◌,
}
use ryu_rooms.Store.Ids.{
  ctx, future_timestamp, opaque_id, open_value, seal, seconds, validate_room_id,
}

pub record IssuedInvite : Type 0 where
  pub invite : String
  pub share_origin : String

abbrev pub joined :
    List ℕ
    → SessionRow
    → Option ParticipantRow
    → Option (SessionRow × ParticipantRow)
    → Option (SessionRow × ParticipantRow)
joined digest s none rest = rest
joined digest s (some p) rest = if ct_eq s.digest digest then some (s, p) else rest

-- `room_sessions JOIN room_participants`, scanned for the digest a session at a time.
unfoldable pub session_row :
    List ℕ → List ParticipantRow → List SessionRow → Option (SessionRow × ParticipantRow)
unfolding ct_eq find_where
session_row digest participants [] = none
session_row digest participants (s ∷ rest) =
    joined digest s (find_where (λ (p : ParticipantRow). p.id == s.participant_id) participants)
      (session_row digest participants rest)

-- `revoked_at IS NULL`, and the revocation.
abbrev pub revoke_sessions : String → String → Exec ℕ
revoke_sessions room_id now_text =
    update_sessions (λ s. s.room_id == room_id && not (is_some s.revoked_at))
      (λ s. record s { revoked_at = some now_text })

abbrev pub is_guest_of : String → ParticipantRow → Bool
is_guest_of room_id p = p.room_id == room_id && p.role == "guest"

-- The transaction of `issue_invite`.
unfoldable pub rotate : String → List ℕ → String → String → Exec String
unfolding find_where count_where update_where delete_where any_where
rotate room_id invite_digest expires_at now_text = transaction do
  row ← query (λ db. find_where (λ (r : RoomRow). r.id == room_id) db.rooms)
  room ← or_raise row not_found
  reject_if (room.status == "closed") closed
  changed ←
      update_invites (λ i. i.room_id == room_id)
        (λ i. record i { digest = invite_digest; expires_at = expires_at; revoked_at = none })
  reject_if (eqb changed 0) not_found
  _ ← revoke_sessions room_id now_text
  delete_participants (is_guest_of room_id)
  pure room.share_origin

-- The bounds on a secret that a caller presents.
abbrev pub is_bad_invite : String → Bool
is_bad_invite raw = is_empty raw || ltb 128 (byte_len raw) || any_char is_control raw

module _ (x : External) where
  -- `revoked_at.is_none()` and not yet expired at `now`.
  abbrev pub is_live : ℕ → Option String → String → Bool
  is_live now revoked_at expires_at = not (is_some revoked_at) && future_timestamp x expires_at now

  abbrev pub has_live_session : ℕ → Db → String → Bool
  has_live_session now db id =
      any_where
        (λ (s : SessionRow). s.participant_id == id && is_live now s.revoked_at s.expires_at)
        db.sessions

  -- The participants that count against the cap: the host, and guests with a live session.
  abbrev pub is_live_participant : ℕ → Db → String → ParticipantRow → Bool
  is_live_participant now db room_id p =
      p.room_id == room_id && (p.role == "host" || has_live_session now db p.id)

  unfoldable pub live_participants : ℕ → String → Db → ℕ
  unfolding any_where count_where future_timestamp
  live_participants now room_id db =
      count_where (is_live_participant now db room_id) db.participants

  -- The cap on live participants, and the rows of the new guest.
  unfoldable pub join :
      ℕ → String → (String → ParticipantRow) → (String → SessionRow) → Exec (Unit {0})
  unfolding insert_participant insert_session
  join now room_id participant session = do
    live ← query (live_participants now room_id)
    reject_if (leb max_participants live) conflict
    insert_participant (participant room_id)
    insert_session (session room_id)

  -- The part of `exchange_invite` between taking the connection and the commit.
  unfoldable pub admit :
      ℕ → List ℕ → (String → ParticipantRow) → (String → SessionRow) → Exec String
  admit now invite_digest participant session = transaction do
    found ← query (λ db. find_where (λ (i : InviteRow). ct_eq i.digest invite_digest) db.invites)
    invite ← or_raise found invite_unavailable
    reject_if (not (is_live now invite.revoked_at invite.expires_at)) invite_unavailable
    row ← query (λ db. find_where (λ (r : RoomRow). r.id == invite.room_id) db.rooms)
    room ← or_raise row database
    reject_if (room.status == "closed") invite_unavailable
    join now invite.room_id participant session
    pure invite.room_id

  abbrev pub guest_row : Draw → String → String → ParticipantRow
  guest_row d sealed_name room_id = record {
    id = opaque_id "member_" (d.uuid 1);
    room_id = room_id;
    display_name = sealed_name;
    role = "guest";
    online = 1;
    created_at = x.to_rfc3339 (d.now 0);
    last_seen_at = x.to_rfc3339 (d.now 0);
  }

  abbrev pub guest_session : Draw → String → SessionRow
  guest_session d room_id = record {
    digest = x.sha256 (d.uuid 0);
    room_id = room_id;
    participant_id = opaque_id "member_" (d.uuid 1);
    role = "guest";
    expires_at = x.to_rfc3339 (d.now 0 + seconds session_ttl_secs);
    revoked_at = none;
  }

  -- `exchange_invite` once its arguments are validated.
  unfoldable pub enter : Draw → String → String → Exec RoomSession
  unfolding admit
  enter d raw display_name = do
    sealed_name ←
        seal x (d.nonce 0) display_name
          (ctx "room_participants" "display_name" (opaque_id "member_" (d.uuid 1)))
    room_id ← admit (d.now 0) (x.sha256 raw) (guest_row d sealed_name) (guest_session d)
    pure (record {
      room_id = room_id;
      participant_id = opaque_id "member_" (d.uuid 1);
      role = ParticipantRole.guest;
      display_name = display_name;
      secret = d.uuid 0;
    })

  unfoldable pub exchange_invite : Draw → String → String → Exec RoomSession
  unfolding enter validate_display_name
  exchange_invite d raw display_name = do
    display_name ← lift (map_err invalid (validate_display_name display_name))
    reject_if (is_bad_invite (trim raw)) invite_unavailable
    enter d (trim raw) display_name

  unfoldable pub issue_invite : Draw → String → Exec IssuedInvite
  unfolding rotate validate_room_id
  issue_invite d room_id = do
    room_id ← lift (validate_room_id room_id)
    let now = d.now 0
    let invite = d.uuid 0
    share_origin ←
        rotate room_id (x.sha256 invite) (x.to_rfc3339 (now + seconds invite_ttl_secs))
          (x.to_rfc3339 now)
    pure (record { invite = invite; share_origin = share_origin })

  unfoldable pub revoke_invite : Draw → String → Exec (Unit {0})
  unfolding validate_room_id count_where update_where delete_where any_where
  revoke_invite d room_id = do
    room_id ← lift (validate_room_id room_id)
    changed ←
        update_invites (λ i. i.room_id == room_id && not (is_some i.revoked_at))
          (λ i. record i { revoked_at = some (x.to_rfc3339 (d.now 0)) })
    reject_if (eqb changed 0) not_found
    _ ← revoke_sessions room_id (x.to_rfc3339 (d.now 1))
    delete_participants (is_guest_of room_id)

  abbrev pub resolve_row :
      ℕ → String → Option (SessionRow × ParticipantRow) → Exec (Option RoomSession)
  resolve_row now raw none = pure none
  resolve_row now raw (some (s, p)) =
      if not (is_live now s.revoked_at s.expires_at) then pure none else do
        display_name ←
            lift (
              open_value x p.display_name (ctx "room_participants" "display_name" s.participant_id))
        role ← or_raise (parse_participant_role s.role) database
        pure (
            some (record {
              room_id = s.room_id;
              participant_id = s.participant_id;
              role = role;
              display_name = display_name;
              secret = raw;
            }))

  unfoldable pub resolve_session : ℕ → String → Exec (Option RoomSession)
  unfolding session_row future_timestamp parse_participant_role
  resolve_session now raw =
      let raw = trim raw in
      if is_empty raw || ltb 128 (byte_len raw) then pure none else do
        found ← query (λ db. session_row (x.sha256 raw) db.participants db.sessions)
        resolve_row now raw found
