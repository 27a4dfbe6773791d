-- ===== src/Store/Invites/Admission.antt =====
-- What exchanging an invite does to the database.
use ryu_rooms.Prelude.{
  ℕ, ◌<◌, String, ◌≡◌, refl, ◌⊎◌, inl, inr, Bool, true, false, ◌||◌, not, some, List, [], ◌∷◌, ◌++◌,
  leb, ◌==◌, arith, Bool-cases, Option-cases,
}
use ryu_rooms.Result.{Result, ok, err}
use ryu_rooms.Table.{any_where, find_where}
use ryu_rooms.Limits.{max_participants}
use ryu_rooms.Store.{
  RoomRow, InviteRow, ParticipantRow, SessionRow, Db, StoreError, database, conflict,
  invite_unavailable, RoomStore, External, has_room, ct_eq,
}
use ryu_rooms.Store.Invites.{is_live, live_participants, join, admit}

module _ (x : External) (now : ℕ) (invite_digest : List ℕ) (participant : String → ParticipantRow)
    (session : String → SessionRow) where
  abbrev pub admitted : String → Db → Db
  admitted room_id db = record db {
    participants = db.participants ++ participant room_id ∷ [];
    sessions = db.sessions ++ session room_id ∷ [];
  }

  abbrev pub admitting : RoomStore → Result StoreError String × RoomStore
  admitting s = admit x now invite_digest participant session s

  -- A guest who is let in: by a live invite with that digest, to an open room with a place left.
  pub record Admitted (s : RoomStore) (r : Result StoreError String × RoomStore) : Type 0 where
    pub invite : InviteRow
    pub room : RoomRow
    pub found :
        find_where (λ (i : InviteRow). ct_eq i.digest invite_digest) s.db.invites ≡ some invite
    pub live : is_live x now invite.revoked_at invite.expires_at ≡ true
    pub room_found : find_where (λ (r : RoomRow). r.id == invite.room_id) s.db.rooms ≡ some room
    pub not_closed : (room.status == "closed") ≡ false
    pub place : live_participants x now invite.room_id s.db < max_participants
    pub new_participant :
        any_where
          (λ (p : ParticipantRow). p.id == (participant invite.room_id).id)
          s.db.participants
        ≡ false
    pub new_session :
        any_where (λ (q : SessionRow). ct_eq q.digest (session invite.room_id).digest) s.db.sessions
        ≡ false
    pub result : r ≡ (ok invite.room_id, record s { db = admitted invite.room_id s.db })

  -- The constraints that the two insertions check.
  abbrev no_participant : String → Db → Bool
  no_participant room_id db =
      any_where (λ (p : ParticipantRow). p.id == (participant room_id).id) db.participants
      || not (has_room (participant room_id).room_id db)

  abbrev no_session : String → Db → Bool
  no_session room_id db =
      any_where (λ (q : SessionRow). ct_eq q.digest (session room_id).digest) db.sessions
      || not (has_room (session room_id).room_id db)
      || not (
          any_where (λ (p : ParticipantRow). p.id == (session room_id).participant_id)
            (db.participants ++ participant room_id ∷ []))

  abbrev joining : String → RoomStore → Result StoreError (Unit {0}) × RoomStore
  joining room_id s = join x now room_id participant session s

  -- The guest's rows are inserted while there is a place, and their keys are new.
  record Joined (room_id : String) (s : RoomStore) : Type 0 where
    place : live_participants x now room_id s.db < max_participants
    new_participant :
        any_where (λ (p : ParticipantRow). p.id == (participant room_id).id) s.db.participants
        ≡ false
    new_session :
        any_where (λ (q : SessionRow). ct_eq q.digest (session room_id).digest) s.db.sessions
        ≡ false
    result : joining room_id s ≡ (ok tt, record s { db = admitted room_id s.db })

  join_cases :
      (room_id : String) (s : RoomStore)
      → ((e : StoreError) × ((joining room_id s).0 ≡ err e)
          × ((joining room_id s).1.unreadable ≡ s.unreadable))
        ⊎ Joined room_id s
  unfolding join
  join_cases room_id s =
      elim (Bool-cases (leb max_participants (live_participants x now room_id s.db))) [
        | inl full ↦ inl (conflict, rw full refl, rw full refl)
        | inr place ↦ elim (Bool-cases (no_participant room_id s.db)) [
          | inl v ↦ inl (database, rw (place, v) refl, rw (place, v) refl)
          | inr v ↦ elim (Bool-cases (no_session room_id s.db)) [
            | inl w ↦ inl (database, rw (place, v, w) refl, rw (place, v, w) refl)
            | inr w ↦ inr (record {
              place = ground arith;
              new_participant = ground arith;
              new_session = ground arith;
              result = rw (place, v, w) refl;
            })
          ]
        ]
      ]

  admit_to :
      (s : RoomStore) (invite : InviteRow) (room : RoomRow)
      → find_where (λ (i : InviteRow). ct_eq i.digest invite_digest) s.db.invites ≡ some invite
      → is_live x now invite.revoked_at invite.expires_at ≡ true
      → find_where (λ (r : RoomRow). r.id == invite.room_id) s.db.rooms ≡ some room
      → ((e : StoreError) × (admitting s ≡ (err e, s))) ⊎ Admitted s (admitting s)
  unfolding admit
  admit_to s invite room f l r = elim (Bool-cases (room.status == "closed")) [
    | inl c ↦ inl (invite_unavailable, rw (f, l, r, c) refl)
    | inr c ↦ elim (join_cases invite.room_id s) [
      | inl (e, q, u) ↦ inl (e, rw (f, l, r, c) (ground (arith, q, u)))
      | inr j ↦ inr (record {
        invite = invite;
        room = room;
        found = f;
        live = l;
        room_found = r;
        not_closed = c;
        place = j.place;
        new_participant = j.new_participant;
        new_session = j.new_session;
        result = rw (f, l, r, c, j.result) refl;
      })
    ]
  ]

  -- An exchange is refused and changes nothing, or its digest is that of an invite that is neither
  -- revoked nor expired, of an open room with fewer than eight live participants, and the guest's
  -- row and session, whose keys are new, are all that is added.
  pub admit_cases :
      (s : RoomStore) → ((e : StoreError) × (admitting s ≡ (err e, s))) ⊎ Admitted s (admitting s)
  unfolding admit
  admit_cases s =
      elim (Option-cases
        (find_where (λ (i : InviteRow). ct_eq i.digest invite_digest) s.db.invites)) [
          | inl f ↦ inl (invite_unavailable, ground arith)
          | inr (invite, f) ↦
              elim (Bool-cases (is_live x now invite.revoked_at invite.expires_at)) [
                | inr l ↦ inl (invite_unavailable, ground arith)
                | inl l ↦
                    elim (Option-cases
                      (find_where (λ (r : RoomRow). r.id == invite.room_id) s.db.rooms)) [
                        | inl r ↦ inl (database, ground arith)
                        | inr (room, r) ↦ admit_to s invite room f l r
                      ]
              ]
        ]
