-- ===== src/Store/Invites/Entering.antt =====
-- A guest who has exchanged an invite, and the session that the secret resolves to.
use ryu_rooms.Prelude.{
  ℕ, ◌+◌, ◌<◌, String, ◌≡◌, refl, inl, inr, Bool, true, false, ◌&&◌, ◌||◌, not, none, some, List,
  [], ◌∷◌, ◌++◌, ltb, ◌==◌, arith, eq_iff, eq_refl, Option-cases,
}
use ryu_rooms.Result.{Result-cases, ok}
use ryu_rooms.Text.{byte_len, is_empty, trim}
use ryu_rooms.Limits.{session_ttl_secs}
use ryu_rooms.Model.{RoomSession, parse_participant_role}
use ryu_rooms.Table.{any_where, find_where}
use ryu_rooms.Table.Finds.{find-snoc}
use ryu_rooms.Seal.{IsFaithful}
use ryu_rooms.Store.{ParticipantRow, SessionRow, RoomStore, External, Draw, ct_eq}
use ryu_rooms.Store.Ids.{ctx, future_timestamp, opaque_id, seconds}
use ryu_rooms.Store.Invites.{guest_row, guest_session, session_row, enter, resolve_session}
use ryu_rooms.Store.Invites.Admission.{admit_cases}

pub ct_eq_refl : (l : List ℕ) → ct_eq l l ≡ true
unfolding ct_eq
ct_eq_refl [] = refl
ct_eq_refl (a ∷ l) = ground (arith, ct_eq_refl l)

find_none_of_any :
    (p : ParticipantRow → Bool) (rs : List ParticipantRow)
    → any_where p rs ≡ false
    → find_where p rs ≡ none
unfolding find_where any_where
find_none_of_any p [] h = refl
find_none_of_any p (q ∷ rs) h = ground (arith, find_none_of_any p rs)

-- The join finds a session that was added last, when its digest is new.
session_row-snoc :
    (digest : List ℕ) (participants : List ParticipantRow) (sessions : List SessionRow)
    (s : SessionRow) (p : ParticipantRow)
    → any_where (λ (q : SessionRow). ct_eq q.digest digest) sessions ≡ false
    → ct_eq s.digest digest ≡ true
    → find_where (λ (q : ParticipantRow). q.id == s.participant_id) participants ≡ some p
    → session_row digest participants (sessions ++ s ∷ []) ≡ some (s, p)
unfolding session_row any_where
session_row-snoc digest participants [] s p h e f = rw (f, e) refl
session_row-snoc digest participants (q ∷ sessions) s p h e f =
    elim (Option-cases
      (find_where (λ (r : ParticipantRow). r.id == q.participant_id) participants)) [
        | inl g ↦ rw g (session_row-snoc digest participants sessions s p (ground arith) e f)
        | inr (r, g) ↦ ground (arith, session_row-snoc digest participants sessions s p)
      ]

-- What the secret of a session must be for it to be looked up: `opaque_secret` draws such.
abbrev pub is_secret : String → Bool
is_secret raw = trim raw == raw && not (is_empty raw || ltb 128 (byte_len raw))

module _ (x : External) (law : IsFaithful x.sealing) (d : Draw) where
  -- Where what is sealed opens again, the drawn secret is one that is looked up, and the printed
  -- time of expiry parses back: a guest who enters gets a session that its secret resolves to, on
  -- the database that the exchange leaves, until it expires, with the same room, participant, role
  -- and display name.
  pub resolve_session-enter :
      (raw name : String) (session : RoomSession) (now : ℕ) (s t : RoomStore)
      → is_secret (d.uuid 0) ≡ true
      → x.parse_from_rfc3339 (x.to_rfc3339 (d.now 0 + seconds session_ttl_secs))
        ≡ some (d.now 0 + seconds session_ttl_secs)
      → now < d.now 0 + seconds session_ttl_secs
      → enter x d raw name s ≡ (ok session, t)
      → resolve_session x now session.secret t ≡ (ok (some session), t)
  unfolding enter resolve_session future_timestamp parse_participant_role
  resolve_session-enter raw name session now s t secret parses early h =
      elim (Result-cases (
        x.sealing.seal_text (d.nonce 0) name
          (ctx "room_participants" "display_name" (opaque_id "member_" (d.uuid 1))))) [
            | inr (e, p) ↦ absurd (ground arith)
            | inl (sealed, p) ↦
                elim (admit_cases x (d.now 0) (x.sha256 raw) (guest_row x d sealed)
                  (guest_session x d) s) [
                    | inl (e, q) ↦ absurd (ground (arith, p, q, h))
                    | inr a ↦
                        let opens = law.open-seal _ _ _ _ p in
                        let found =
                          find-snoc (λ (q : ParticipantRow). q.id == opaque_id "member_" (d.uuid 1))
                            s.db.participants (guest_row x d sealed a.invite.room_id)
                            (find_none_of_any _ _ a.new_participant) (eq_refl _) in
                        let row =
                          session_row-snoc (x.sha256 (d.uuid 0))
                            (s.db.participants ++ guest_row x d sealed a.invite.room_id ∷ [])
                            s.db.sessions (guest_session x d a.invite.room_id)
                            (guest_row x d sealed a.invite.room_id) a.new_session
                            (ct_eq_refl (x.sha256 (d.uuid 0))) found in
                        ground
                          (arith, a.result, row, opens, parses, eq_iff (trim (d.uuid 0)) (d.uuid 0))
                  ]
          ]
