-- ===== src/Store/Invites/Capacity.antt =====
-- The cap on live participants in `exchange_invite` of backend/src/store.rs.
use ryu_rooms.Prelude.{
  ℕ, ◌≤◌, String, ◌≡◌, refl, inl, inr, Bool, false, ◌&&◌, ◌||◌, List, [], ◌∷◌, ◌++◌, ◌==◌, arith,
  eq_iff,
}
use ryu_rooms.Result.{Result-cases, ok}
use ryu_rooms.Limits.{max_participants}
use ryu_rooms.Model.{RoomSession}
use ryu_rooms.Table.{any_where, count_where}
use ryu_rooms.Table.Counts.{count-snoc, count_one_le}
use ryu_rooms.Store.{ParticipantRow, SessionRow, Db, RoomStore, External, Draw}
use ryu_rooms.Store.Ids.{ctx, opaque_id}
use ryu_rooms.Store.Invites.{
  enter, guest_row, guest_session, is_live, is_live_participant, live_participants,
}
use ryu_rooms.Store.Invites.Admission.{admitted, admit_cases}

any-snoc {ℓ} :
    {R : Type ℓ} (p : R → Bool) (rs : List R) (r : R)
    → any_where p (rs ++ r ∷ []) ≡ (any_where p rs || p r)
unfolding any_where
any-snoc p [] r = ground arith
any-snoc p (q ∷ rs) r = ground (arith, any-snoc p rs r)

module _ (x : External) (now : ℕ) (room_id : String) where
  -- A session of another participant makes nobody live.
  live-snoc :
      (sessions : List SessionRow) (s : SessionRow) (db db' : Db)
      (participants : List ParticipantRow)
      → db.sessions ≡ sessions
      → db'.sessions ≡ sessions ++ s ∷ []
      → any_where (λ (p : ParticipantRow). p.id == s.participant_id) participants ≡ false
      → count_where (is_live_participant x now db' room_id) participants
        ≡ count_where (is_live_participant x now db room_id) participants
  unfolding count_where any_where
  live-snoc sessions s db db' [] e e' h = refl
  live-snoc sessions s db db' (p ∷ participants) e e' h =
      let rest = live-snoc sessions s db db' participants e e' in
      let same =
        any-snoc
          (λ (q : SessionRow). q.participant_id == p.id && is_live x now q.revoked_at q.expires_at)
          sessions s in
      ground (arith, rest, same, e, e', eq_iff s.participant_id p.id, eq_iff p.id s.participant_id)

module _ (x : External) where
  -- When an exchange has let a guest into a room, the room has at most eight live participants: the
  -- host, and the guests with a session that is neither revoked nor expired.
  pub live_participants-enter :
      (d : Draw) (raw name : String) (session : RoomSession) (s t : RoomStore)
      → enter x d raw name s ≡ (ok session, t)
      → live_participants x (d.now 0) session.room_id t.db ≤ max_participants
  unfolding enter live_participants
  live_participants-enter d raw name session s t h =
      elim (Result-cases (
        x.sealing.seal_text (d.nonce 0) name
          (ctx "room_participants" "display_name" (opaque_id "member_" (d.uuid 1))))) [
            | inr (e, p) ↦ absurd (ground arith)
            | inl (sealed, p) ↦
                elim (admit_cases x (d.now 0) (x.sha256 raw) (guest_row x d sealed)
                  (guest_session x d) s) [
                    | inl (e, q) ↦ absurd (ground (arith, p, q, h))
                    | inr a ↦
                        let k = a.invite.room_id in
                        let db' =
                          admitted x (d.now 0) (x.sha256 raw) (guest_row x d sealed)
                            (guest_session x d) k s.db in
                        let one =
                          count-snoc (is_live_participant x (d.now 0) db' k) s.db.participants
                            (guest_row x d sealed k) in
                        let same =
                          live-snoc x (d.now 0) k s.db.sessions (guest_session x d k) s.db db'
                            s.db.participants refl refl a.new_participant in
                        let bound : count_where (is_live_participant x (d.now 0) db' k)
                              (s.db.participants ++ guest_row x d sealed k ∷ [])
                            ≤ max_participants =
                          omega (
                            arith,
                            one,
                            same,
                            a.place,
                            count_one_le
                                (is_live_participant x (d.now 0) db' k (guest_row x d sealed k)),
                          ) in
                        ground (arith, a.result, bound)
                  ]
          ]
