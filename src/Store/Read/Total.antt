-- ===== src/Store/Read/Total.antt =====
-- When `snapshot` of backend/src/store.rs returns.
use mathlib.Core.List.{reverse}
use ryu_rooms.Prelude.{
  String, ◌≡◌, refl, sym, subst, inl, inr, not, Option, none, some, List, [], ◌∷◌, ◌++◌, is_some,
  ◌==◌, ◌&&◌, arith, Option-cases,
}
use ryu_rooms.Result.{Result, ok, err}
use ryu_rooms.Table.{count_where, find_where, first_by, select, sort_by}
use ryu_rooms.Table.Counts.{count-select_le, count_mono, count_of_find}
use ryu_rooms.Table.Orders.{count-first_by_le, count-sort_by}
use ryu_rooms.Model.{RoomMessage, RoomParticipantSummary, RoomRun, RoomSnapshot, parse_room_status}
use ryu_rooms.Limits.{max_history_messages}
use ryu_rooms.Store.{
  RoomRow, MessageRow, RunRow, ParticipantRow, Db, StoreError, RoomStore, External, Exec, continue,
  ◌>>=◌,
}
use ryu_rooms.Store.Ids.{contract, ctx, engine, open_value, validate_room_id}
use ryu_rooms.Store.Read.Keeps.{load_messages-IsReading, current_run-IsReading}
use ryu_rooms.Store.Read.{
  assemble, collect, current_run, open_current, opened_message, opened_participant, or_blank,
  is_current, load_messages, load_participants, newer_message, newer_run, older_participant,
  open_messages, open_participants, open_run, open_run_or_blank, read_run, row_to_message,
  row_to_participant, row_to_run, snapshot, snapshot_from_connection, snapshot_of,
}

-- An action that always returns.
pub record Returns {ℓ} {A : Type ℓ} (m : Exec A) : Type ℓ where
  pub at : (s : RoomStore) → (a : A) × ((m s).0 ≡ ok a)

Returns-bind {ℓ κ} :
    {A : Type ℓ} {B : Type κ} (m : Exec A) (f : A → Exec B)
    → Returns m
    → ((a : A) → Returns (f a))
    → Returns (m >>= f)
Returns-bind m f h k = record {
  at = λ s.
      let (a, p) = h.at s in
      let (b, q) = (k a).at (m s).1 in (b, subst (λ r. (continue r f (m s).1).0 ≡ ok b) (sym p) q);
}

bind_total {ℓ κ} :
    {A : Type ℓ} {B : Type κ} (m : Exec A) (f : A → Exec B) (s : RoomStore) (a : A) (b : B)
    → (m s).0 ≡ ok a
    → (f a (m s).1).0 ≡ ok b
    → ((m >>= f) s).0 ≡ ok b
bind_total m f s a b p q = subst (λ r. (continue r f (m s).1).0 ≡ ok b) (sym p) q

module _ {ℓ κ} {R : Type ℓ} {B : Type κ} where
  collect-cons :
      (f : R → Option B) (r : R) (rs : List R) (b : B) (bs : List B)
      → f r ≡ some b
      → collect f rs ≡ ok bs
      → collect f (r ∷ rs) ≡ ok (b ∷ bs)
  unfolding collect
  collect-cons f r rs b bs e p = ground (arith, e, p)

  collect_total :
      (f : R → Option B) (rs : List R)
      → count_where (λ r. not (is_some (f r))) rs ≡ 0
      → (bs : List B) × (collect f rs ≡ ok bs)
  unfolding collect count_where
  collect_total f [] h = ([], refl)
  collect_total f (r ∷ rs) h = elim (Option-cases (f r)) [
    | inl e ↦ absurd (ground arith)
    | inr (b, e) ↦
        let (bs, p) = collect_total f rs (ground arith) in (b ∷ bs, collect-cons f r rs b bs e p)
  ]

-- Every status and every role in the database is one that the code writes.
pub record IsLegible (db : Db) : Type 0 where
  pub rooms : count_where (λ (r : RoomRow). not (is_some (parse_room_status r.status))) db.rooms ≡ 0
  pub messages : count_where (λ (r : MessageRow). not (is_some (row_to_message r))) db.messages ≡ 0
  pub runs : count_where (λ (r : RunRow). not (is_some (row_to_run r))) db.runs ≡ 0
  pub participants :
      count_where (λ (r : ParticipantRow). not (is_some (row_to_participant r))) db.participants ≡ 0

module _ (x : External) where
  opened_message-Returns :
      (m : RoomMessage) (r : Result StoreError String) → Returns (opened_message x m r)
  opened_message-Returns m (ok text) = record { at = λ s. (record m { text = text } ∷ [], refl) }
  opened_message-Returns m (err e) = record { at = λ s. ([], refl) }

  open_messages-Returns : (ms : List RoomMessage) → Returns (open_messages x ms)
  unfolding open_messages
  open_messages-Returns [] = record { at = λ s. ([], refl) }
  open_messages-Returns (m ∷ ms) =
      Returns-bind (opened_message x m (open_value x m.text (ctx "room_messages" "text" m.id))) _
        (opened_message-Returns m (open_value x m.text (ctx "room_messages" "text" m.id)))
        λ opened.
          Returns-bind (open_messages x ms) _ (open_messages-Returns ms)
            λ rest. record { at = λ s. (opened ++ rest, refl) }

  opened_participant-Returns :
      (p : RoomParticipantSummary) (r : Result StoreError String)
      → Returns (opened_participant x p r)
  opened_participant-Returns p (ok name) = record {
    at = λ s. (record p { display_name = name } ∷ [], refl);
  }
  opened_participant-Returns p (err e) = record { at = λ s. ([], refl) }

  open_participants-Returns : (ps : List RoomParticipantSummary) → Returns (open_participants x ps)
  unfolding open_participants
  open_participants-Returns [] = record { at = λ s. ([], refl) }
  open_participants-Returns (p ∷ ps) =
      Returns-bind
        (opened_participant x p
          (open_value x p.display_name (ctx "room_participants" "display_name" p.id)))
        _
        (opened_participant-Returns p
          (open_value x p.display_name (ctx "room_participants" "display_name" p.id)))
        λ opened.
          Returns-bind (open_participants x ps) _ (open_participants-Returns ps)
            λ rest. record { at = λ s. (opened ++ rest, refl) }

  or_blank-Returns : (run : RoomRun) (r : Result StoreError RoomRun) → Returns (or_blank x run r)
  or_blank-Returns run (ok opened) = record { at = λ s. (opened, refl) }
  or_blank-Returns run (err e) = record {
    at = λ s. (record run { partial_text = ""; error_message = none }, refl);
  }

  load_messages_total :
      (id : String) (s : RoomStore)
      → IsLegible s.db
      → (ms : List RoomMessage) × ((load_messages x id s).0 ≡ ok ms)
  unfolding load_messages
  load_messages_total id s l =
      let mine = select (λ (r : MessageRow). r.room_id == id) s.db.messages in
      let bad = λ (r : MessageRow). not (is_some (row_to_message r)) in
      let (rows, p) =
        collect_total row_to_message (first_by newer_message max_history_messages mine) (
          omega (
            arith,
            l.messages,
            count-first_by_le newer_message bad max_history_messages mine,
            count-select_le (λ (r : MessageRow). r.room_id == id) bad s.db.messages,
          )) in
      let (ms, q) = (open_messages-Returns (reverse rows)).at s in (ms, rw (p, q) refl)

  load_participants_total :
      (id : String) (s : RoomStore)
      → IsLegible s.db
      → (ps : List RoomParticipantSummary) × ((load_participants x id s).0 ≡ ok ps)
  unfolding load_participants
  load_participants_total id s l =
      let mine = select (λ (r : ParticipantRow). r.room_id == id) s.db.participants in
      let bad = λ (r : ParticipantRow). not (is_some (row_to_participant r)) in
      let (rows, p) = collect_total row_to_participant (sort_by older_participant mine) (
        omega (
          arith,
          l.participants,
          count-sort_by older_participant bad mine,
          count-select_le (λ (r : ParticipantRow). r.room_id == id) bad s.db.participants,
        )) in
      let (ps, q) = (open_participants-Returns rows).at s in (ps, rw (p, q) refl)

  read_run_total :
      (rows : List RunRow)
      → count_where (λ (r : RunRow). not (is_some (row_to_run r))) rows ≡ 0
      → (run : Option RoomRun) × (read_run x rows ≡ ok run)
  unfolding count_where
  read_run_total [] h = (none, refl)
  read_run_total (r ∷ rows) h = elim (Option-cases (row_to_run r)) [
    | inl e ↦ absurd (ground arith)
    | inr (run, e) ↦ (some run, ground (arith, e))
  ]

  open_current-Returns : (run : Option RoomRun) → Returns (open_current x run)
  unfolding open_run_or_blank
  open_current-Returns none = record { at = λ s. (none, refl) }
  open_current-Returns (some run) =
      Returns-bind (open_run_or_blank x run) _ (or_blank-Returns run (open_run x run))
        λ opened. record { at = λ s. (some opened, refl) }

  current_run_total :
      (id : String) (s : RoomStore)
      → IsLegible s.db
      → (run : Option RoomRun) × ((current_run x id s).0 ≡ ok run)
  unfolding current_run
  current_run_total id s l =
      let mine = select (is_current x id) s.db.runs in
      let bad = λ (r : RunRow). not (is_some (row_to_run r)) in
      let (row, p) = read_run_total (first_by newer_run 1 mine) (
        omega (
          arith,
          l.runs,
          count-first_by_le newer_run bad 1 mine,
          count-select_le (is_current x id) bad s.db.runs,
        )) in
      let (run, q) = (open_current-Returns row).at s in (run, rw (p, q) refl)

  assemble_total :
      (id : String) (room : RoomRow) (db : Db) (ms : List RoomMessage) (run : Option RoomRun)
      (ps : List RoomParticipantSummary) (s : RoomStore)
      → IsLegible db
      → find_where (λ (r : RoomRow). r.id == id) db.rooms ≡ some room
      → (snap : RoomSnapshot) × ((assemble x id room ms run ps s).0 ≡ ok (some snap))
  assemble_total id room db ms run ps s l f = elim (Option-cases (parse_room_status room.status)) [
    | inl e ↦ absurd (
        omega (
          arith,
          l.rooms,
          count_of_find (λ (r : RoomRow). r.id == id)
              (λ r. not (is_some (parse_room_status r.status))) db.rooms room f (ground arith),
          count_mono (λ (r : RoomRow). r.id == id && not (is_some (parse_room_status r.status)))
              (λ r. not (is_some (parse_room_status r.status))) db.rooms (λ r e. ground arith),
        ))
    | inr (status, e) ↦ (
      record {
        contract = contract;
        schema_version = 1;
        id = id;
        status = status;
        model_id = room.model_id;
        engine = engine;
        messages = ms;
        current_run = run;
        participants = ps;
        updated_at = room.updated_at;
      },
      rw e refl,
    )
  ]

  snapshot_of_total :
      (id : String) (room : RoomRow) (s : RoomStore)
      → IsLegible s.db
      → find_where (λ (r : RoomRow). r.id == id) s.db.rooms ≡ some room
      → (snap : RoomSnapshot) × ((snapshot_of x id (some room) s).0 ≡ ok (some snap))
  snapshot_of_total id room s l f =
      let t = (load_messages x id s).1 in
      let lt = subst IsLegible (sym ((load_messages-IsReading x id).same s)) l in
      let u = (current_run x id t).1 in
      let lu = subst IsLegible (sym ((current_run-IsReading x id).same t)) lt in
      let (ms, p) = load_messages_total id s l in
      let (run, q) = current_run_total id t lt in
      let (ps, r) = load_participants_total id u lu in
      let (snap, a) = assemble_total id room s.db ms run ps (load_participants x id u).1 l f in
      (
        snap,
        bind_total (load_messages x id) _ s ms (some snap) p (
            bind_total (current_run x id) _ t run (some snap) q (
              bind_total (load_participants x id) (assemble x id room ms run) u ps (some snap) r
                a)),
      )

  -- While the statuses and roles of the database are ones that the code writes, a snapshot of a room
  -- that exists is returned, whatever the sealing does: a message, a name or a run that does not open
  -- never hides the room.
  pub snapshot_total :
      (given id : String) (room : RoomRow) (s : RoomStore)
      → IsLegible s.db
      → validate_room_id given ≡ ok id
      → find_where (λ (r : RoomRow). r.id == id) s.db.rooms ≡ some room
      → (snap : RoomSnapshot) × ((snapshot x given s).0 ≡ ok (some snap))
  unfolding snapshot snapshot_from_connection
  snapshot_total given id room s l v f =
      let (snap, p) = snapshot_of_total id room s l f in (snap, rw (v, f) p)
