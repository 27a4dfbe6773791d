-- ===== src/Store/Consistent/Turns.antt =====
-- The invariant through the transaction of `append_user_turn` of backend/src/store.rs.
use ryu_rooms.Prelude.{
  ◌≤◌, String, ◌≡◌, refl, subst, inl, inr, true, false, ◌&&◌, ◌==◌, arith, Bool-cases, eq_iff,
  Option, some, List,
}
use ryu_rooms.Result.{Result}
use ryu_rooms.Table.{count_where, update_where, find_where}
use ryu_rooms.Table.Counts.{
  count-snoc, count-update, count-update_clears, count_one_le, count_of_find, count_mono,
}
use ryu_rooms.Table.Unique.{unique-snoc}
use ryu_rooms.Store.{StoreError, RoomRow, RunRow, RoomStore, External, Draw}
use ryu_rooms.Store.Turns.{holds, accept_turn}
use ryu_rooms.Store.Turns.Effect.{Started, IsOpen, started, new_run, new_message, accept_turn_cases}
use ryu_rooms.Store.Consistent.{IsConsistent, is_free}
use ryu_rooms.Store.Consistent.Rows.{room_ids-update}

room_exists :
    (rooms : List RoomRow) (k : String) (room : RoomRow)
    → find_where (λ (r : RoomRow). r.id == k) rooms ≡ some room
    → 1 ≤ count_where (λ (r : RoomRow). r.id == k) rooms
room_exists rooms k room h = omega (
  arith,
  count_of_find (λ r. r.id == k) (λ r. true) rooms room h refl,
  count_mono (λ r. (r.id == k) && true) (λ r. r.id == k) rooms (λ r e. ground arith),
)

-- Marking a room as running: no row of that id stays free, and other rooms keep their rows.
free-mark :
    (rooms : List RoomRow) (room_id now : String)
    → count_where (is_free room_id) (
        update_where
          (λ r. r.id == room_id)
          (λ r. record r { status = "running"; updated_at = now })
          rooms)
      ≡ 0
free-mark rooms room_id now =
    count-update_clears (λ r. r.id == room_id) (is_free room_id) _ rooms (λ r e. ground arith)
      (λ r e. ground arith)

free-mark_other :
    (rooms : List RoomRow) (room_id now k : String)
    → (room_id == k) ≡ false
    → count_where (is_free k) (
        update_where
          (λ r. r.id == room_id)
          (λ r. record r { status = "running"; updated_at = now })
          rooms)
      ≡ count_where (is_free k) rooms
free-mark_other rooms room_id now k h =
    count-update (λ r. r.id == room_id) (is_free k) _ rooms
      (λ r e. ground (arith, eq_iff r.id room_id, eq_iff r.id k, eq_iff room_id k))

module _ (x : External) (d : Draw) (room_id participant_id : String) (key : Option String)
    (text : String) where
  started-IsConsistent :
      (s : RoomStore) (r : Result StoreError (String × Option String) × RoomStore)
      → IsConsistent s.db
      → IsOpen x d room_id participant_id key text s
      → (st : Started x d room_id participant_id key text s r)
      → IsConsistent (started x d room_id participant_id key text st.sealed s.db)
  started-IsConsistent s r c o st = record {
    one_room = λ k.
        rw
          (room_ids-update (λ r. r.id == room_id)
            (λ r. record r { status = "running"; updated_at = x.to_rfc3339 (d.now 0) }) s.db.rooms k
            (λ r. refl))
          (c.one_room k);
    owned = λ k. elim (Bool-cases (room_id == k)) [
      | inl e ↦ inr (
          rw
            (room_ids-update (λ r. r.id == room_id)
              (λ r. record r { status = "running"; updated_at = x.to_rfc3339 (d.now 0) }) s.db.rooms
              k (λ r. refl))
            (subst (λ j. 1 ≤ count_where (λ (r : RoomRow). r.id == j) s.db.rooms)
              ((eq_iff room_id k).0 e) (room_exists s.db.rooms room_id o.room o.found)))
      | inr e ↦ ground (
        arith,
        count-snoc (λ (r : RunRow). r.room_id == k) s.db.runs
            (new_run x d room_id participant_id key text st.sealed),
        room_ids-update (λ r. r.id == room_id)
            (λ r. record r { status = "running"; updated_at = x.to_rfc3339 (d.now 0) }) s.db.rooms k
            (λ r. refl),
        c.owned k,
      )
    ];
    one_run = λ k.
        unique-snoc (λ q. q.id) s.db.runs (new_run x d room_id participant_id key text st.sealed) k
          (c.one_run k) st.new_id;
    one_message = λ k.
        unique-snoc (λ q. q.id) s.db.messages
          (new_message x d room_id participant_id key text st.sealed) k (c.one_message k)
          st.new_message_id;
    one_active = λ k. elim (Bool-cases (room_id == k)) [
      | inl e ↦ omega (
        arith,
        count-snoc (holds k) s.db.runs (new_run x d room_id participant_id key text st.sealed),
        subst (λ j. count_where (holds j) s.db.runs ≡ 0) ((eq_iff room_id k).0 e) st.idle,
        count_one_le (holds k (new_run x d room_id participant_id key text st.sealed)),
      )
      | inr e ↦ ground (
        arith,
        count-snoc (holds k) s.db.runs (new_run x d room_id participant_id key text st.sealed),
        c.one_active k,
      )
    ];
    held = λ k. elim (Bool-cases (room_id == k)) [
      | inl e ↦ inr (
          subst
            (λ j.
              count_where (is_free j)
                (started x d room_id participant_id key text st.sealed s.db).rooms
              ≡ 0)
            ((eq_iff room_id k).0 e) (free-mark s.db.rooms room_id (x.to_rfc3339 (d.now 0))))
      | inr e ↦ ground (
        arith,
        count-snoc (holds k) s.db.runs (new_run x d room_id participant_id key text st.sealed),
        free-mark_other s.db.rooms room_id (x.to_rfc3339 (d.now 0)) k e,
        c.held k,
      )
    ];
  }

  -- Whatever `accept_turn` returns, it keeps the invariant.
  pub accept_turn-IsConsistent :
      (s : RoomStore)
      → IsConsistent s.db
      → IsConsistent (accept_turn x d room_id participant_id key text s).1.db
  accept_turn-IsConsistent s c = elim (accept_turn_cases x d room_id participant_id key text s) [
    | inl (e, p) ↦ rw p c
    | inr (o, inl known) ↦ rw known.result c
    | inr (o, inr (_, st)) ↦ rw st.result (started-IsConsistent s _ c o st)
  ]
