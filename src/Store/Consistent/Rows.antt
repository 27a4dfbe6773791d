-- ===== src/Store/Consistent/Rows.antt =====
-- Updates of rooms and runs as the invariant sees them.
use ryu_rooms.Prelude.{◌≤◌, String, ◌≡◌, ◌⊎◌, Bool, true, false, ◌==◌, arith, List}
use ryu_rooms.Table.{count_where, update_where}
use ryu_rooms.Table.Counts.{count-update, count-update_mono}
use ryu_rooms.Model.{is_active}
use ryu_rooms.Store.{RoomRow, MessageRow, RunRow, Db}
use ryu_rooms.Store.Turns.{holds}
use ryu_rooms.Store.Consistent.{IsConsistent, is_free}

-- An update that keeps the ids of rooms.
pub room_ids-update :
    (p : RoomRow → Bool) (f : RoomRow → RoomRow) (rooms : List RoomRow) (k : String)
    → ((r : RoomRow) → (f r).id ≡ r.id)
    → count_where (λ (r : RoomRow). r.id == k) (update_where p f rooms)
      ≡ count_where (λ (r : RoomRow). r.id == k) rooms
room_ids-update p f rooms k h = count-update p (λ r. r.id == k) f rooms (λ r e. ground (arith, h r))

-- Updates of runs that keep their ids and rooms, and end the runs that they touch.
module _ (p : RunRow → Bool) (f : RunRow → RunRow) (runs : List RunRow) (k : String) where
  pub run_ids-update :
      ((r : RunRow) → (f r).id ≡ r.id)
      → count_where (λ (r : RunRow). r.id == k) (update_where p f runs)
        ≡ count_where (λ (r : RunRow). r.id == k) runs
  run_ids-update h = count-update p (λ r. r.id == k) f runs (λ r e. ground (arith, h r))

  pub run_rooms-update :
      ((r : RunRow) → (f r).room_id ≡ r.room_id)
      → count_where (λ (r : RunRow). r.room_id == k) (update_where p f runs)
        ≡ count_where (λ (r : RunRow). r.room_id == k) runs
  run_rooms-update h = count-update p (λ r. r.room_id == k) f runs (λ r e. ground (arith, h r))

  pub active-update :
      ((r : RunRow) → p r ≡ true → is_active (f r).status ≡ false)
      → count_where (holds k) (update_where p f runs) ≤ count_where (holds k) runs
  active-update h =
      count-update_mono p (holds k) (holds k) f runs (λ r e q. absurd (ground (arith, h r e)))
        (λ r e q. q)

-- What a change of the database has to show to keep the invariant, when its runs come from old ones.
pub record IsShrunk (a b : Db) : Type 0 where
  pub rooms :
      (k : String)
      → count_where (λ (r : RoomRow). r.id == k) b.rooms
        ≡ count_where (λ (r : RoomRow). r.id == k) a.rooms
  pub run_ids :
      (k : String)
      → count_where (λ (r : RunRow). r.id == k) b.runs
        ≤ count_where (λ (r : RunRow). r.id == k) a.runs
  pub run_rooms :
      (k : String)
      → count_where (λ (r : RunRow). r.room_id == k) b.runs
        ≤ count_where (λ (r : RunRow). r.room_id == k) a.runs
  pub active : (k : String) → count_where (holds k) b.runs ≤ count_where (holds k) a.runs
  pub free :
      (k : String)
      → (count_where (holds k) b.runs ≡ 0)
        ⊎ (count_where (is_free k) b.rooms ≤ count_where (is_free k) a.rooms)

pub IsShrunk-IsConsistent :
    (a b : Db)
    → ((k : String) → count_where (λ (r : MessageRow). r.id == k) b.messages ≤ 1)
    → IsShrunk a b
    → IsConsistent a
    → IsConsistent b
IsShrunk-IsConsistent a b m s c = record {
  one_room = λ k. omega (arith, s.rooms k, c.one_room k);
  one_run = λ k. omega (arith, s.run_ids k, c.one_run k);
  one_message = m;
  one_active = λ k. omega (arith, s.active k, c.one_active k);
  owned = λ k. ground (arith, s.rooms k, s.run_rooms k, c.owned k);
  held = λ k. ground (arith, s.active k, s.free k, c.held k);
}
