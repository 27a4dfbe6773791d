-- ===== src/Store/Consistent.antt =====
-- The invariant of rooms.db (backend/src/store.rs) on runs and rooms.
pub mod Rows
pub mod Turns
pub mod Runs
pub mod Endings
pub mod Recovery
pub mod Restart
pub mod Rooms
use ryu_rooms.Prelude.{ℕ, ◌≤◌, String, ◌≡◌, ◌⊎◌, inl, inr, Bool, ◌&&◌, ◌||◌, not, ◌==◌, arith}
use ryu_rooms.Table.{count_where}
use ryu_rooms.Store.{RoomRow, MessageRow, RunRow, Db, empty}
use ryu_rooms.Store.Turns.{holds}

-- A room under the id that is neither running nor closed.
abbrev pub is_free : String → RoomRow → Bool
is_free room_id r = r.id == room_id && not (r.status == "running" || r.status == "closed")

pub record IsConsistent (db : Db) : Type 0 where
  pub one_room : (k : String) → count_where (λ (r : RoomRow). r.id == k) db.rooms ≤ 1
  pub one_run : (k : String) → count_where (λ (r : RunRow). r.id == k) db.runs ≤ 1
  pub one_message : (k : String) → count_where (λ (r : MessageRow). r.id == k) db.messages ≤ 1
  pub one_active : (room_id : String) → count_where (holds room_id) db.runs ≤ 1
  pub owned :
      (k : String)
      → (count_where (λ (r : RunRow). r.room_id == k) db.runs ≡ 0)
        ⊎ (1 ≤ count_where (λ (r : RoomRow). r.id == k) db.rooms)
  pub held :
      (room_id : String)
      → (count_where (holds room_id) db.runs ≡ 0) ⊎ (count_where (is_free room_id) db.rooms ≡ 0)

pub IsConsistent-empty : IsConsistent empty
unfolding count_where
IsConsistent-empty = record {
  one_room = λ k. omega arith;
  one_run = λ k. omega arith;
  owned = λ k. inl (omega arith);
  one_message = λ k. omega arith;
  one_active = λ k. omega arith;
  held = λ k. inl (omega arith);
}
