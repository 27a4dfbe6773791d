-- ===== src/Store.antt =====
-- backend/src/store.rs: the tables of rooms.db, the errors, and the actions on an open store.
-- An action returns the store beside its result, on an error too: a statement that ran outside a
-- transaction stays. The constraints that `initialize` declares (keys, unique pairs, references)
-- are the tests of the insertions.
pub mod Ids
pub mod Read
pub mod Rooms
pub mod Invites
pub mod Turns
pub mod Runs
pub mod Closing
pub mod Consistent
pub mod Keeps
pub mod Lifecycle
use ryu_rooms.Prelude.{
  ℕ, ◌+◌, String, Bool, true, false, ◌&&◌, ◌||◌, not, Option, none, some, List, [], ◌∷◌, ◌++◌, eqb,
  same_key, if◌then◌else◌, ◌==◌,
}
use ryu_rooms.Result.{Result, ok, err}
use ryu_rooms.Table.{any_where, count_where, delete_where, find_where, select, update_where}
use ryu_rooms.Limits.{Url}
use ryu_rooms.Seal.{ContentContext, Sealing}

pub record RoomRow : Type 0 where
  pub id : String
  pub schema_version : ℕ
  pub contract : String
  pub status : String
  pub model_id : String
  pub engine : String
  pub share_origin : String
  pub created_at : String
  pub updated_at : String

pub record MessageRow : Type 0 where
  pub id : String
  pub room_id : String
  pub role : String
  pub text : String
  pub participant_id : Option String
  pub created_at : String

pub record RunRow : Type 0 where
  pub id : String
  pub room_id : String
  pub request_id : String
  pub idempotency_key : Option String
  pub input_text : String
  pub status : String
  pub partial_text : String
  pub error_code : Option String
  pub error_message : Option String
  pub started_at : Option String
  pub finished_at : Option String
  pub created_at : String

pub record InviteRow : Type 0 where
  pub room_id : String
  pub digest : List ℕ
  pub expires_at : String
  pub revoked_at : Option String

pub record ParticipantRow : Type 0 where
  pub id : String
  pub room_id : String
  pub display_name : String
  pub role : String
  pub online : ℕ
  pub created_at : String
  pub last_seen_at : String

pub record SessionRow : Type 0 where
  pub digest : List ℕ
  pub room_id : String
  pub participant_id : String
  pub role : String
  pub expires_at : String
  pub revoked_at : Option String

pub record Db : Type 0 where
  pub rooms : List RoomRow
  pub messages : List MessageRow
  pub runs : List RunRow
  pub invites : List InviteRow
  pub participants : List ParticipantRow
  pub sessions : List SessionRow

-- `initialize` on a new file.
abbrev pub empty : Db
empty = record {
  rooms = [];
  messages = [];
  runs = [];
  invites = [];
  participants = [];
  sessions = [];
}

pub data StoreError : Type 0 where
  invalid seal : String → StoreError
  database not_found room_busy closed forbidden invite_unavailable conflict lock : StoreError

unfoldable pub code : StoreError → String
code database = "storeUnavailable"
code lock = "storeUnavailable"
code (seal _) = "storeUnavailable"
code (invalid _) = "invalidArgs"
code not_found = "roomNotFound"
code room_busy = "roomBusy"
code closed = "roomClosed"
code forbidden = "forbidden"
code invite_unavailable = "inviteUnavailable"
code conflict = "conflict"

-- An open store: the database and the counter of rows that did not open.
pub record RoomStore : Type 0 where
  pub db : Db
  pub unreadable : ℕ

-- What the store takes from its dependencies: SHA-256, the RFC 3339 form of a time, which chrono
-- prints and parses, and the sealing of texts. A time is a number of nanoseconds.
pub record External : Type 0 where
  pub sha256 : String → List ℕ
  pub to_rfc3339 : ℕ → String
  pub parse_from_rfc3339 : String → Option ℕ
  pub parse_url : String → Option Url
  pub sealing : Sealing

-- What one call draws: the successive readings of the clock, `Uuid::new_v4().simple()`, and nonces.
pub record Draw : Type 0 where
  pub now : ℕ → ℕ
  pub uuid : ℕ → String
  pub nonce : ℕ → ℕ

-- `ct_eq` of the `subtle` crate on two digests.
unfoldable pub ct_eq : List ℕ → List ℕ → Bool
ct_eq [] [] = true
ct_eq (a ∷ s) (b ∷ t) = eqb a b && ct_eq s t
ct_eq _ _ = false

abbrev pub Exec {ℓ} : Type ℓ → Type ℓ
Exec A = RoomStore → Result StoreError A × RoomStore

abbrev pub continue {ℓ κ} :
    {A : Type ℓ} {B : Type κ}
    → Result StoreError A
    → (A → Exec B)
    → RoomStore
    → Result StoreError B × RoomStore
continue (ok a) f s = f a s
continue (err e) f s = (err e, s)

infixl 5 ◌>>=◌ ◌>>◌
abbrev pub ◌>>=◌ {ℓ κ} : {A : Type ℓ} {B : Type κ} → Exec A → (A → Exec B) → Exec B
◌>>=◌ m f s = let (r, s') = m s in continue r f s'

abbrev pub ◌>>◌ {ℓ} : {B : Type ℓ} → Exec (Unit {0}) → Exec B → Exec B
m >> k = m >>= λ _. k

abbrev pub pure {ℓ} : {A : Type ℓ} → A → Exec A
pure a s = (ok a, s)

abbrev pub raise {ℓ} : {A : Type ℓ} → StoreError → Exec A
raise e s = (err e, s)

abbrev pub lift {ℓ} : {A : Type ℓ} → Result StoreError A → Exec A
lift r s = (r, s)

abbrev pub reject_if : Bool → StoreError → Exec (Unit {0})
reject_if true e s = (err e, s)
reject_if false e s = (ok tt, s)

abbrev pub or_raise {ℓ} : {A : Type ℓ} → Option A → StoreError → Exec A
or_raise none e s = (err e, s)
or_raise (some a) e s = (ok a, s)

-- A query, and a statement that writes.
abbrev pub query {ℓ} : {A : Type ℓ} → (Db → A) → Exec A
query f s = (ok (f s.db), s)

abbrev pub execute : (Db → Db) → Exec (Unit {0})
execute f s = (ok tt, record s { db = f s.db })

-- An insertion fails on a constraint.
abbrev pub insert : (Db → Bool) → (Db → Db) → Exec (Unit {0})
insert violates f s = if violates s.db then (err database, s) else (ok tt, record s { db = f s.db })

abbrev roll_back {ℓ} :
    {A : Type ℓ} → Db → Result StoreError A × RoomStore → Result StoreError A × RoomStore
roll_back db (ok a, s) = (ok a, s)
roll_back db (err e, s) = (err e, record s { db = db })

-- A transaction: an early return drops it uncommitted.
abbrev pub transaction {ℓ} : {A : Type ℓ} → Exec A → Exec A
transaction m s = roll_back s.db (m s)

abbrev pub has_room : String → Db → Bool
has_room id db = any_where (λ (r : RoomRow). r.id == id) db.rooms

unfoldable pub insert_room : RoomRow → Exec (Unit {0})
unfolding any_where
insert_room row =
    insert (λ db. has_room row.id db) (λ db. record db { rooms = db.rooms ++ row ∷ [] })

unfoldable pub insert_message : MessageRow → Exec (Unit {0})
unfolding any_where
insert_message row =
    insert
      (λ db.
        any_where (λ (r : MessageRow). r.id == row.id) db.messages || not (has_room row.room_id db))
      (λ db. record db { messages = db.messages ++ row ∷ [] })

-- `UNIQUE(room_id, idempotency_key)`: a missing key is distinct from every other.
abbrev pub same_turn : RunRow → RunRow → Bool
same_turn row r = elim row.idempotency_key [
  | none ↦ false
  | some key ↦ r.room_id == row.room_id && same_key r.idempotency_key key
]

unfoldable pub insert_run : RunRow → Exec (Unit {0})
unfolding any_where
insert_run row =
    insert
      (λ db.
        any_where (λ (r : RunRow). r.id == row.id) db.runs
        || any_where (same_turn row) db.runs
        || not (has_room row.room_id db))
      (λ db. record db { runs = db.runs ++ row ∷ [] })

unfoldable pub insert_invite : InviteRow → Exec (Unit {0})
unfolding any_where
insert_invite row =
    insert
      (λ db.
        any_where (λ (r : InviteRow). r.room_id == row.room_id) db.invites
        || not (has_room row.room_id db))
      (λ db. record db { invites = db.invites ++ row ∷ [] })

unfoldable pub insert_participant : ParticipantRow → Exec (Unit {0})
unfolding any_where
insert_participant row =
    insert
      (λ db.
        any_where (λ (r : ParticipantRow). r.id == row.id) db.participants
        || not (has_room row.room_id db))
      (λ db. record db { participants = db.participants ++ row ∷ [] })

unfoldable pub insert_session : SessionRow → Exec (Unit {0})
unfolding any_where ct_eq
insert_session row =
    insert
      (λ db.
        any_where (λ (r : SessionRow). ct_eq r.digest row.digest) db.sessions
        || not (has_room row.room_id db)
        || not (any_where (λ (p : ParticipantRow). p.id == row.participant_id) db.participants))
      (λ db. record db { sessions = db.sessions ++ row ∷ [] })

-- `UPDATE … WHERE p`, which returns how many rows it changed.
abbrev pub update_rooms : (RoomRow → Bool) → (RoomRow → RoomRow) → Exec ℕ
update_rooms p f s = (
  ok (count_where p s.db.rooms),
  record s { db = record s.db { rooms = update_where p f s.db.rooms } },
)

abbrev pub update_runs : (RunRow → Bool) → (RunRow → RunRow) → Exec ℕ
update_runs p f s = (
  ok (count_where p s.db.runs),
  record s { db = record s.db { runs = update_where p f s.db.runs } },
)

abbrev pub update_invites : (InviteRow → Bool) → (InviteRow → InviteRow) → Exec ℕ
update_invites p f s = (
  ok (count_where p s.db.invites),
  record s { db = record s.db { invites = update_where p f s.db.invites } },
)

abbrev pub update_participants :
    (ParticipantRow → Bool) → (ParticipantRow → ParticipantRow) → Exec ℕ
update_participants p f s = (
  ok (count_where p s.db.participants),
  record s { db = record s.db { participants = update_where p f s.db.participants } },
)

abbrev pub update_sessions : (SessionRow → Bool) → (SessionRow → SessionRow) → Exec ℕ
update_sessions p f s = (
  ok (count_where p s.db.sessions),
  record s { db = record s.db { sessions = update_where p f s.db.sessions } },
)

-- Deleting participants deletes their sessions (`ON DELETE CASCADE`).
abbrev pub without_participants : (ParticipantRow → Bool) → Db → Db
without_participants p db = record db {
  participants = delete_where p db.participants;
  sessions =
      delete_where
        (λ (s : SessionRow).
          any_where (λ (q : ParticipantRow). p q && q.id == s.participant_id) db.participants)
        db.sessions;
}

abbrev pub delete_participants : (ParticipantRow → Bool) → Exec (Unit {0})
delete_participants p = execute (without_participants p)
