-- ===== src/Model.antt =====
-- backend/src/model.rs: the data of a room, and the texts of its enumerations in the database
-- (the parse functions and `run_status_text` of backend/src/store.rs).
use ryu_rooms.Prelude.{
  ℕ, String, ◌≡◌, ◌↔◌, refl, Bool, ◌||◌, List, Option, none, some, arith, if◌then◌else◌, ◌==◌,
  eq_iff,
}

pub data RoomStatus : Type 0 where
  idle running failed closed : RoomStatus

pub data RunStatus : Type 0 where
  queued running completed failed canceled : RunStatus

pub data MessageRole : Type 0 where
  user assistant : MessageRole

pub data ParticipantRole : Type 0 where
  host guest viewer : ParticipantRole

pub record RoomMessage : Type 0 where
  pub id : String
  pub role : MessageRole
  pub text : String
  pub participant_id : Option String
  pub created_at : String

pub record RoomRun : Type 0 where
  pub run_id : String
  pub request_id : String
  pub idempotency_key : Option String
  pub status : RunStatus
  pub partial_text : String
  pub error_code : Option String
  pub error_message : Option String
  pub started_at : Option String
  pub finished_at : Option String

pub record RoomParticipantSummary : Type 0 where
  pub id : String
  pub display_name : String
  pub role : ParticipantRole
  pub online : Bool

pub record RoomSnapshot : Type 0 where
  pub contract : String
  pub schema_version : ℕ
  pub id : String
  pub status : RoomStatus
  pub model_id : String
  pub engine : String
  pub messages : List RoomMessage
  pub current_run : Option RoomRun
  pub participants : List RoomParticipantSummary
  pub updated_at : String

pub record RoomSession : Type 0 where
  pub room_id : String
  pub participant_id : String
  pub role : ParticipantRole
  pub display_name : String
  pub secret : String

unfoldable pub parse_room_status : String → Option RoomStatus
parse_room_status value =
    if value == "idle"
    then some RoomStatus.idle
    else if value == "running"
    then some RoomStatus.running
    else if value == "failed"
    then some RoomStatus.failed
    else if value == "closed"
    then some RoomStatus.closed
    else none

unfoldable pub parse_run_status : String → Option RunStatus
parse_run_status value =
    if value == "queued"
    then some RunStatus.queued
    else if value == "running"
    then some RunStatus.running
    else if value == "completed"
    then some RunStatus.completed
    else if value == "failed"
    then some RunStatus.failed
    else if value == "canceled"
    then some RunStatus.canceled
    else none

abbrev pub run_status_text : RunStatus → String
run_status_text RunStatus.queued = "queued"
run_status_text RunStatus.running = "running"
run_status_text RunStatus.completed = "completed"
run_status_text RunStatus.failed = "failed"
run_status_text RunStatus.canceled = "canceled"

unfoldable pub parse_message_role : String → Option MessageRole
parse_message_role value =
    if value == "user"
    then some MessageRole.user
    else if value == "assistant"
    then some MessageRole.assistant
    else none

unfoldable pub parse_participant_role : String → Option ParticipantRole
parse_participant_role value =
    if value == "host"
    then some ParticipantRole.host
    else if value == "guest"
    then some ParticipantRole.guest
    else if value == "viewer"
    then some ParticipantRole.viewer
    else none

-- A run that still holds its room: the statuses that the queries of the store list together.
abbrev pub is_active : String → Bool
is_active status = status == "queued" || status == "running"

parse-run_status_text :
    (status : RunStatus) → parse_run_status (run_status_text status) ≡ some status
unfolding parse_run_status
parse-run_status_text RunStatus.queued = refl
parse-run_status_text RunStatus.running = refl
parse-run_status_text RunStatus.completed = refl
parse-run_status_text RunStatus.failed = refl
parse-run_status_text RunStatus.canceled = refl

-- `parse_run_status` gives a status exactly for the text that `run_status_text` writes for it.
pub parse_run_status_iff :
    (text : String) (status : RunStatus)
    → (parse_run_status text ≡ some status) ↔ (text ≡ run_status_text status)
unfolding parse_run_status
parse_run_status_iff text status = (
  λ h. ground (
    arith,
    eq_iff text "queued",
    eq_iff text "running",
    eq_iff text "completed",
    eq_iff text "failed",
    eq_iff text "canceled",
  ),
  λ h. rw h (parse-run_status_text status),
)
