-- ===== src/Sequences.antt =====
-- packages/automation/src/sequences.ts: the data of sequences. Times are milliseconds since the
-- epoch, durations seconds, identifiers texts.
pub mod Values
pub mod Texts
pub mod Topology
pub mod Engine
pub mod Execute
pub mod SendKeys
pub mod Reconciliation
pub mod Settlement
pub mod Resolution
pub mod Tick
pub mod Accounts
pub mod Progress
pub mod Retry
pub mod Release
pub mod Repository
mod Tests
mod ResolutionTests
mod TickTests
mod KeyTests
use listmonk_ops.Prelude.{
  ℕ, suc, ◌+◌, String, Option, none, some, Bool, true, false, Result, ok, err, if◌then◌else◌, List,
  [], ◌∷◌, same, leb, ltb, ◌&&◌,
}
use Values.{Json, Fields, text_count}

pub data ConditionOperator : Type 0 where
  equals not_equals exists : ConditionOperator

-- The fields of a send step that the executor hands on.
pub record SendStep : Type 0 where
  pub id : String
  pub template_id : ℕ
  pub from_email : Option String
  pub step_data : Fields
  pub content_type : Option String
  pub messenger : Option String
  pub subject : Option String
  pub alt_body : Option String

pub record ConditionStep : Type 0 where
  pub id : String
  pub path : List String
  pub operator : ConditionOperator
  pub value : Option Json
  pub on_true : String
  pub on_false : String

pub data SequenceStep : Type 0 where
  send : SendStep → SequenceStep
  wait : (id : String) (duration_seconds : ℕ) → SequenceStep
  wait_until : (id : String) (at : ℕ) → SequenceStep
  condition : ConditionStep → SequenceStep
  stop : (id : String) → SequenceStep

abbrev pub step_id : SequenceStep → String
step_id (send s) = s.id
step_id (wait id n) = id
step_id (wait_until id at) = id
step_id (condition c) = c.id
step_id (stop id) = id

pub data SequenceDefinitionStatus : Type 0 where
  active paused_definition : SequenceDefinitionStatus

pub data SequenceEnrollmentStatus : Type 0 where
  pending running waiting paused completed failed ambiguous cancelled : SequenceEnrollmentStatus

pub record SequenceRevision : Type 0 where
  pub revision : ℕ
  pub steps : List SequenceStep
  pub created_at : ℕ

pub record SequenceDefinition : Type 0 where
  pub id : String
  pub name : String
  pub description : Option String
  pub status : SequenceDefinitionStatus
  pub current_revision : ℕ
  pub revisions : List SequenceRevision
  pub created_at : ℕ
  pub updated_at : ℕ

pub record SequenceEnrollment : Type 0 where
  pub id : String
  pub sequence_id : String
  pub revision : ℕ
  pub subscriber_id : ℕ
  pub context : Fields
  pub status : SequenceEnrollmentStatus
  pub retry_count : ℕ
  pub current_step_id : String
  pub next_run_at : ℕ
  pub lease_token : Option String
  pub lease_expires_at : Option ℕ
  pub last_error : Option String
  pub last_transition_at : ℕ
  pub created_at : ℕ
  pub updated_at : ℕ

pub record SequenceStore : Type 0 where
  pub definitions : List SequenceDefinition
  pub enrollments : List SequenceEnrollment

pub record ClaimedSequenceEnrollment : Type 0 where
  pub enrollment : SequenceEnrollment
  pub definition : SequenceDefinition
  pub revision : SequenceRevision

pub data SequenceError : Type 0 where
  definition_not_found enrollment_not_found : SequenceError
  conflict : SequenceError
  schema : SequenceError

abbrev pub max_last_error : ℕ
max_last_error = 1_000

abbrev pub error_fits : Option String → Bool
error_fits none = true
error_fits (some e) = leb (text_count e) max_last_error

-- `enrollmentSchema` as far as it restricts typed values: positive numbers, a bounded error text.
unfoldable pub parse_sequence_enrollment :
    SequenceEnrollment → Result SequenceError SequenceEnrollment
parse_sequence_enrollment e =
    if ltb 0 e.revision && ltb 0 e.subscriber_id && error_fits e.last_error
    then ok e
    else err schema

abbrev pub enrollment_is_terminal : SequenceEnrollmentStatus → Bool
enrollment_is_terminal completed = true
enrollment_is_terminal failed = true
enrollment_is_terminal cancelled = true
enrollment_is_terminal _ = false

-- `["pending", "running", "waiting"].includes(status)`.
abbrev pub is_runnable : SequenceEnrollmentStatus → Bool
is_runnable pending = true
is_runnable running = true
is_runnable waiting = true
is_runnable _ = false

abbrev pub is_active : SequenceDefinitionStatus → Bool
is_active active = true
is_active paused_definition = false
