-- ===== src/Domain/Types.antt =====
-- src/domain/types.ts, task.ts, job-definition.ts and tenant.ts: the enumerations, and the records
-- of a job definition.
use jobflow_project.Common.{Bool, List, Map, Option, Text, arith, true, ℕ, ◌==◌, ◌↔◌, ◌≡◌}

pub data WorkflowState : Type 0 where
  draft pending running waiting completed failed cancelled dead_lettered : WorkflowState

pub data TaskStatus : Type 0 where
  queued running succeeded failed skipped retrying : TaskStatus

pub data FailureReason : Type 0 where
  validation timeout handler_error transition_denied constraint_violation : FailureReason
  max_retries_exceeded : FailureReason

state_code : WorkflowState → ℕ
state_code draft = 0
state_code pending = 1
state_code running = 2
state_code waiting = 3
state_code completed = 4
state_code failed = 5
state_code cancelled = 6
state_code dead_lettered = 7

status_code : TaskStatus → ℕ
status_code queued = 0
status_code running = 1
status_code succeeded = 2
status_code failed = 3
status_code skipped = 4
status_code retrying = 5

-- `===` on the members of the two enumerations.
unfoldable pub state_eq : WorkflowState → WorkflowState → Bool
unfolding state_code
state_eq a b = state_code a == state_code b

unfoldable pub status_eq : TaskStatus → TaskStatus → Bool
unfolding status_code
status_eq a b = status_code a == status_code b

pub state_eq_iff : (a b : WorkflowState) → (state_eq a b ≡ true) ↔ (a ≡ b)
unfolding state_eq
state_eq_iff a b = ground arith

pub status_eq_iff : (a b : TaskStatus) → (status_eq a b ≡ true) ↔ (a ≡ b)
unfolding status_eq
status_eq_iff a b = ground arith

-- A double of the platform, by its 64 bits.
pub record Double : Type 0 where
  pub bits : ℕ

pub record RetryPolicy : Type 0 where
  pub max_attempts : ℕ
  pub initial_delay_ms : ℕ
  pub backoff_multiplier : Double
  pub max_delay_ms : ℕ

pub record TransitionRule : Type 0 where
  pub from : WorkflowState
  pub to : WorkflowState
  pub event : Text
  pub guard : Option Text

pub record TaskDefinition : Type 0 where
  pub id : Text
  pub name : Text
  pub handler : Text
  pub timeout_ms : ℕ
  pub optional : Option Bool
  pub depends_on : Option (List Text)

pub data Severity : Type 0 where
  warn block : Severity

pub record JobConstraint : Type 0 where
  pub id : Text
  pub expression : Text
  pub severity : Severity

pub record JobDefinition : Type 0 where
  pub id : Text
  pub name : Text
  pub version : ℕ
  pub description : Option Text
  pub tasks : List TaskDefinition
  pub constraints : List JobConstraint
  pub retry_policy : RetryPolicy
  pub allowed_transitions : List Text
  pub metadata : Map Text
  pub created_at : Text
  pub updated_at : Text
