-- ===== src/Saga/Types.antt =====
-- src/saga/saga-types.ts. `D` is the type of inputs and outputs.
use jobflow_project.Common.{Bool, List, Option, Text, false, true, ℕ}

pub data SagaStepStatus : Type 0 where
  pending running completed failed compensating compensated : SagaStepStatus

-- `===` on step statuses, against "completed".
unfoldable pub is_completed : SagaStepStatus → Bool
is_completed SagaStepStatus.completed = true
is_completed _ = false

pub record SagaStepDefinition : Type 0 where
  pub id : Text
  pub name : Text
  pub forward : Text
  pub compensate : Option Text
  pub timeout_ms : ℕ

pub record SagaStepState (D : Type 0) : Type 0 where
  pub step_id : Text
  pub status : SagaStepStatus
  pub attempt : ℕ
  pub output : Option D
  pub error : Option Text
  pub started_at : Option Text
  pub finished_at : Option Text

pub data SagaStatus : Type 0 where
  active completed failed compensated : SagaStatus

pub record SagaInstance (D : Type 0) : Type 0 where
  pub id : Text
  pub run_id : Text
  pub definition_id : Text
  pub steps : List (SagaStepState D)
  pub status : SagaStatus
  pub created_at : Text
  pub updated_at : Text

pub record SagaDefinition : Type 0 where
  pub id : Text
  pub name : Text
  pub steps : List SagaStepDefinition
