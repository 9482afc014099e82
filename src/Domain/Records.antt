-- ===== src/Domain/Records.antt =====
-- src/domain/task.ts, workflow-instance.ts and events.ts: a run and what is recorded of it.
use jobflow_project.Common.{Bool, List, Option, Text, none, ℕ}
use jobflow_project.Domain.Types.{Double, WorkflowState, TaskStatus, FailureReason}

pub record TaskRun (D : Type 0) : Type 0 where
  pub id : Text
  pub run_id : Text
  pub definition_task_id : Text
  pub handler : Text
  pub status : TaskStatus
  pub attempt : ℕ
  pub started_at : Option Text
  pub finished_at : Option Text
  pub output : Option D
  pub error_message : Option Text

unfoldable pub create_task_run :
    {D : Type 0} (id run_id definition_task_id handler : Text) → TaskRun D
create_task_run id run_id definition_task_id handler = record {
  id = id;
  run_id = run_id;
  definition_task_id = definition_task_id;
  handler = handler;
  status = TaskStatus.queued;
  attempt = 0;
  started_at = none;
  finished_at = none;
  output = none;
  error_message = none;
}

pub record WorkflowHistoryEntry : Type 0 where
  pub at : Text
  pub from : WorkflowState
  pub to : WorkflowState
  pub event : Text
  pub actor : Text
  pub note : Option Text

pub record WorkflowInstance (D : Type 0) : Type 0 where
  pub id : Text
  pub job_id : Text
  pub run_id : Text
  pub state : WorkflowState
  pub current_task_id : Option Text
  pub context : D
  pub tasks : List (TaskRun D)
  pub history : List WorkflowHistoryEntry
  pub version : ℕ
  pub created_at : Text
  pub updated_at : Text

pub record JobRun (D : Type 0) : Type 0 where
  pub id : Text
  pub job_id : Text
  pub workflow_id : Text
  pub status : WorkflowState
  pub started_at : Text
  pub finished_at : Option Text
  pub trigger : Text
  pub input : D

pub data DomainEvent : Type 0 where
  job_registered : (job_id at : Text) → DomainEvent
  run_started : (run_id job_id at : Text) → DomainEvent
  run_completed : (run_id at : Text) → DomainEvent
  workflow_transitioned : (run_id : Text) (from to : WorkflowState) (event at : Text) → DomainEvent
  task_started : (run_id task_id : Text) (attempt : ℕ) (at : Text) → DomainEvent
  task_finished : (run_id task_id : Text) (success : Bool) (at : Text) → DomainEvent
  task_retry_scheduled :
      (run_id task_id : Text) (attempt : ℕ) (delay_ms : Double) (at : Text) → DomainEvent
  run_failed : (run_id : Text) (reason : FailureReason) (at : Text) → DomainEvent
  run_dead_lettered : (run_id at : Text) → DomainEvent
