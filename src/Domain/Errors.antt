-- ===== src/Domain/Errors.antt =====
-- src/domain/errors.ts: the errors that are thrown, with the data that their messages show.
use jobflow_project.Common.{ℕ, Text, List}
use jobflow_project.Domain.Types.{WorkflowState, FailureReason}

-- What `TransitionError` is thrown for.
pub data TransitionFault : Type 0 where
  denied : (from to : WorkflowState) (event : Text) → TransitionFault
  no_failed_task : TransitionFault
  tasks_running : TransitionFault
  incomplete_tasks : (count : ℕ) → TransitionFault

pub data JobflowError : Type 0 where
  validation_error : (message : Text) (details : List Text) → JobflowError
  transition_error : TransitionFault → JobflowError
  not_found : (entity id : Text) → JobflowError
  execution_error : FailureReason → (message : Text) → JobflowError
  concurrency_error : (run_id owner : Text) → JobflowError
  -- `new JobflowError(code, message)`
  coded_error : (code message : Text) → JobflowError
  -- `new Error(message)`
  plain_error : (message : Text) → JobflowError
  -- a property of `undefined` is read
  type_error : JobflowError
