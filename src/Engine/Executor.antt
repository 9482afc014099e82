-- ===== src/Engine/Executor.antt =====
-- src/workers/task-executor.ts: one attempt at a task, and what its failure leads to.
use jobflow_project.Common.{Option, Text, if◌then◌else◌, none, some, text, ℕ, ◌+◌}
use jobflow_project.Domain.{Double, RetryPolicy, TaskDefinition, TaskRun, TaskStatus}
use jobflow_project.Domain.Retry.{DoubleOps, decide_retry}
use jobflow_project.Engine.World.{Action, pure, gets, modify, ◌>>=◌, ◌>>◌, read_clock}

-- What the simulator or a handler does: it returns a result, or throws.
pub data Simulated (D : Type 0) : Type 0 where
  success : (output : Option D) → Simulated D
  failure : (error_message : Option Text) → Simulated D
  raised : (message : Text) → Simulated D

pub record ExecuteResult (D : Type 0) : Type 0 where
  pub task : TaskRun D
  pub retry_after_ms : Option Double

module _ {D : Type 0} (doubles : DoubleOps) (now_iso : ℕ → Text) where
  unfoldable pub handle_failure : TaskRun D → RetryPolicy → Text → Action D (ExecuteResult D)
  unfolding read_clock decide_retry
  handle_failure task policy message = do
    at ← read_clock now_iso
    let failed = record task {
      status = TaskStatus.failed;
      finished_at = some at;
      error_message = some message;
    }
    let decision = decide_retry doubles policy failed.attempt
    pure (
        if decision.retry
        then record {
          task = record failed { status = TaskStatus.retrying; error_message = some message };
          retry_after_ms = some decision.delay_ms;
        }
        else record { task = failed; retry_after_ms = none })

  -- The body of `try`, and its `catch`.
  unfoldable pub finish_attempt : TaskRun D → RetryPolicy → Simulated D → Action D (ExecuteResult D)
  unfolding handle_failure read_clock
  finish_attempt running policy (success output) = do
    at ← read_clock now_iso
    pure (record {
      task = record running {
        status = TaskStatus.succeeded;
        finished_at = some at;
        output = output;
      };
      retry_after_ms = none;
    })
  finish_attempt running policy (failure none) =
      handle_failure running policy (text "unknown error")
  finish_attempt running policy (failure (some message)) = handle_failure running policy message
  finish_attempt running policy (raised message) = handle_failure running policy message

  -- `simulate n handler input` is the n-th call of the simulator.
  unfoldable pub run_task :
      (simulate : ℕ → Text → D → Simulated D)
      → TaskRun D
      → TaskDefinition
      → RetryPolicy
      → D
      → Action D (ExecuteResult D)
  unfolding finish_attempt read_clock
  run_task simulate task_run definition policy input = do
    started ← read_clock now_iso
    calls ← gets (λ s. s.calls)
    modify (λ s. record s { calls = s.calls + 1 })
    let running = record task_run {
      status = TaskStatus.running;
      attempt = task_run.attempt + 1;
      started_at = some started;
    }
    finish_attempt running policy (simulate calls definition.handler input)
