-- ===== src/Engine/Creation.antt =====
-- src/services/workflow-service.ts: a run is created for a job. The ids that src/utils/ids.ts draws at
-- random are arguments: `task_id n` is the id of the n-th task.
use jobflow_project.Common.{List, Text, [], none, text, ℕ, ◌+◌, ◌∷◌}
use jobflow_project.Domain.{
  JobDefinition, JobRun, TaskDefinition, TaskRun, WorkflowInstance, create_task_run,
}
use jobflow_project.Domain.{pending}
use jobflow_project.Storage.Workflows
use jobflow_project.Storage.Runs.{get_job}
use jobflow_project.Engine.World.{Action, pure, gets, ◌>>=◌, ◌>>◌, read_clock}
use jobflow_project.Engine.Orchestrator.{save_workflow, store_run}
use jobflow_project.Engine.Execution.{require}

pub record Created (D : Type 0) : Type 0 where
  pub run : JobRun D
  pub workflow : WorkflowInstance D
  pub definition : JobDefinition

module _ {D : Type 0} (now_iso : ℕ → Text) (run_id workflow_id : Text) (task_id : ℕ → Text) where
  unfoldable pub create_tasks : ℕ → List TaskDefinition → List (TaskRun D)
  unfolding create_task_run
  create_tasks n [] = []
  create_tasks n (t ∷ ts) =
      create_task_run (task_id n) run_id t.id t.handler ∷ create_tasks (n + 1) ts

  unfoldable pub create_run : (job_id trigger : Text) (input : D) → Action D (Created D)
  unfolding create_tasks read_clock save_workflow store_run
  create_run job_id trigger input = do
    job ← gets (λ s. get_job job_id s.jobs)
    definition ← require (text "JobDefinition") job_id job
    now ← read_clock now_iso
    let workflow : WorkflowInstance D = record {
      id = workflow_id;
      job_id = job_id;
      run_id = run_id;
      state = pending;
      current_task_id = none;
      context = input;
      tasks = create_tasks 0 definition.tasks;
      history = [];
      version = 1;
      created_at = now;
      updated_at = now;
    }
    let run : JobRun D = record {
      id = run_id;
      job_id = job_id;
      workflow_id = workflow_id;
      status = pending;
      started_at = now;
      finished_at = none;
      trigger = trigger;
      input = input;
    }
    save_workflow workflow
    store_run run
    pure (record { run = run; workflow = workflow; definition = definition })

module _ {D : Type 0} where
  -- `getWorkflowByRun`.
  unfoldable pub get_workflow_by_run : Text → Action D (WorkflowInstance D)
  get_workflow_by_run id = do
    found ← gets (λ s. Workflows.get_by_run_id id s.workflows)
    require (text "WorkflowInstance") id found
