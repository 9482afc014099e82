-- ===== src/Engine/Execution.antt =====
-- src/services/execution-service.ts and src/engine/run-context.ts: a run is driven from its start to
-- a state in which nothing is left to do. Code of one call runs with no other call between its
-- `await`s. The sleep before a retry has no effect on the state.
pub mod Steps
pub mod Tasks
pub mod Termination
pub mod DeadLetters
pub mod Locks
use jobflow_project.Common.{
  List, Map, Option, Result, Text, [], err, false, find, if◌then◌else◌, includes, insert, leb,
  length, map, none, not, ok, select, some, suc, text, text_eq, true, zero, ℕ, ◌&&◌, ◌*◌, ◌++◌, ◌+◌,
  ◌∷◌,
}
use jobflow_project.Domain.{
  JobDefinition, JobRun, JobflowError, TaskDefinition, TaskRun, TaskStatus, TransitionRule,
  WorkflowInstance, WorkflowState, max_retries_exceeded, not_found, state_eq, status_eq, type_error,
}
use jobflow_project.Domain.{completed, waiting, dead_lettered, max_retries_exceeded}
use jobflow_project.Storage.Workflows
use jobflow_project.Storage.Runs.{get_run, get_job, push_dead_letter}
use jobflow_project.Engine.RunLock.{acquire, release}
use jobflow_project.Domain.Retry.{DoubleOps}
use jobflow_project.Engine.World.{
  World, Action, pure, throw, lift, gets, modify, ◌>>=◌, ◌>>◌, and_then, value, out_of_fuel,
  read_clock, try_finally, threw,
}
use jobflow_project.Engine.Orchestrator.{apply_transition, start_run, save_workflow}
use jobflow_project.Engine.Scheduler.{next_runnable, all_done}
use jobflow_project.Engine.Executor.{Simulated, ExecuteResult, run_task}

-- `new Set()` with `add`, `delete`.
unfoldable pub set_add : Text → List Text → List Text
set_add x xs = if includes xs x then xs else xs ++ x ∷ []

unfoldable pub set_delete : Text → List Text → List Text
set_delete x xs = select (λ y. not (text_eq y x)) xs

module _ {D : Type 0} where
  -- `throw new NotFoundError(…)` where the value is missing.
  abbrev pub require : {A : Type 0} → Text → Text → Option A → Action D A
  require entity id none = throw (not_found entity id)
  require entity id (some a) = pure a

  -- `find(…)!`, whose fields are read at once.
  abbrev pub present : {A : Type 0} → Option A → Action D A
  present none = throw type_error
  present (some a) = pure a

  unfoldable pub outputs_onto : Map D → List (TaskRun D) → Map D
  outputs_onto out [] = out
  outputs_onto out (t ∷ ts) =
      outputs_onto (elim t.output [ none ↦ out | some o ↦ insert t.definition_task_id o out ]) ts

  -- `RunContextFactory.taskOutputs`.
  unfoldable pub task_outputs : WorkflowInstance D → Map D
  unfolding outputs_onto
  task_outputs w = outputs_onto [] w.tasks

  unfoldable pub replace_task : TaskRun D → List (TaskRun D) → List (TaskRun D)
  replace_task task tasks = map (λ t. if text_eq t.id task.id then task else t) tasks

  unfoldable pub total_attempts : List (TaskRun D) → ℕ
  total_attempts [] = 0
  total_attempts (t ∷ ts) = t.attempt + total_attempts ts

-- What the service is built from: the transition rules, the clock, the simulator, and the rule engine,
-- which may throw.
pub record Services (D : Type 0) : Type 0 where
  pub rules : List TransitionRule
  pub doubles : DoubleOps
  pub now_iso : ℕ → Text
  pub simulate : ℕ → Text → D → Simulated D
  pub apply_rules : JobDefinition → D → Map D → Result JobflowError (Unit {0})

module _ {D : Type 0} (sv : Services D) where
  unfoldable pub update_task : WorkflowInstance D → TaskRun D → Action D (WorkflowInstance D)
  unfolding read_clock save_workflow replace_task
  update_task w task = do
    at ← read_clock sv.now_iso
    let updated = record w { tasks = replace_task task w.tasks; updated_at = at }
    save_workflow updated
    pure updated

  abbrev pub service : Text
  service = text "execution-service"

  -- Nothing is runnable: the run is completed or waits.
  unfoldable pub settle : JobDefinition → WorkflowInstance D → Action D (WorkflowInstance D)
  settle definition w =
      if all_done w.tasks definition.tasks
      then (do
        lift (sv.apply_rules definition w.context (task_outputs w))
        apply_transition sv.rules sv.now_iso w (text "complete") completed service)
      else apply_transition sv.rules sv.now_iso w (text "await") waiting service

  -- After a retry is due the task is queued again.
  unfoldable pub requeue : WorkflowInstance D → ExecuteResult D → Action D (WorkflowInstance D)
  requeue w result = elim result.retry_after_ms [
    | none ↦ pure w
    | some ms ↦ update_task w (record (result.task) { status = TaskStatus.queued })
  ]

  -- One attempt at a task, saved, with the result of the attempt.
  unfoldable pub attempt_task :
      JobDefinition
      → WorkflowInstance D
      → TaskDefinition
      → Action D (WorkflowInstance D × ExecuteResult D)
  attempt_task definition w def = do
    task_run ← present (find (λ t. text_eq t.definition_task_id def.id) w.tasks)
    result ←
        run_task sv.doubles sv.now_iso sv.simulate task_run def definition.retry_policy w.context
    saved ← update_task w result.task
    queued ← requeue saved result
    pure (queued, result)

  -- The `while` loop.
  unfoldable pub run_loop : ℕ → JobDefinition → WorkflowInstance D → Action D (WorkflowInstance D)
  run_loop zero definition w = λ s. (out_of_fuel, s)
  run_loop (suc fuel) definition w = elim (state_eq w.state WorkflowState.running) [
    | false ↦ pure w
    | true ↦ elim (next_runnable w.tasks definition.tasks) [
      | none ↦ settle definition w
      | some def ↦ do
        (w', result) ← attempt_task definition w def
        elim (status_eq result.task.status TaskStatus.failed) [
          | true ↦
              apply_transition sv.rules sv.now_iso w' (text "fail") WorkflowState.failed service
          | false ↦ run_loop fuel definition w'
        ]
    ]
  ]

  unfoldable pub dead_letter : Text → JobDefinition → WorkflowInstance D → Action D (Unit {0})
  dead_letter run_id definition w =
      if state_eq w.state WorkflowState.failed
        && leb (definition.retry_policy.max_attempts * length definition.tasks)
            (total_attempts w.tasks)
      then (do
        w' ← apply_transition sv.rules sv.now_iso w (text "dead_letter") dead_lettered service
        at ← read_clock sv.now_iso
        modify (λ s. record s {
          dead_letters =
              push_dead_letter
                (record {
                  run_id = run_id;
                  reason = max_retries_exceeded;
                  workflow_id = w'.id;
                  at = at;
                })
                s.dead_letters;
        }))
      else pure tt

  -- The `try` block of `executeRun`.
  unfoldable pub drive : ℕ → Text → Action D (Unit {0})
  drive fuel run_id = do
    found ← gets (λ s. get_run run_id s.runs)
    run ← require (text "JobRun") run_id found
    job ← gets (λ s. get_job run.job_id s.jobs)
    definition ← require (text "JobDefinition") run.job_id job
    stored ← gets (λ s. Workflows.get_by_run_id run_id s.workflows)
    w ← require (text "WorkflowInstance") run_id stored
    started ← start_run sv.rules sv.now_iso w
    ended ← run_loop fuel definition started
    dead_letter run_id definition ended

  -- `executeRun`. The lock registry is taken before the `try`, so where `acquire` throws, the entry
  -- in the local set stays.
  unfoldable pub execute_run : ℕ → Text → Action D (Unit {0})
  execute_run fuel run_id s =
      if includes s.local_locks run_id
      then (value tt, s)
      else let s₁ = record s { local_locks = set_add run_id s.local_locks } in
        elim (acquire run_id service s₁.run_locks) [
          | err e ↦ (threw e, s₁)
          | ok locks ↦
              try_finally (drive fuel run_id)
                (λ s₂. record s₂ {
                  local_locks = set_delete run_id s₂.local_locks;
                  run_locks = release run_id service s₂.run_locks;
                })
                (record s₁ { run_locks = locks })
        ]
