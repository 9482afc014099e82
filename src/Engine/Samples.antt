-- ===== src/Engine/Samples.antt =====
-- A job of two tasks, run on a simulator that fails at first; what the engine does with it, and the
-- theorems about the engine at it.
use jobflow_project.Common.{
  All, Bool, List, Option, Text, [], arith, false, if◌then◌else◌, includes, insert, lookup, ltb,
  none, ok, refl, some, text, text_eq, true, ℕ, ◌↔◌, ◌∷◌, ◌≡◌, ◌≢◌,
}
use jobflow_project.Domain.{
  JobDefinition, JobRun, TaskDefinition, TaskRun, TaskStatus, WorkflowInstance, WorkflowState,
  concurrency_error, state_eq, status_eq,
}
use jobflow_project.Domain.{pending, completed}
use jobflow_project.Storage.Runs.{get_run, get_job, save_run}
use jobflow_project.Storage.Workflows.{WorkflowStore, empty_store}
use jobflow_project.Storage.Workflows
use mathlib.Core.Option
use jobflow_project.Domain.Retry.{DoubleOps}
use jobflow_project.Engine.Compensation.{
  plan_failed_run, Order.IsPlan, Order.plan_failed_run-IsPlan,
}
use jobflow_project.Engine.World.{World, value, threw, out_of_fuel}
use jobflow_project.Engine.RunLock.{acquire, release}
use jobflow_project.Engine.Executor.{success, failure, run_task}
use jobflow_project.Engine.Execution.{
  Services, execute_run, drive, dead_letter, run_loop, settle, attempt_task, requeue, update_task,
  set_add, set_delete, total_attempts,
}
use jobflow_project.Engine.Transitions.{
  default_transition_rules, transition, evaluate_guard, is_terminal, can_transition, Lifecycle.here,
  Lifecycle.Reach-terminal, Lifecycle.IsTraced, Lifecycle.transition-IsTraced, Lifecycle.Fit,
  Lifecycle.evaluate_guard_iff,
}
use jobflow_project.Engine.Orchestrator.{apply_transition, start_run, update_run, emit}
use jobflow_project.Engine.Orchestrator.Sync.{Kept, apply_transition-Kept}
use jobflow_project.Engine.Scheduler.{next_runnable, all_done, is_done, is_busy, status_by_def}
use jobflow_project.Engine.Scheduler.Progress.{no_stall}
use jobflow_project.Engine.Creation.{create_run}
use jobflow_project.Engine.Execution.Termination.{HasDistinctTasks, execute_run_ends}
use jobflow_project.Engine.Execution.DeadLetters.{execute_run_never_dead_letters, Spare}
use jobflow_project.Engine.Execution.Locks.{execute_run_releases, execute_run_stays_blocked}

abbrev task : Text → List Text → TaskDefinition
task id deps = record {
  id = id;
  name = id;
  handler = text "h";
  timeout_ms = 5;
  optional = none;
  depends_on = some deps;
}

abbrev job : JobDefinition
job = record {
  id = text "j";
  name = text "job";
  version = 1;
  description = none;
  tasks = task (text "b") (text "a" ∷ []) ∷ task (text "a") [] ∷ [];
  constraints = [];
  retry_policy = record {
    max_attempts = 3;
    initial_delay_ms = 500;
    backoff_multiplier = record { bits = 0x4000000000000000 };
    max_delay_ms = 30000;
  };
  allowed_transitions = [];
  metadata = [];
  created_at = [];
  updated_at = [];
}

-- The first two calls of the simulator fail where `broken` holds, else only the first.
-- Every result is the double of 0.
abbrev small_doubles : DoubleOps
small_doubles = record {
  of_nat = λ n. record { bits = 0 };
  floor = λ x. x;
  pow = λ x y. x;
  minimum = λ x y. x;
  multiply = λ x y. x;
}

abbrev services : Bool → Services ℕ
services broken = record {
  rules = default_transition_rules;
  doubles = small_doubles;
  now_iso = λ n. n ∷ [];
  simulate =
      λ n handler input. if ltb n (if broken then 2 else 1) then failure none else success (some 0);
  apply_rules = λ d c o. ok tt;
}

abbrev empty_world : World ℕ
empty_world = record {
  workflows = empty_store;
  runs = [];
  jobs = (text "j", job) ∷ [];
  dead_letters = [];
  local_locks = [];
  run_locks = [];
  events = [];
  reads = 0;
  calls = 0;
}

abbrev queued_task : ℕ → Text → TaskRun ℕ
queued_task n def = record {
  id = n ∷ [];
  run_id = text "r";
  definition_task_id = def;
  handler = text "h";
  status = TaskStatus.queued;
  attempt = 0;
  started_at = none;
  finished_at = none;
  output = none;
  error_message = none;
}

abbrev workflow : WorkflowState → WorkflowInstance ℕ
workflow state = record {
  id = text "w";
  job_id = text "j";
  run_id = text "r";
  state = state;
  current_task_id = none;
  context = 0;
  tasks = queued_task 0 (text "b") ∷ queued_task 1 (text "a") ∷ [];
  history = [];
  version = 1;
  created_at = 0 ∷ [];
  updated_at = 0 ∷ [];
}

abbrev run : JobRun ℕ
run = record {
  id = text "r";
  job_id = text "j";
  workflow_id = text "w";
  status = pending;
  started_at = 0 ∷ [];
  finished_at = none;
  trigger = text "api";
  input = 0;
}

abbrev started : World ℕ
started = record empty_world {
  workflows = record {
    by_id = (text "w", workflow pending) ∷ [];
    by_run_id = (text "r", text "w") ∷ [];
  };
  runs = (text "r", run) ∷ [];
  reads = 1;
}

program : Unit {0}
unfolding execute_run drive dead_letter run_loop settle attempt_task requeue run_task
    apply_transition start_run transition evaluate_guard next_runnable all_done acquire release
    set_add set_delete create_run get_job get_run lookup insert Workflows.save
    Workflows.get_by_run_id default_transition_rules can_transition text_eq includes save_run
    state_eq status_eq is_terminal emit update_run update_task total_attempts
program = tt

abbrev state_of : World ℕ → Option WorkflowState
state_of s =
    Option.map (λ (w : WorkflowInstance ℕ). w.state)
      (Workflows.get_by_run_id (text "r") s.workflows)

-- The state above is what creating the run leaves.
creates :
    (create_run
      (λ n. n ∷ [])
      (text "r")
      (text "w")
      (λ n. n ∷ [])
      (text "j")
      (text "api")
      0
      empty_world).1
    ≡ started
unfolding program
creates = refl

-- One failure is retried and the run completes.
completes : state_of (execute_run (services false) 9 (text "r") started).1 ≡ some completed
unfolding program
completes = refl

-- Two failures of one task are its end: the run fails, and is no dead letter.
gives_up :
    (state_of (execute_run (services true) 9 (text "r") started).1 ≡ some WorkflowState.failed)
    × ((execute_run (services true) 9 (text "r") started).1.dead_letters ≡ [])
unfolding program
gives_up = (refl, refl)

Reach-terminal_example : ◌≡◌ {A = WorkflowState} completed completed
unfolding is_terminal state_eq
Reach-terminal_example = Reach-terminal completed completed refl here

distinct : HasDistinctTasks (services true) job (workflow pending)
unfolding text_eq
distinct = record { by_id = ((refl, tt), (tt, tt)); by_definition = ((refl, tt), (tt, tt)) }

spare : All (Spare 3) (workflow pending).tasks
spare = ((omega arith, λ _. omega arith), ((omega arith, λ _. omega arith), tt))

execute_run_ends_example : (execute_run (services true) 9 (text "r") started).0 ≢ out_of_fuel
unfolding program
execute_run_ends_example =
    execute_run_ends (services true) 9 (text "r") started run job (workflow pending) refl refl refl
      distinct (omega arith)

execute_run_never_dead_letters_example :
    (execute_run (services true) 9 (text "r") started).1.dead_letters ≡ started.dead_letters
unfolding program
execute_run_never_dead_letters_example =
    execute_run_never_dead_letters (services true) 9 (text "r") started run job (workflow pending)
      refl refl refl distinct spare refl (omega arith)

execute_run_releases_example :
    (includes (execute_run (services true) 9 (text "r") started).1.local_locks (text "r") ≡ false)
    × (lookup (text "r") (execute_run (services true) 9 (text "r") started).1.run_locks
        ≢ some (text "execution-service"))
unfolding program
execute_run_releases_example =
    execute_run_releases (services true) 9 (text "r") started
      ((text "r", text "execution-service") ∷ []) refl refl

abbrev held : World ℕ
held = record started { run_locks = (text "r", text "other") ∷ [] }

execute_run_stays_blocked_example :
    let s' = (execute_run (services true) 9 (text "r") held).1 in
    ((execute_run (services true) 9 (text "r") held).0
      ≡ threw (concurrency_error (text "r") (text "other")))
    × (execute_run (services true) 9 (text "r") (record s' { run_locks = [] })
        ≡ (value tt, record s' { run_locks = [] }))
unfolding program
execute_run_stays_blocked_example =
    execute_run_stays_blocked (services true) 9 (text "r") held
      (concurrency_error (text "r") (text "other")) 9 [] refl refl

named : (workflow pending).id ≢ []
named e = cc

apply_transition-Kept_example :
    Kept default_transition_rules (workflow pending) (text "start") WorkflowState.running started (
      apply_transition default_transition_rules
        (λ n. n ∷ [])
        (workflow pending)
        (text "start")
        WorkflowState.running
        (text "x")
        started)
unfolding program
apply_transition-Kept_example =
    apply_transition-Kept default_transition_rules (λ n. n ∷ []) (workflow pending) (text "start")
      WorkflowState.running (text "x") started run named refl refl

abbrev finished : List (TaskRun ℕ)
finished =
    record (queued_task 0 (text "b")) { status = TaskStatus.succeeded }
    ∷ record (queued_task 1 (text "a")) { status = TaskStatus.skipped }
    ∷ []

-- The instance after the start, as the state machine gives it.
abbrev begun : WorkflowInstance ℕ
begun = record (workflow pending) {
  state = WorkflowState.running;
  history =
      record {
        at = 1 ∷ [];
        from = pending;
        to = WorkflowState.running;
        event = text "start";
        actor = text "x";
        note = none;
      }
      ∷ [];
  version = 2;
  updated_at = 2 ∷ [];
}

transition-IsTraced_example : IsTraced pending begun
unfolding program
transition-IsTraced_example =
    transition-IsTraced default_transition_rules (1 ∷ []) (2 ∷ []) (workflow pending) begun
      (text "start") WorkflowState.running (text "x") none pending refl
      (record { linked = refl; counted = refl })

evaluate_guard_iff_example :
    (evaluate_guard begun (text "complete") completed ≡ ok tt)
    ↔ Fit begun (text "complete") completed
evaluate_guard_iff_example = evaluate_guard_iff begun (text "complete") completed

abbrev rank : Text → ℕ
rank k = if text_eq k (text "a") then 0 else 1

no_stall_example :
    All (λ d. is_done (lookup d.id (status_by_def finished)) ≡ true) job.tasks
    × (all_done finished job.tasks ≡ true)
unfolding program is_done is_busy status_by_def
no_stall_example =
    no_stall finished job.tasks rank refl (refl, (refl, tt)) ((refl, tt), (tt, tt))
      ((omega arith, tt), (tt, tt))

plan_failed_run-IsPlan_example : IsPlan finished (plan_failed_run finished)
plan_failed_run-IsPlan_example = plan_failed_run-IsPlan finished
