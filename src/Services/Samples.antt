-- ===== src/Services/Samples.antt =====
-- A job of two tasks, one after the other, and the theorems on definitions at it.
use jobflow_project.Common.{
  All, List, Text, [], err, includes, insert, lookup, none, ok, refl, some, text, text_eq, true, ℕ,
  ◌↔◌, ◌∷◌, ◌≡◌, ◌≢◌,
}
use jobflow_project.Domain.{JobDefinition, TaskDefinition, TaskRun, TaskStatus, status_eq}
use jobflow_project.Domain.Retry.{default_retry_policy}
use jobflow_project.Validators.Jobs.{
  task_ids, validate, check_deps, check_tasks, problems, validate_task,
}
use jobflow_project.Validators.Jobs.Sound.{IsDistinct}
use jobflow_project.Validators.Order.{validate_dependency_order, deps_by_id, deps_in, index_onto}
use jobflow_project.Validators.Order.Acyclic.{IsRankedBy, validate_dependency_order_iff}
use jobflow_project.Graph.Visit.{
  cycle, out_of_fuel, visit, visit_all, visit_each, leave, mark, unmark,
}
use jobflow_project.Storage.Runs.{save_job, get_job}
use jobflow_project.Engine.Scheduler.{
  status_by_def, is_done, is_busy, next_runnable, all_done, is_runnable,
}
use jobflow_project.Services.Jobs.{
  JobInput, register, on_error, check_handlers, define_job, resolve, job_id,
}
use jobflow_project.Services.Jobs.Registered.{register-never_stalls}

abbrev task_of : Text → List Text → TaskDefinition
task_of id deps = record {
  id = id;
  name = id;
  handler = text "h";
  timeout_ms = 5;
  optional = none;
  depends_on = some deps;
}

abbrev chain : List TaskDefinition
chain = task_of (text "b") (text "a" ∷ []) ∷ task_of (text "a") [] ∷ []

abbrev ring : List TaskDefinition
ring = task_of (text "b") (text "a" ∷ []) ∷ task_of (text "a") (text "b" ∷ []) ∷ []

abbrev distinct : IsDistinct (task_ids chain)
distinct = unfold IsDistinct text_eq includes in (refl, (refl, tt))

validate_dependency_order_iff_example :
    ((validate_dependency_order chain ≡ ok tt) ↔ ((rank : Text → ℕ) × IsRankedBy rank chain))
    × (validate_dependency_order chain ≢ err out_of_fuel)
validate_dependency_order_iff_example = validate_dependency_order_iff chain distinct

ring_refused : validate_dependency_order ring ≡ err (cycle (text "b"))
unfolding validate_dependency_order deps_by_id deps_in index_onto visit_all visit visit_each leave
    mark unmark text_eq includes lookup insert
ring_refused = refl

abbrev chain_input : JobInput
chain_input = record {
  id = some (text "j");
  name = text "job";
  version = 1;
  description = none;
  tasks = chain;
  constraints = [];
  retry_policy = none;
  allowed_transitions = [];
  metadata = [];
}

abbrev chain_job : JobDefinition
chain_job = record {
  id = text "j";
  name = text "job";
  version = 1;
  description = none;
  tasks = chain;
  constraints = [];
  retry_policy = default_retry_policy;
  allowed_transitions = [];
  metadata = [];
  created_at = text "t";
  updated_at = text "t";
}

chain_registered :
    register none none (text "n") (text "t") chain_input [] ≡ ok (chain_job, save_job chain_job [])
unfolding register on_error check_handlers define_job job_id resolve validate check_deps check_tasks
    problems validate_task validate_dependency_order deps_by_id deps_in index_onto visit_all visit
    visit_each leave mark unmark text_eq includes lookup insert
chain_registered = refl

abbrev ended : Text → TaskRun ℕ
ended id = record {
  id = id;
  run_id = text "r";
  definition_task_id = id;
  handler = text "h";
  status = TaskStatus.succeeded;
  attempt = 1;
  started_at = none;
  finished_at = none;
  output = none;
  error_message = none;
}

abbrev all_ended : List (TaskRun ℕ)
all_ended = ended (text "a") ∷ ended (text "b") ∷ []

register-never_stalls_example :
    (get_job chain_job.id (save_job chain_job []) ≡ some chain_job)
    × All (λ t. is_done (lookup t.id (status_by_def all_ended)) ≡ true) chain
    × (all_done all_ended chain ≡ true)
unfolding next_runnable is_busy status_by_def is_runnable lookup insert text_eq status_eq
register-never_stalls_example =
    register-never_stalls none none (text "n") (text "t") chain_input [] (save_job chain_job [])
      chain_job all_ended chain_registered refl (refl, (refl, tt))
