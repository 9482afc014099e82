-- ===== src/Samples.antt =====
-- Small inputs for the parts beside the engine and the language, and the theorems at them.
use jobflow_project.Common.{
  List, Text, [], any, arith, err, false, includes, insert, join, length, lookup, none, not, ok,
  refl, select, some, starts_with, text, text_eq, true, values, ℕ, ◌&&◌, ◌++◌, ◌+◌, ◌-◌, ◌<◌, ◌↔◌,
  ◌∷◌, ◌≡◌, ◌≢◌, ◌≤◌,
}
use jobflow_project.Common.Sort.{IsSorted, sort, sort_onto, place}
use jobflow_project.Domain.Retry.{default_retry_policy}
use jobflow_project.Domain.{JobDefinition, JobRun, WorkflowInstance}
use jobflow_project.Domain.{pending}
use jobflow_project.Storage.Workflows
use jobflow_project.Storage.Workflows.{empty_store}
use jobflow_project.Workers.Pool.{
  QueuedRun, RunPriority, low, critical, WorkerPool, new_pool, enqueue, start, complete,
  priority_before, can_accept, shift, priority_number,
}
use jobflow_project.Workers.Pool.Fairness.{
  History, fresh, enqueued, started, has_priority, pool_fair, pool_bounded,
}
use jobflow_project.Handlers.Breaker.{closed, can_execute}
use jobflow_project.Handlers.Breaker.Counting.{
  BreakerEvent, asked, succeeded, failed, after, failures_in_a_row, last_failure, breaker_trips,
}
use jobflow_project.Handlers.Invoker.{responded, InvokerDefaults, invoke}
use jobflow_project.Handlers.Invoker.Isolation.{invoke_leaves_others}
use jobflow_project.Query.Pages.{paginate, PageRequest}
use jobflow_project.Query.Pages.Cover.{pages_from, pages_cover}
use jobflow_project.Validators.Jobs.{
  validate, self_dependency, check_deps, check_tasks, problems, validate_task,
}
use jobflow_project.Validators.Jobs.Sound.{IsValid, validate_iff}
use jobflow_project.Persistence.Checkpoints.{capture, restore}
use jobflow_project.Persistence.Checkpoints.Recovery.{restore-capture}
use jobflow_project.Security.Keys.{ApiKeyRecord, is_revoked, authenticate}
use jobflow_project.Security.Keys.Granted.{fits, authenticate-any}
use jobflow_project.Security.Tenants.{
  development, default_quotas, register_tenant, assert_can_register_job, register-within,
}
use jobflow_project.Storage.Runs.{list_jobs, save_job, list_by_job, is_active}
use jobflow_project.Engine.Transitions.{is_terminal}
use jobflow_project.Query.RunFilter.{text_before, filter_runs}
use jobflow_project.Query.RunFilter.Narrowing.{by_job, filter_runs-list_by_job}
use jobflow_project.Query.Retention.{default_retention, should_purge_workflow}
use jobflow_project.Query.Retention.Purging.{purged_not_active}
use jobflow_project.Storage.Sql.{
  SqlQuery, compare_with, within_list, equal, build, write_where, write_bound, write_conditions,
  write_condition, hold, hold_all, write_order,
}
use jobflow_project.Storage.Sql.Placeholders.{build-values}
use jobflow_project.Dsl.Parser.Numbers.{digits}

abbrev sample_workflow : WorkflowInstance ℕ
sample_workflow = record {
  id = text "w";
  job_id = text "j";
  run_id = text "r";
  state = pending;
  current_task_id = none;
  context = 0;
  tasks = [];
  history = [];
  version = 1;
  created_at = [];
  updated_at = [];
}

named : sample_workflow.id ≢ []
named e = cc

get_by_run_id-save_example :
    Workflows.get_by_run_id (text "r") (Workflows.save sample_workflow empty_store)
    ≡ some sample_workflow
get_by_run_id-save_example = Workflows.get_by_run_id-save sample_workflow empty_store named

abbrev queued_run : ℕ → RunPriority → QueuedRun
queued_run n p = record { run_id = n ∷ []; priority = p; enqueued_at = [] }

abbrev busy : WorkerPool
busy = (start (enqueue (queued_run 2 critical) (enqueue (queued_run 1 low) (new_pool 1)))).1

abbrev both : List QueuedRun
both = queued_run 1 low ∷ queued_run 2 critical ∷ []

program : Unit {0}
unfolding start enqueue can_accept shift sort sort_onto place priority_before priority_number
    complete new_pool
program = tt

busy-History : History 1 both (queued_run 2 critical ∷ []) busy
unfolding program
busy-History = started (enqueued (queued_run 2 critical) (enqueued (queued_run 1 low) fresh))

pool_fair_example :
    select (has_priority low) (queued_run 2 critical ∷ []) ++ select (has_priority low) busy.queue
    ≡ select (has_priority low) both
pool_fair_example = pool_fair 1 low busy-History

pool_bounded_example : (busy.running ≤ 1) × IsSorted priority_before busy.queue
pool_bounded_example = pool_bounded 1 busy-History

abbrev failures : List BreakerEvent
failures = failed 30 ∷ failed 20 ∷ asked 10 ∷ succeeded ∷ []

breaker_trips_example :
    let b = after 2 100 failures in
    ((b.state ≡ closed) ↔ (failures_in_a_row failures < 2))
    × ((can_execute 50 b).0 ≡ false
        → (2 ≤ failures_in_a_row failures) × (50 < last_failure failures + 100))
breaker_trips_example = breaker_trips 2 100 failures 50 (omega arith)

abbrev defaults : InvokerDefaults
defaults = record { breaker_threshold = 5; cooldown_ms = 30000 }

invoke_leaves_others_example :
    lookup
      (text "b")
      (invoke {B = ℕ} 0 defaults (text "a") 1 1 2 (responded false 500 7) []).breakers
    ≡ none
unfolding text_eq lookup
invoke_leaves_others_example =
    invoke_leaves_others 0 defaults (text "a") (text "b") 1 1 2 (responded false 500 7) [] refl

abbrev numbers : List ℕ
numbers = 1 ∷ 2 ∷ 3 ∷ []

abbrev request : PageRequest
request = record { page = 1; page_size = 2 }

pages_cover_example : pages_from 2 0 (paginate numbers request).total_pages numbers ≡ numbers
pages_cover_example = pages_cover numbers request

-- Its task depends on itself.
abbrev looping_job : JobDefinition
looping_job = record {
  id = text "j";
  name = text "job";
  version = 1;
  description = none;
  tasks =
      record {
        id = text "a";
        name = text "a";
        handler = text "h";
        timeout_ms = 5;
        optional = none;
        depends_on = some (text "a" ∷ []);
      }
      ∷ [];
  constraints = [];
  retry_policy = default_retry_policy;
  allowed_transitions = [];
  metadata = [];
  created_at = [];
  updated_at = [];
}

validate_refuses : validate looping_job ≡ err (self_dependency (text "a") ∷ [])
unfolding validate check_deps check_tasks problems validate_task text_eq includes
validate_refuses = refl

validate_iff_example : (validate looping_job ≡ ok tt) ↔ IsValid looping_job
validate_iff_example = validate_iff looping_job

restore-capture_example :
    let r =
      restore
        (text "r")
        none
        (5 ∷ [])
        (capture (text "r") sample_workflow none (4 ∷ []) [])
        empty_store in
    (r.0 ≡ true)
    × (Workflows.get_by_run_id (text "r") r.1
        ≡ some (record sample_workflow { updated_at = 5 ∷ [] }))
restore-capture_example =
    restore-capture (text "r") sample_workflow none (4 ∷ []) (5 ∷ []) [] empty_store named

-- The hash is the text itself.
abbrev same : Text → Text
same t = t

abbrev stored_key : ApiKeyRecord
stored_key = record {
  id = text "k";
  tenant_id = text "acme";
  prefix = text "12345678";
  hash = text "1234567890";
  scopes = [];
  created_at = [];
  revoked_at = none;
}

authenticate-any_example :
    let raw = text "1234567890" in
    (starts_with (text "Bearer ") (text "Bearer 1234567890") ≡ true)
    × (any
          (λ k.
            (text_eq k.prefix (text "12345678") && not (is_revoked k))
            && fits same same raw (text "acme") k)
          (stored_key ∷ [])
        ≡ true)
unfolding authenticate text_eq
authenticate-any_example =
    authenticate-any same same (text "Bearer 1234567890") (stored_key ∷ []) (text "acme") [] refl

register-within_example : length (list_jobs (save_job looping_job [])) ≤ default_quotas.max_jobs
unfolding assert_can_register_job lookup register_tenant insert text_eq list_jobs values
register-within_example = register-within (text "acme") development [] [] looping_job refl

abbrev sample_query : SqlQuery ℕ
sample_query = record {
  table = text "runs";
  columns = text "*" ∷ [];
  conditions = compare_with (text "a") equal 7 ∷ within_list (text "b") (8 ∷ 9 ∷ []) ∷ [];
  order_by = none;
  limit = some 10;
  offset = none;
}

build-values_example : (build sample_query).1 ≡ 7 ∷ 8 ∷ 9 ∷ 10 ∷ []
build-values_example = build-values sample_query

writes : (build sample_query).0 ≡ text "SELECT * FROM runs WHERE a = $1 AND b IN ($2, $3) LIMIT $4"
unfolding build write_where write_bound write_conditions write_condition hold hold_all join
    write_order digits
writes = refl

abbrev sample_run : JobRun ℕ
sample_run = record {
  id = text "r";
  job_id = text "j";
  workflow_id = text "w";
  status = pending;
  started_at = [];
  finished_at = none;
  trigger = text "api";
  input = 0;
}

filter_runs-list_by_job_example :
    filter_runs (by_job (text "j")) (values ((text "r", sample_run) ∷ []))
    ≡ list_by_job (text "j") ((text "r", sample_run) ∷ [])
unfolding text_eq
filter_runs-list_by_job_example =
    filter_runs-list_by_job (text "j") ((text "r", sample_run) ∷ []) refl

abbrev days_back : (now days : ℕ) → Text
days_back now days = (now - days) ∷ []

purged_not_active_example :
    (should_purge_workflow days_back default_retention 99 sample_workflow ≡ true
      → is_active sample_workflow.state ≡ false)
    × (is_terminal sample_workflow.state ≡ true
        → text_before sample_workflow.updated_at (days_back 99 default_retention.workflow_days)
          ≡ true
        → should_purge_workflow days_back default_retention 99 sample_workflow ≡ true)
purged_not_active_example = purged_not_active days_back default_retention 99 sample_workflow
