-- ===== src/Services/Jobs.antt =====
-- src/services/job-service.ts: a definition is checked and stored. What the schema of the input lets
-- through is the argument; a new id and the time are drawn outside; logging is left out.
pub mod Registered
use jobflow_project.Common.{
  List, Map, Option, Result, Text, [], err, if◌then◌else◌, none, ok, some, text, text_eq, ℕ, ◌>>=◌,
  ◌>>◌, ◌∷◌,
}
use jobflow_project.Domain.{
  JobConstraint, JobDefinition, JobflowError, RetryPolicy, TaskDefinition, not_found,
}
use jobflow_project.Domain.Retry.{default_retry_policy}
use jobflow_project.Handlers.Registry.{Registry, assert_known, resolve_tasks}
use jobflow_project.Validators.Jobs.{Problem, validate}
use jobflow_project.Validators.Order.{validate_dependency_order}
use jobflow_project.Graph.Visit.{VisitError}
use jobflow_project.Storage.Runs.{save_job, get_job, list_jobs}

pub record JobInput : Type 0 where
  pub id : Option Text
  pub name : Text
  pub version : ℕ
  pub description : Option Text
  pub tasks : List TaskDefinition
  pub constraints : List JobConstraint
  pub retry_policy : Option RetryPolicy
  pub allowed_transitions : List Text
  pub metadata : Map Text

-- What `register` throws.
pub data RegisterError : Type 0 where
  unknown_handler : JobflowError → RegisterError
  invalid : List Problem → RegisterError
  bad_order : VisitError → RegisterError

unfoldable pub on_error : {E F A : Type 0} → (E → F) → Result E A → Result F A
on_error f (ok a) = ok a
on_error f (err e) = err (f e)

-- `x ?? default`.
abbrev pub or_default : {A : Type 0} → A → Option A → A
or_default a none = a
or_default a (some b) = b

-- The loop of `assertKnown`.
unfoldable pub assert_all_known : Registry → List TaskDefinition → Result JobflowError (Unit {0})
assert_all_known r [] = ok tt
assert_all_known r (t ∷ ts) = assert_known t.handler r >> assert_all_known r ts

-- Where there is no registry, and where there is no resolver, nothing is done.
unfoldable pub check_handlers :
    Option Registry → List TaskDefinition → Result JobflowError (Unit {0})
unfolding assert_all_known
check_handlers none ts = ok tt
check_handlers (some r) ts = assert_all_known r ts

unfoldable pub resolve : Option Registry → List TaskDefinition → List TaskDefinition
resolve none ts = ts
resolve (some r) ts = resolve_tasks r ts

-- `parsed.id ? asJobId(parsed.id) : newJobId()`.
unfoldable pub job_id : Text → Option Text → Text
job_id new_id none = new_id
job_id new_id (some id) = if text_eq id [] then new_id else id

unfoldable pub define_job : (new_id now : Text) → JobInput → List TaskDefinition → JobDefinition
unfolding job_id
define_job new_id now input tasks = record {
  id = job_id new_id input.id;
  name = input.name;
  version = input.version;
  description = input.description;
  tasks = tasks;
  constraints = input.constraints;
  retry_policy = or_default default_retry_policy input.retry_policy;
  allowed_transitions = input.allowed_transitions;
  metadata = input.metadata;
  created_at = now;
  updated_at = now;
}

unfoldable pub register :
    (handlers resolver : Option Registry) (new_id now : Text)
    → JobInput
    → Map JobDefinition
    → Result RegisterError (JobDefinition × Map JobDefinition)
register handlers resolver new_id now input jobs = do
  known ← on_error unknown_handler (check_handlers handlers input.tasks)
  let definition = define_job new_id now input (resolve resolver input.tasks)
  valid ← on_error invalid (validate definition)
  ordered ← on_error bad_order (validate_dependency_order definition.tasks)
  ok (definition, save_job definition jobs)

unfoldable pub get : Text → Map JobDefinition → Result JobflowError JobDefinition
get id jobs = found (get_job id jobs)
  where
    found : Option JobDefinition → Result JobflowError JobDefinition
    found none = err (not_found (text "JobDefinition") id)
    found (some d) = ok d

unfoldable pub list : Map JobDefinition → List JobDefinition
list jobs = list_jobs jobs
