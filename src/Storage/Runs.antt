-- ===== src/Storage/Runs.antt =====
-- src/storage/memory/run-store.ts, job-store.ts and dead-letter-store.ts.
use jobflow_project.Common.{
  Bool, List, Map, Option, Text, [], any, drop, erase, has, if◌then◌else◌, insert, length, lookup,
  select, text_eq, values, ℕ, ◌++◌, ◌-◌, ◌==◌, ◌∷◌,
}
use jobflow_project.Domain.{FailureReason, JobDefinition, JobRun, WorkflowState, state_eq}

unfoldable pub is_active : WorkflowState → Bool
is_active status =
    any (λ s. state_eq s status)
      (WorkflowState.pending ∷ WorkflowState.running ∷ WorkflowState.waiting ∷ [])

module _ {D : Type 0} where
  unfoldable pub save_run : JobRun D → Map (JobRun D) → Map (JobRun D)
  save_run run s = insert run.id run s

  unfoldable pub get_run : Text → Map (JobRun D) → Option (JobRun D)
  get_run id s = lookup id s

  unfoldable pub list_by_job : Text → Map (JobRun D) → List (JobRun D)
  list_by_job job_id s = select (λ r. text_eq r.job_id job_id) (values s)

  unfoldable pub list_active : Map (JobRun D) → List (JobRun D)
  unfolding is_active
  list_active s = select (λ r. is_active r.status) (values s)

unfoldable pub save_job : JobDefinition → Map JobDefinition → Map JobDefinition
save_job definition s = insert definition.id definition s

unfoldable pub get_job : Text → Map JobDefinition → Option JobDefinition
get_job id s = lookup id s

unfoldable pub list_jobs : Map JobDefinition → List JobDefinition
list_jobs s = values s

-- `map.delete` says whether the key was there.
unfoldable pub delete_job : Text → Map JobDefinition → Map JobDefinition × Bool
delete_job id s = (erase id s, has id s)

pub record DeadLetterEntry : Type 0 where
  pub run_id : Text
  pub reason : FailureReason
  pub workflow_id : Text
  pub at : Text

unfoldable pub push_dead_letter : DeadLetterEntry → List DeadLetterEntry → List DeadLetterEntry
push_dead_letter e entries = entries ++ e ∷ []

-- `entries.slice(-limit)`: the last `limit` of them, and all of them where `limit` is 0.
unfoldable pub list_dead_letters : ℕ → List DeadLetterEntry → List DeadLetterEntry
list_dead_letters limit entries =
    if limit == 0 then entries else drop (length entries - limit) entries
