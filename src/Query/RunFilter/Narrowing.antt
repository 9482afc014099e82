-- ===== src/Query/RunFilter/Narrowing.antt =====
-- The runs of a job among those of a filter.
use jobflow_project.Common.{
  Bool, List, Map, Option-cases, Text, [], arith, false, inl, inr, refl, select, text_eq, values,
  ◌∷◌, ◌≡◌,
}
use jobflow_project.Domain.{JobRun}
use jobflow_project.Storage.Runs.{list_by_job}
use jobflow_project.Query.RunFilter.{RunFilter, matches, filter_runs, ended_after}

abbrev pub by_job : Text → RunFilter
by_job job_id = record { status = []; job_id = job_id; trigger_prefix = []; since = []; until = [] }

module _ {D : Type 0} where
  matches-by_job :
      (job_id : Text) (r : JobRun D)
      → text_eq job_id [] ≡ false
      → matches (by_job job_id) r ≡ text_eq r.job_id job_id
  unfolding matches text_eq ended_after
  matches-by_job job_id r h = elim (Option-cases r.finished_at) [
    | inl e ↦ rw e (ground arith)
    | inr (at, e) ↦ rw e (ground arith)
  ]

  select-same :
      (p q : JobRun D → Bool) (xs : List (JobRun D))
      → ((r : JobRun D) → p r ≡ q r)
      → select p xs ≡ select q xs
  select-same p q [] h = refl
  select-same p q (x ∷ xs) h = rw (h x, select-same p q xs h) refl

  -- A filter with nothing but the id of a job, not empty, gives the runs that the store lists for
  -- that job.
  pub filter_runs-list_by_job :
      (job_id : Text) (runs : Map (JobRun D))
      → text_eq job_id [] ≡ false
      → filter_runs (by_job job_id) (values runs) ≡ list_by_job job_id runs
  unfolding filter_runs list_by_job
  filter_runs-list_by_job job_id runs h =
      select-same (matches (by_job job_id)) (λ r. text_eq r.job_id job_id) (values runs)
        (λ r. matches-by_job job_id r h)
