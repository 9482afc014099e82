-- ===== src/Query/RunFilter.antt =====
-- src/query/run-filter.ts: `filterRuns`. A part of the filter that is missing or empty lets every run
-- through. Texts are compared by their code units.
pub mod Narrowing
use jobflow_project.Common.{
  Bool, List, Option, Text, [], any, false, if◌then◌else◌, ltb, none, not, select, some,
  starts_with, text_eq, true, ◌&&◌, ◌==◌, ◌||◌, ◌∷◌,
}
use jobflow_project.Domain.{JobRun, WorkflowState, state_eq}

pub record RunFilter : Type 0 where
  pub status : List WorkflowState
  pub job_id : Text
  pub trigger_prefix : Text
  pub since : Text
  pub until : Text

-- `<` on strings.
unfoldable pub text_before : Text → Text → Bool
text_before [] [] = false
text_before [] (y ∷ ys) = true
text_before (x ∷ xs) [] = false
text_before (x ∷ xs) (y ∷ ys) = ltb x y || (x == y && text_before xs ys)

abbrev pub is_set : Text → Bool
is_set t = not (text_eq t [])

-- `until && finishedAt && finishedAt > until`.
unfoldable pub ended_after : Text → Option Text → Bool
ended_after until none = false
ended_after until (some at) = is_set until && is_set at && text_before until at

abbrev pub lacks_status : List WorkflowState → WorkflowState → Bool
lacks_status [] s = false
lacks_status (x ∷ xs) s = not (any (λ y. state_eq y s) (x ∷ xs))

module _ {D : Type 0} where
  unfoldable pub matches : RunFilter → JobRun D → Bool
  unfolding text_before starts_with ended_after
  matches f r =
      if lacks_status f.status r.status
      then false
      else if is_set f.job_id && not (text_eq r.job_id f.job_id)
      then false
      else if is_set f.trigger_prefix && not (starts_with f.trigger_prefix r.trigger)
      then false
      else if is_set f.since && text_before r.started_at f.since
      then false
      else if ended_after f.until r.finished_at
      then false
      else true

  unfoldable pub filter_runs : RunFilter → List (JobRun D) → List (JobRun D)
  unfolding matches
  filter_runs f runs = select (matches f) runs
