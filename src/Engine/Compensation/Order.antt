-- ===== src/Engine/Compensation/Order.antt =====
-- Which tasks of a failed run are undone, in which order, and by which action.
use jobflow_project.Common.{
  Bool-cases, List, [], inl, inr, refl, sym, text, true_is_not_false, ◌++◌, ◌∙◌, ◌∷◌, ◌≡◌, ◌≢◌,
}
use jobflow_project.Domain.{TaskRun, TaskStatus, status_eq_iff}
use jobflow_project.Engine.Compensation.{CompensationStep, plan_failed_run, has_succeeded}
use mathlib.Core.List.{reverse-cons, map-append}

module _ {D : Type 0} where
  -- The steps that undo the tasks: one for each task that succeeded, which names its definition and
  -- rolls its handler back, behind the steps of all later tasks; none for any other task.
  pub data IsPlan : List (TaskRun D) → List CompensationStep → Type 0 where
    nothing_done : IsPlan [] []
    undone :
        {t : TaskRun D} {ts : List (TaskRun D)} {s : CompensationStep}
        {steps : List CompensationStep}
        → t.status ≡ TaskStatus.succeeded
        → s.task_id ≡ t.definition_task_id
        → s.action ≡ text "rollback." ++ t.handler
        → IsPlan ts steps
        → IsPlan (t ∷ ts) (steps ++ s ∷ [])
    left_alone :
        {t : TaskRun D} {ts : List (TaskRun D)} {steps : List CompensationStep}
        → t.status ≢ TaskStatus.succeeded
        → IsPlan ts steps
        → IsPlan (t ∷ ts) steps

  -- The plan for a failed run undoes exactly the tasks whose status is succeeded, each by one step with the
  -- id of its definition and the action `rollback.` of its handler, and the last of them first.
  pub plan_failed_run-IsPlan : (tasks : List (TaskRun D)) → IsPlan tasks (plan_failed_run tasks)
  unfolding plan_failed_run
  plan_failed_run-IsPlan [] = nothing_done
  plan_failed_run-IsPlan (t ∷ ts) = elim (Bool-cases (has_succeeded t)) [
    | inl e ↦
        rw (e, reverse-cons, map-append)
          (undone ((status_eq_iff t.status TaskStatus.succeeded).0 e) refl refl
            (plan_failed_run-IsPlan ts))
    | inr e ↦ rw e (
        left_alone
          (λ q. true_is_not_false (sym ((status_eq_iff t.status TaskStatus.succeeded).1 q) ∙ e))
          (plan_failed_run-IsPlan ts))
  ]
