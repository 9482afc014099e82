-- ===== src/Engine/Transitions.antt =====
-- src/validators/transition-validator.ts, src/engine/state-machine.ts and transition-guard.ts:
-- which transitions a workflow may take, and what one does to the instance.
pub mod Lifecycle
use jobflow_project.Common.{
  Bool, List, Option, Result, Text, [], any, err, if◌then◌else◌, includes, length, map, none, not,
  ok, select, text, text_eq, ◌&&◌, ◌++◌, ◌+◌, ◌==◌, ◌>>=◌, ◌>>◌, ◌||◌, ◌∷◌,
}
use jobflow_project.Domain.{
  JobflowError, TaskRun, TaskStatus, TransitionFault, TransitionRule, WorkflowInstance,
  WorkflowState, state_eq, status_eq, transition_error,
}
use jobflow_project.Domain.{waiting, pending, completed, cancelled, draft, dead_lettered}
use jobflow_project.Domain.{denied, no_failed_task, tasks_running}

unfoldable pub can_transition :
    List TransitionRule → (from to : WorkflowState) (event : Text) → Bool
can_transition rules from to event =
    any (λ r. state_eq r.from from && state_eq r.to to && text_eq r.event event) rules

unfoldable pub assert_transition :
    List TransitionRule → (from to : WorkflowState) (event : Text) → Result JobflowError (Unit {0})
unfolding can_transition
assert_transition rules from to event =
    if can_transition rules from to event
    then ok tt
    else err (transition_error (denied from to event))

-- `[...new Set(xs)]`: the first occurrence of each.
unfoldable pub dedupe_onto : List Text → List Text → List Text
dedupe_onto seen [] = seen
dedupe_onto seen (x ∷ xs) = dedupe_onto (if includes seen x then seen else seen ++ x ∷ []) xs

unfoldable pub allowed_events : List TransitionRule → WorkflowState → List Text
unfolding dedupe_onto
allowed_events rules from =
    dedupe_onto [] (map (λ r. r.event) (select (λ r. state_eq r.from from) rules))

abbrev rule : WorkflowState → WorkflowState → Text → TransitionRule
rule from to event = record { from = from; to = to; event = event; guard = none }

unfoldable pub default_transition_rules : List TransitionRule
default_transition_rules =
    rule draft pending (text "submit")
    ∷ rule pending WorkflowState.running (text "start")
    ∷ rule WorkflowState.running waiting (text "await")
    ∷ rule waiting WorkflowState.running (text "resume")
    ∷ rule WorkflowState.running completed (text "complete")
    ∷ rule WorkflowState.running WorkflowState.failed (text "fail")
    ∷ rule waiting WorkflowState.failed (text "fail")
    ∷ rule WorkflowState.failed WorkflowState.running (text "retry")
    ∷ rule WorkflowState.failed dead_lettered (text "dead_letter")
    ∷ rule pending cancelled (text "cancel")
    ∷ rule WorkflowState.running cancelled (text "cancel")
    ∷ []

unfoldable pub is_terminal : WorkflowState → Bool
is_terminal state =
    state_eq state completed || state_eq state cancelled || state_eq state dead_lettered

module _ {D : Type 0} where
  -- `at` and `updated_at` are the two readings of the clock.
  unfoldable pub transition :
      List TransitionRule
      → (at updated_at : Text) → WorkflowInstance D
      → (event : Text) (target : WorkflowState) (actor : Text) (note : Option Text)
      → Result JobflowError (WorkflowInstance D)
  unfolding assert_transition
  transition rules at updated_at w event target actor note = do
    assert_transition rules w.state target event
    ok (record w {
      state = target;
      history =
          w.history
          ++ record {
            at = at;
            from = w.state;
            to = target;
            event = event;
            actor = actor;
            note = note;
          }
            ∷ [];
      version = w.version + 1;
      updated_at = updated_at;
    })

  unfoldable pub is_incomplete : TaskRun D → Bool
  is_incomplete t =
      not (status_eq t.status TaskStatus.succeeded) && not (status_eq t.status TaskStatus.skipped)

  unfoldable pub assert_all_required_tasks_succeeded :
      List (TaskRun D) → Result JobflowError (Unit {0})
  unfolding is_incomplete
  assert_all_required_tasks_succeeded tasks =
      let incomplete = select is_incomplete tasks in
      if length incomplete == 0
      then ok tt
      else err (transition_error (TransitionFault.incomplete_tasks (length incomplete)))

  unfoldable pub guard_complete :
      WorkflowInstance D → Text → WorkflowState → Result JobflowError (Unit {0})
  unfolding assert_all_required_tasks_succeeded
  guard_complete w event target =
      if text_eq event (text "complete") && state_eq target completed
      then assert_all_required_tasks_succeeded w.tasks
      else ok tt

  unfoldable pub guard_retry :
      WorkflowInstance D → Text → WorkflowState → Result JobflowError (Unit {0})
  guard_retry w event target =
      if text_eq event (text "retry") && state_eq target WorkflowState.running
      then (if length (select (λ t. status_eq t.status TaskStatus.failed) w.tasks) == 0
          then err (transition_error no_failed_task)
          else ok tt)
      else ok tt

  unfoldable pub guard_cancel : WorkflowInstance D → Text → Result JobflowError (Unit {0})
  guard_cancel w event =
      if text_eq event (text "cancel") && state_eq w.state WorkflowState.running
      then (if any (λ t. status_eq t.status TaskStatus.running) w.tasks
          then err (transition_error tasks_running)
          else ok tt)
      else ok tt

  -- `TransitionGuard.evaluate`.
  unfoldable pub evaluate_guard :
      WorkflowInstance D → Text → WorkflowState → Result JobflowError (Unit {0})
  unfolding guard_complete guard_retry guard_cancel
  evaluate_guard w event target = do
    guard_complete w event target
    guard_retry w event target
    guard_cancel w event
