-- ===== src/Engine/Transitions/Lifecycle.antt =====
-- The life of a workflow under the default rules, and the trace that its instance keeps.
use jobflow_project.Common.{
  All, Bool, Bool-cases, List, Option, Result, Text, [], any, arith, err, err_is_not_ok, false,
  if◌then◌else◌, inl, inr, length, length-append, ok, refl, select, subst, suc, sym, text, text_eq,
  text_eq_iff, true, true_is_not_false, ◌&&◌, ◌++◌, ◌+◌, ◌==◌, ◌>>◌, ◌↔◌, ◌∙◌, ◌∷◌, ◌≡◌, ◌≢◌, ◌⊎◌,
}
use jobflow_project.Domain.{
  JobflowError, TaskRun, TaskStatus, TransitionRule, WorkflowHistoryEntry, WorkflowInstance,
  WorkflowState, state_eq, state_eq_iff, status_eq, status_eq_iff, transition_error,
}
use jobflow_project.Domain.{completed, no_failed_task, tasks_running}
use jobflow_project.Engine.Transitions.{
  can_transition, default_transition_rules, is_terminal, transition, evaluate_guard, is_incomplete,
  guard_complete, guard_retry, guard_cancel, assert_all_required_tasks_succeeded,
}

-- A chain of transitions that the default rules allow, with their events.
pub data Reach (from : WorkflowState) : WorkflowState → Type 0 where
  here : Reach from from
  next :
      {mid to : WorkflowState} (event : Text)
      → Reach from mid
      → can_transition default_transition_rules mid to event ≡ true
      → Reach from to

leaves_terminal :
    (from to : WorkflowState) (event : Text)
    → is_terminal from ≡ true
    → can_transition default_transition_rules from to event ≡ true
    → ⊥
unfolding can_transition default_transition_rules is_terminal state_eq
leaves_terminal from to event t h = ground arith

-- By the default rules a terminal state is never left: what is reached from it is itself.
pub Reach-terminal : (from to : WorkflowState) → is_terminal from ≡ true → Reach from to → to ≡ from
Reach-terminal from _ t here = refl
Reach-terminal from _ t (next {mid} {to} event r step) =
    let same = Reach-terminal from mid t r in absurd (leaves_terminal mid to event (rw same t) step)

-- The states that a workflow passes through, each entry beginning where the one before it ended.
abbrev pub Linked : WorkflowState → List WorkflowHistoryEntry → WorkflowState → Type 0
Linked s [] t = s ≡ t
Linked s (e ∷ es) t = (e.from ≡ s) × Linked e.to es t

Linked-snoc :
    (s t : WorkflowState) (es : List WorkflowHistoryEntry) (e : WorkflowHistoryEntry)
    → Linked s es t
    → e.from ≡ t
    → Linked s (es ++ e ∷ []) e.to
Linked-snoc s t [] e h p = (p ∙ sym h, refl)
Linked-snoc s t (d ∷ ds) e h p = (h.0, Linked-snoc d.to t ds e h.1 p)

empty_of_length : {A : Type 0} (xs : List A) → (length xs == 0) ≡ true → xs ≡ []
empty_of_length [] h = refl
empty_of_length (x ∷ xs) h = ground arith

both_ok : (a b : Result JobflowError (Unit {0})) → ((a >> b) ≡ ok tt) ↔ ((a ≡ ok tt) × (b ≡ ok tt))
both_ok (ok u) b = (λ h. (refl, h), λ h. h.1)
both_ok (err e) b = (λ h. absurd (err_is_not_ok h), λ h. absurd (err_is_not_ok h.0))

-- A test behind two conditions lets through what does not meet both, and what passes it.
demanded :
    (a b : Bool) (r s : Result JobflowError (Unit {0})) {P Q R : Type 0}
    → (a ≡ true) ↔ P
    → (b ≡ true) ↔ Q
    → (r ≡ ok tt) ↔ R
    → s ≡ ok tt
    → ((if a && b then r else s) ≡ ok tt) ↔ (P → Q → R)
demanded false b r s p q k o = (λ h x. absurd (true_is_not_false (sym (p.1 x))), λ h. o)
demanded true false r s p q k o = (λ h x y. absurd (true_is_not_false (sym (q.1 y))), λ h. o)
demanded true true r s p q k o = (λ h x y. k.0 h, λ h. k.1 (h (p.0 refl) (q.0 refl)))

true_to_pass :
    (c : Bool) (e : JobflowError) {R : Type 0}
    → (c ≡ true) ↔ R
    → ((if c then ok (tt {0}) else err e) ≡ ok (tt {0})) ↔ R
true_to_pass true e k = (λ h. k.0 refl, λ h. refl)
true_to_pass false e k =
    (λ h. absurd (err_is_not_ok h), λ h. absurd (true_is_not_false (sym (k.1 h))))

false_to_pass :
    (c : Bool) (e : JobflowError) {R : Type 0}
    → (c ≡ false) ↔ R
    → ((if c then err e else ok (tt {0})) ≡ ok (tt {0})) ↔ R
false_to_pass false e k = (λ h. k.0 refl, λ h. refl)
false_to_pass true e k = (λ h. absurd (err_is_not_ok h), λ h. absurd (true_is_not_false (k.1 h)))

module _ {D : Type 0} where
  -- The history leads from `start` to the present state, by as many steps as the version counts.
  pub record IsTraced (start : WorkflowState) (w : WorkflowInstance D) : Type 0 where
    pub linked : Linked start w.history w.state
    pub counted : w.version ≡ suc (length w.history)

  -- A transition that is made, by any rules, keeps the trace of an instance: its history leads from
  -- the first state to the present one, and the version counts its entries.
  pub transition-IsTraced :
      (rules : List TransitionRule) (at updated_at : Text) (w w' : WorkflowInstance D)
      (event : Text) (target : WorkflowState) (actor : Text) (memo : Option Text)
      (start : WorkflowState)
      → transition rules at updated_at w event target actor memo ≡ ok w'
      → IsTraced start w
      → IsTraced start w'
  unfolding transition
  transition-IsTraced rules at updated_at w w' event target actor memo start h t =
      elim (Bool-cases (can_transition rules w.state target event)) [
        | inr n ↦ let refused = rw n at h in cc
        | inl y ↦
            let entry : WorkflowHistoryEntry = record {
              at = at;
              from = w.state;
              to = target;
              event = event;
              actor = actor;
              note = memo;
            } in
            let moved : WorkflowInstance D = record w {
              state = target;
              history = w.history ++ entry ∷ [];
              version = w.version + 1;
              updated_at = updated_at;
            } in
            let same : moved ≡ w' = cc (rw y at h) in
            subst (IsTraced start) same (record {
              linked = Linked-snoc start w.state w.history entry t.linked refl;
              counted = omega (arith, t.counted, length-append w.history (entry ∷ []));
            })
      ]

  -- A task of the list has this status.
  unfoldable pub Some : TaskStatus → List (TaskRun D) → Type 0
  Some status [] = ⊥
  Some status (t ∷ ts) = (t.status ≡ status) ⊎ Some status ts

  -- What an event asks of the instance: completion, that every task succeeded or was skipped; a retry,
  -- that a task failed; the cancellation of a running run, that no task is running.
  pub record Fit (w : WorkflowInstance D) (event : Text) (target : WorkflowState) : Type 0 where
    pub complete_done :
        event ≡ text "complete"
        → target ≡ completed
        → All (λ t. (t.status ≡ TaskStatus.succeeded) ⊎ (t.status ≡ TaskStatus.skipped)) w.tasks
    pub retry_failed :
        event ≡ text "retry" → target ≡ WorkflowState.running → Some TaskStatus.failed w.tasks
    pub cancel_idle :
        event ≡ text "cancel"
        → w.state ≡ WorkflowState.running
        → All (λ t. t.status ≢ TaskStatus.running) w.tasks

  complete_iff :
      (ts : List (TaskRun D))
      → ((length (select is_incomplete ts) == 0) ≡ true)
        ↔ All (λ t. (t.status ≡ TaskStatus.succeeded) ⊎ (t.status ≡ TaskStatus.skipped)) ts
  unfolding is_incomplete
  complete_iff [] = (λ h. tt, λ a. refl)
  complete_iff (t ∷ ts) = ground (
    arith,
    complete_iff ts,
    status_eq_iff t.status TaskStatus.succeeded,
    status_eq_iff t.status TaskStatus.skipped,
  )

  failed_iff :
      (ts : List (TaskRun D))
      → ((length (select (λ t. status_eq t.status TaskStatus.failed) ts) == 0) ≡ false)
        ↔ Some TaskStatus.failed ts
  unfolding Some
  failed_iff [] = (λ h. absurd (true_is_not_false h), λ a. absurd a)
  failed_iff (t ∷ ts) = ground (arith, failed_iff ts, status_eq_iff t.status TaskStatus.failed)

  idle_iff :
      (ts : List (TaskRun D))
      → (any (λ t. status_eq t.status TaskStatus.running) ts ≡ false)
        ↔ All (λ t. t.status ≢ TaskStatus.running) ts
  idle_iff [] = (λ h. tt, λ a. refl)
  idle_iff (t ∷ ts) = ground (arith, idle_iff ts, status_eq_iff t.status TaskStatus.running)

  -- The guard lets an event through exactly where the instance is fit for it: completion where every
  -- task succeeded or was skipped, a retry where a task failed, the cancellation of a running run where no
  -- task is running, and every other event always.
  pub evaluate_guard_iff :
      (w : WorkflowInstance D) (event : Text) (target : WorkflowState)
      → (evaluate_guard w event target ≡ ok tt) ↔ Fit w event target
  unfolding evaluate_guard guard_complete guard_retry guard_cancel
      assert_all_required_tasks_succeeded
  evaluate_guard_iff w event target =
      let ending =
        demanded (text_eq event (text "complete")) (state_eq target completed)
          (assert_all_required_tasks_succeeded w.tasks) (ok tt)
          (text_eq_iff event (text "complete")) (state_eq_iff target completed)
          (true_to_pass _ _ (complete_iff w.tasks)) refl in
      let again =
        demanded (text_eq event (text "retry")) (state_eq target WorkflowState.running) _ (ok tt)
          (text_eq_iff event (text "retry")) (state_eq_iff target WorkflowState.running)
          (false_to_pass _ (transition_error no_failed_task) (failed_iff w.tasks)) refl in
      let halt =
        demanded (text_eq event (text "cancel")) (state_eq w.state WorkflowState.running) _ (ok tt)
          (text_eq_iff event (text "cancel")) (state_eq_iff w.state WorkflowState.running)
          (false_to_pass _ (transition_error tasks_running) (idle_iff w.tasks)) refl in
      let first =
        both_ok (guard_complete w event target)
          (guard_retry w event target >> guard_cancel w event) in
      let later = both_ok (guard_retry w event target) (guard_cancel w event) in
      (
        λ h.
            let parts = first.0 h in
            let rest = later.0 parts.1 in
            record {
              complete_done = ending.0 parts.0;
              retry_failed = again.0 rest.0;
              cancel_idle = halt.0 rest.1;
            },
        λ f.
            first.1
              (ending.1 f.complete_done, later.1 (again.1 f.retry_failed, halt.1 f.cancel_idle)),
      )
