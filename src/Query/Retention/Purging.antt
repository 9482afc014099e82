-- ===== src/Query/Retention/Purging.antt =====
-- What is purged is not at work.
use jobflow_project.Common.{Text, arith, false, true, ℕ, ◌≡◌}
use jobflow_project.Domain.{WorkflowInstance, WorkflowState, state_eq}
use jobflow_project.Storage.Runs.{is_active}
use jobflow_project.Engine.Transitions.{is_terminal}
use jobflow_project.Query.RunFilter.{text_before}
use jobflow_project.Query.Retention.{RetentionPolicy, is_over, should_purge_workflow}

over_not_active : (s : WorkflowState) → is_over s ≡ true → is_active s ≡ false
unfolding is_over is_active state_eq
over_not_active s h = ground arith

over_covers : (s : WorkflowState) → is_terminal s ≡ true → is_over s ≡ true
unfolding is_over is_terminal state_eq
over_covers s h = ground arith

-- A workflow that is purged is in no state that the run store lists as active, and every workflow that
-- the state machine holds to be terminal is purged once it was last changed before the cutoff.
pub purged_not_active :
    (cutoff_date : (now days : ℕ) → Text) {D : Type 0} (policy : RetentionPolicy) (now : ℕ)
    (w : WorkflowInstance D)
    → (should_purge_workflow cutoff_date policy now w ≡ true → is_active w.state ≡ false)
      × (is_terminal w.state ≡ true
          → text_before w.updated_at (cutoff_date now policy.workflow_days) ≡ true
          → should_purge_workflow cutoff_date policy now w ≡ true)
unfolding should_purge_workflow
purged_not_active cutoff_date policy now w =
    ground (arith, over_not_active w.state, over_covers w.state)
