-- ===== src/Query/Retention.antt =====
-- src/compliance/retention.ts: what is old enough to go. The date that lies a number of days back is
-- computed by the platform's `Date` and is a parameter.
pub mod Purging
use jobflow_project.Common.{Bool, List, Text, [], any, not, select, ℕ, ◌&&◌, ◌∷◌}
use jobflow_project.Domain.{WorkflowInstance, WorkflowState, state_eq}
use jobflow_project.Query.RunFilter.{text_before}

pub record RetentionPolicy : Type 0 where
  pub audit_days : ℕ
  pub workflow_days : ℕ
  pub dead_letter_days : ℕ

abbrev pub default_retention : RetentionPolicy
default_retention = record { audit_days = 90; workflow_days = 30; dead_letter_days = 180 }

-- The part of an audit record that is read.
pub record AuditRecord : Type 0 where
  pub id : Text
  pub at : Text

-- `isTerminal` of the enforcer, which counts a failed workflow.
unfoldable pub is_over : WorkflowState → Bool
is_over state =
    any (λ s. state_eq s state)
      (WorkflowState.completed ∷ WorkflowState.failed ∷ WorkflowState.cancelled
        ∷ WorkflowState.dead_lettered ∷ [])

module _ (cutoff_date : (now days : ℕ) → Text) where
  unfoldable pub filter_audit : RetentionPolicy → (now : ℕ) → List AuditRecord → List AuditRecord
  filter_audit policy now records =
      select (λ r. not (text_before r.at (cutoff_date now policy.audit_days))) records

  unfoldable pub should_purge_workflow :
      {D : Type 0} → RetentionPolicy → (now : ℕ) → WorkflowInstance D → Bool
  unfolding is_over
  should_purge_workflow policy now w =
      text_before w.updated_at (cutoff_date now policy.workflow_days) && is_over w.state
