-- ===== src/Persistence/Checkpoints.antt =====
-- src/persistence/checkpoint-store.ts, run-snapshot.ts and recovery-service.ts. The clock's reading is
-- an argument; logging is left out.
pub mod Recovery
use jobflow_project.Common.{
  Bool, List, Map, Option, Text, [], false, find, insert, length, lookup, none, some, true, ℕ, ◌++◌,
  ◌+◌, ◌==◌, ◌∷◌,
}
use jobflow_project.Domain.{WorkflowInstance}
use jobflow_project.Storage.Workflows
use jobflow_project.Storage.Workflows.{WorkflowStore}

pub record RunSnapshot (D : Type 0) : Type 0 where
  pub run_id : Text
  pub version : ℕ
  pub workflow : WorkflowInstance D
  pub captured_at : Text
  pub label : Option Text

abbrev pub last : {A : Type 0} → List A → Option A
last [] = none
last (x ∷ []) = some x
last (x ∷ y ∷ ys) = last (y ∷ ys)

module _ {D : Type 0} where
  abbrev pub or_empty : Option (List (RunSnapshot D)) → List (RunSnapshot D)
  or_empty none = []
  or_empty (some snaps) = snaps

  unfoldable pub list_checkpoints : Text → Map (List (RunSnapshot D)) → List (RunSnapshot D)
  list_checkpoints run_id snapshots = or_empty (lookup run_id snapshots)

  unfoldable pub save_checkpoint :
      RunSnapshot D → Map (List (RunSnapshot D)) → Map (List (RunSnapshot D))
  unfolding list_checkpoints
  save_checkpoint s snapshots =
      insert s.run_id (list_checkpoints s.run_id snapshots ++ s ∷ []) snapshots

  unfoldable pub latest : Text → Map (List (RunSnapshot D)) → Option (RunSnapshot D)
  unfolding list_checkpoints
  latest run_id snapshots = last (list_checkpoints run_id snapshots)

  -- `captureCheckpoint`.
  unfoldable pub capture :
      Text
      → WorkflowInstance D
      → Option Text
      → (at : Text) → Map (List (RunSnapshot D))
      → Map (List (RunSnapshot D))
  unfolding list_checkpoints save_checkpoint
  capture run_id workflow label at snapshots =
      save_checkpoint
        (record {
          run_id = run_id;
          version = length (list_checkpoints run_id snapshots) + 1;
          workflow = workflow;
          captured_at = at;
          label = label;
        })
        snapshots

  -- The snapshot that is asked for: the one of a version, or the last.
  unfoldable pub choose : Option ℕ → List (RunSnapshot D) → Option (RunSnapshot D)
  choose none snaps = last snaps
  choose (some version) snaps = find (λ s. s.version == version) snaps

  unfoldable pub put_back :
      (at : Text) → Option (RunSnapshot D) → WorkflowStore D → Bool × WorkflowStore D
  put_back at none store = (false, store)
  put_back at (some target) store =
      (true, Workflows.save (record target.workflow { updated_at = at }) store)

  -- `restoreToCheckpoint`: an empty list has neither a version nor a last entry.
  unfoldable pub restore :
      Text
      → Option ℕ
      → (at : Text) → Map (List (RunSnapshot D))
      → WorkflowStore D
      → Bool × WorkflowStore D
  unfolding list_checkpoints choose put_back
  restore run_id version at snapshots store =
      put_back at (choose version (list_checkpoints run_id snapshots)) store
