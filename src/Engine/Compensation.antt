-- ===== src/Engine/Compensation.antt =====
-- src/engine/compensation.ts: what would undo a failed run, the newest task first.
pub mod Order
use jobflow_project.Common.{Bool, List, Text, map, select, text, ◌++◌}
use jobflow_project.Domain.{TaskRun, TaskStatus, status_eq}
use mathlib.Core.List.{reverse}

pub record CompensationStep : Type 0 where
  pub task_id : Text
  pub action : Text

abbrev pub rollback : {D : Type 0} → TaskRun D → CompensationStep
rollback t = record { task_id = t.definition_task_id; action = text "rollback." ++ t.handler }

abbrev pub has_succeeded : {D : Type 0} → TaskRun D → Bool
has_succeeded t = status_eq t.status TaskStatus.succeeded

unfoldable pub plan_failed_run : {D : Type 0} → List (TaskRun D) → List CompensationStep
plan_failed_run tasks = map rollback (reverse (select has_succeeded tasks))
