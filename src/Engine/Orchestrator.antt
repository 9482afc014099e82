-- ===== src/Engine/Orchestrator.antt =====
-- src/engine/orchestrator.ts: a transition is guarded, made, saved, copied to the run and emitted.
pub mod Applied
pub mod Sync
use jobflow_project.Common.{
  List, Option, Text, [], if◌then◌else◌, none, some, text, ℕ, ◌++◌, ◌+◌, ◌∷◌,
}
use jobflow_project.Domain.{
  DomainEvent, JobRun, TransitionRule, WorkflowInstance, WorkflowState, state_eq,
  workflow_transitioned,
}
use jobflow_project.Storage.Workflows
use jobflow_project.Storage.Runs.{save_run, get_run}
use jobflow_project.Engine.Transitions.{transition, is_terminal, evaluate_guard}
use jobflow_project.Engine.World.{
  World, Outcome, value, Action, pure, throw, lift, gets, modify, ◌>>=◌, ◌>>◌, and_then, read_clock,
}

module _ {D : Type 0} where
  unfoldable pub save_workflow : WorkflowInstance D → Action D (Unit {0})
  save_workflow w = modify (λ s. record s { workflows = Workflows.save w s.workflows })

  unfoldable pub store_run : JobRun D → Action D (Unit {0})
  store_run r = modify (λ s. record s { runs = save_run r s.runs })

  unfoldable pub emit : DomainEvent → Action D (Unit {0})
  emit e = modify (λ s. record s { events = s.events ++ e ∷ [] })

module _ {D : Type 0} (rules : List TransitionRule) (now_iso : ℕ → Text) where
  -- `run.status = target`, and `run.finishedAt` where the target is terminal.
  unfoldable pub update_run : Option (JobRun D) → WorkflowState → Action D (Unit {0})
  unfolding store_run read_clock
  update_run none target = pure tt
  update_run (some run) target =
      if is_terminal target
      then (do
        at ← read_clock now_iso
        store_run (record run { status = target; finished_at = some at }))
      else store_run (record run { status = target })

  unfoldable pub apply_transition :
      WorkflowInstance D
      → (event : Text) (target : WorkflowState) (actor : Text) → Action D (WorkflowInstance D)
  apply_transition instance_ event target actor = do
    lift (evaluate_guard instance_ event target)
    reads ← gets (λ s. s.reads)
    next ←
        lift
          (transition rules (now_iso reads) (now_iso (reads + 1)) instance_ event target actor none)
    modify (λ s. record s { reads = s.reads + 2 })
    save_workflow next
    run ← gets (λ s. get_run next.run_id s.runs)
    update_run run target
    at ← read_clock now_iso
    emit (workflow_transitioned next.run_id instance_.state target event at)
    pure next

  unfoldable pub start_run : WorkflowInstance D → Action D (WorkflowInstance D)
  start_run w =
      if state_eq w.state WorkflowState.pending
      then apply_transition w (text "start") WorkflowState.running (text "orchestrator")
      else pure w
