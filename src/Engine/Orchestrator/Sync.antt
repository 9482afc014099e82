-- ===== src/Engine/Orchestrator/Sync.antt =====
-- The run record follows its workflow.
use jobflow_project.Common.{
  Bool, List, Option, Text, [], false, if◌then◌else◌, insert, lookup, lookup-insert_self, none,
  refl, some, subst, sym, true, ℕ, ◌∙◌, ◌≡◌, ◌≢◌,
}
use jobflow_project.Domain.{JobRun, JobflowError, TransitionRule, WorkflowInstance, WorkflowState}
use jobflow_project.Storage.Workflows
use jobflow_project.Storage.Workflows.{get_by_run_id-save}
use jobflow_project.Storage.Runs.{save_run, get_run}
use jobflow_project.Engine.World.{World, Outcome, value, threw}
use jobflow_project.Engine.Transitions.{is_terminal, can_transition}
use jobflow_project.Engine.Orchestrator.{apply_transition}
use jobflow_project.Engine.Orchestrator.Applied.{
  Transitioned, refused, applied, Applied, apply_transition-Transitioned,
}

abbrev pub is_some : {A : Type 0} → Option A → Bool
is_some none = false
is_some (some a) = true

module _ {D : Type 0} (rules : List TransitionRule) where
  -- The stored workflow and the stored run of `run_id` are both in state `target`, which the rules
  -- allow, and the run has finished if that is terminal.
  pub record InStep (from target : WorkflowState) (event run_id : Text) (s : World D) : Type 0 where
    pub allowed : can_transition rules from target event ≡ true
    pub workflow : WorkflowInstance D
    pub stored : Workflows.get_by_run_id run_id s.workflows ≡ some workflow
    pub workflow_state : workflow.state ≡ target
    pub run : JobRun D
    pub kept : get_run run_id s.runs ≡ some run
    pub run_status : run.status ≡ target
    pub finished : is_terminal target ≡ true → is_some run.finished_at ≡ true

  -- The way out by an error changes nothing, the other keeps workflow and run in step.
  pub data Kept (w : WorkflowInstance D) (event : Text) (target : WorkflowState) (s : World D)
      : Outcome (WorkflowInstance D) × World D → Type 0 where
    denied : (e : JobflowError) → Kept w event target s (threw e, s)
    moved :
        (w' : WorkflowInstance D) (s' : World D)
        → InStep w.state target event w.run_id s'
        → Kept w event target s (value w', s')

  module _ (now_iso : ℕ → Text) (w : WorkflowInstance D) (event : Text) (target : WorkflowState)
      (actor : Text) (s : World D) (run : JobRun D) (named : w.id ≢ [])
      (known : get_run w.run_id s.runs ≡ some run) (keyed : run.id ≡ w.run_id) where
    abbrev after : Bool → Text → JobRun D
    after b at =
        if b
        then record run { status = target; finished_at = some at }
        else record run { status = target }

    kept_run :
        (b : Bool) (at : Text) → get_run w.run_id (save_run (after b at) s.runs) ≡ some (after b at)
    unfolding get_run save_run
    kept_run true at =
        subst (λ k. lookup k (insert run.id (after true at) s.runs) ≡ some (after true at)) keyed
          (lookup-insert_self run.id (after true at) s.runs)
    kept_run false at =
        subst (λ k. lookup k (insert run.id (after false at) s.runs) ≡ some (after false at)) keyed
          (lookup-insert_self run.id (after false at) s.runs)

    status_after : (b : Bool) (at : Text) → (after b at).status ≡ target
    status_after true at = refl
    status_after false at = refl

    finished_after : (b : Bool) (at : Text) → b ≡ true → is_some (after b at).finished_at ≡ true
    finished_after true at h = refl
    finished_after false at h = cc

    Applied-InStep :
        (w' : WorkflowInstance D) (s' : World D)
        → Applied rules now_iso event target actor w s w' s'
        → InStep w.state target event w.run_id s'
    Applied-InStep w' s' a =
        let same = a.moved.run_id in
        let found : get_run w'.run_id s.runs ≡ some run = rw same known in
        let fresh : JobRun D =
          if is_terminal target
          then record run { status = target; finished_at = some a.at }
          else record run { status = target } in
        let runs : s'.runs ≡ save_run fresh s.runs = rw found at a.runs in
        record {
          allowed = a.moved.allowed;
          workflow = w';
          stored =
              subst (λ k. Workflows.get_by_run_id k s'.workflows ≡ some w') same
                (rw a.saved (get_by_run_id-save w' s.workflows (λ e. named (sym a.moved.id ∙ e))));
          workflow_state = a.moved.state;
          run = fresh;
          kept = rw runs (kept_run (is_terminal target) a.at);
          run_status = status_after (is_terminal target) a.at;
          finished = finished_after (is_terminal target) a.at;
        }

    -- For a workflow with an id that is not empty, whose run is stored under the id that it has: a
    -- transition is refused and changes nothing, or it is one that the rules allow and leaves the
    -- stored workflow and the stored run in the target state, with a finishing time if that is
    -- terminal.
    pub apply_transition-Kept :
        Kept w event target s (apply_transition rules now_iso w event target actor s)
    apply_transition-Kept = go (apply_transition-Transitioned rules now_iso w event target actor s)
      where
        go :
            {o : Outcome (WorkflowInstance D) × World D}
            → Transitioned rules now_iso w event target actor s o
            → Kept w event target s o
        go (refused e) = denied e
        go (applied w' s' a) = moved w' s' (Applied-InStep w' s' a)
