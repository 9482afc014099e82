-- ===== src/Engine/Orchestrator/Applied.antt =====
-- What an applied transition comes to.
use jobflow_project.Common.{
  Bool-cases, List, Option, Result, Text, [], arith, err, if◌then◌else◌, inl, inr, none, ok, refl,
  some, true, ℕ, ◌++◌, ◌+◌, ◌∷◌, ◌≡◌,
}
use jobflow_project.Domain.{
  JobRun, JobflowError, TransitionRule, WorkflowInstance, WorkflowState, workflow_transitioned,
}
use jobflow_project.Storage.Workflows
use jobflow_project.Storage.Runs.{save_run, get_run}
use jobflow_project.Engine.World.{World, Outcome, value, threw, read_clock}
use jobflow_project.Engine.Transitions.{transition, can_transition, evaluate_guard, is_terminal}
use jobflow_project.Engine.Orchestrator.{apply_transition, update_run, save_workflow, emit}

-- The parts of the state that a transition leaves alone.
pub record SameRest {D : Type 0} (s s' : World D) : Type 0 where
  pub jobs : s'.jobs ≡ s.jobs
  pub dead_letters : s'.dead_letters ≡ s.dead_letters
  pub local_locks : s'.local_locks ≡ s.local_locks
  pub run_locks : s'.run_locks ≡ s.run_locks
  pub calls : s'.calls ≡ s.calls

-- The instance that a transition gives.
pub record Moved {D : Type 0} (rules : List TransitionRule) (event : Text) (target : WorkflowState)
    (actor : Text) (w w' : WorkflowInstance D) : Type 0 where
  pub allowed : can_transition rules w.state target event ≡ true
  pub tasks : w'.tasks ≡ w.tasks
  pub state : w'.state ≡ target
  pub id : w'.id ≡ w.id
  pub run_id : w'.run_id ≡ w.run_id
  pub version : w'.version ≡ w.version + 1
  pub at : Text
  pub history :
      w'.history
      ≡ w.history
        ++ record {
          at = at;
          from = w.state;
          to = target;
          event = event;
          actor = actor;
          note = none;
        }
          ∷ []

-- The run's record after the transition.
abbrev pub marked : {D : Type 0} → Text → WorkflowState → Option (JobRun D) → Option (JobRun D)
marked at target none = none
marked at target (some run) = some (
    if is_terminal target
    then record run { status = target; finished_at = some at }
    else record run { status = target })

module _ {D : Type 0} (rules : List TransitionRule) (now_iso : ℕ → Text) where
  transition-Moved :
      (at at' : Text) (w w' : WorkflowInstance D) (event : Text) (target : WorkflowState)
      (actor : Text)
      → transition rules at at' w event target actor none ≡ ok w'
      → Moved rules event target actor w w'
  unfolding transition
  transition-Moved at at' w w' event target actor h = record {
    allowed = ground arith;
    tasks = ground arith;
    state = ground arith;
    id = ground arith;
    run_id = ground arith;
    version = ground arith;
    at = at;
    history = ground arith;
  }

  pub record Applied (event : Text) (target : WorkflowState) (actor : Text) (w : WorkflowInstance D)
      (s : World D) (w' : WorkflowInstance D) (s' : World D) : Type 0 where
    pub guarded : evaluate_guard w event target ≡ ok tt
    pub moved : Moved rules event target actor w w'
    pub rest : SameRest s s'
    pub saved : s'.workflows ≡ Workflows.save w' s.workflows
    pub at : Text
    pub runs : s'.runs ≡ elim (marked at target (get_run w'.run_id s.runs)) [
      | none ↦ s.runs
      | some r ↦ save_run r s.runs
    ]

  abbrev Ran : Option (JobRun D) → WorkflowState → World D → World D → Type 0
  Ran o target s s' =
      (at : Text) × SameRest s s'
      × (s'.workflows ≡ s.workflows)
      × (s'.runs ≡ elim (marked at target o) [ none ↦ s.runs | some r ↦ save_run r s.runs ])

  update_run-Ran :
      (o : Option (JobRun D)) (target : WorkflowState) (s : World D)
      → (s' : World D) × (update_run rules now_iso o target s ≡ (value tt, s')) × Ran o target s s'
  unfolding update_run
  update_run-Ran none target s = (s, refl, ([], unchanged, refl, refl))
    where
      unchanged : SameRest s s
      unchanged = record {
        jobs = refl;
        dead_letters = refl;
        local_locks = refl;
        run_locks = refl;
        calls = refl;
      }
  update_run-Ran (some run) target s = elim (Bool-cases (is_terminal target)) [
    | inl t ↦
        let run' : JobRun D = record run {
          status = target;
          finished_at = some (now_iso s.reads);
        } in
        let s' : World D = record s { runs = save_run run' s.runs; reads = s.reads + 1 } in
        (
          s',
          rw t refl,
          (
            now_iso s.reads,
            record {
              jobs = refl;
              dead_letters = refl;
              local_locks = refl;
              run_locks = refl;
              calls = refl;
            },
            refl,
            rw t refl,
          ),
        )
    | inr f ↦
        let run' : JobRun D = record run { status = target } in
        let s' : World D = record s { runs = save_run run' s.runs } in
        (
          s',
          rw f refl,
          (
            [],
            record {
              jobs = refl;
              dead_letters = refl;
              local_locks = refl;
              run_locks = refl;
              calls = refl;
            },
            refl,
            rw f refl,
          ),
        )
  ]

  module _ (w : WorkflowInstance D) (event : Text) (target : WorkflowState) (actor : Text)
      (s : World D) where
    -- How a transition ends: it is refused and changes nothing, or it is applied.
    pub data Transitioned : Outcome (WorkflowInstance D) × World D → Type 0 where
      refused : (e : JobflowError) → Transitioned (threw e, s)
      applied :
          (w' : WorkflowInstance D) (s' : World D)
          → Applied event target actor w s w' s'
          → Transitioned (value w', s')

    after_moves :
        (w' : WorkflowInstance D)
        → evaluate_guard w event target ≡ ok tt
        → transition rules (now_iso s.reads) (now_iso (s.reads + 1)) w event target actor none
          ≡ ok w'
        → Transitioned (apply_transition rules now_iso w event target actor s)
    unfolding apply_transition save_workflow emit read_clock
    after_moves w' g t =
        let s₁ : World D = record s {
          workflows = Workflows.save w' s.workflows;
          reads = s.reads + 2;
        } in
        let (s₂, ran, (at, rest, workflows, runs)) =
          update_run-Ran (get_run w'.run_id s.runs) target s₁ in
        let s₃ : World D = record s₂ {
          reads = s₂.reads + 1;
          events =
              s₂.events
              ++ workflow_transitioned w'.run_id w.state target event (now_iso s₂.reads) ∷ [];
        } in
        rw g (
          rw t (
            rw ran (
              applied w' s₃ (record {
                guarded = g;
                moved =
                    transition-Moved (now_iso s.reads) (now_iso (s.reads + 1)) w w' event target
                      actor t;
                rest = record {
                  jobs = rest.jobs;
                  dead_letters = rest.dead_letters;
                  local_locks = rest.local_locks;
                  run_locks = rest.run_locks;
                  calls = rest.calls;
                };
                saved = workflows;
                at = at;
                runs = runs;
              }))))

    pub apply_transition-Transitioned :
        Transitioned (apply_transition rules now_iso w event target actor s)
    unfolding apply_transition
    apply_transition-Transitioned =
        go (evaluate_guard w event target) refl
          (transition rules (now_iso s.reads) (now_iso (s.reads + 1)) w event target actor none)
          refl
      where
        go :
            (g : Result JobflowError (Unit {0}))
            → evaluate_guard w event target ≡ g
            → (t : Result JobflowError (WorkflowInstance D))
            → transition rules (now_iso s.reads) (now_iso (s.reads + 1)) w event target actor none
              ≡ t
            → Transitioned (apply_transition rules now_iso w event target actor s)
        go (err e) eg t et = rw eg (refused e)
        go (ok tt) eg (err e) et = rw eg (rw et (refused e))
        go (ok tt) eg (ok w') et = after_moves w' eg et
