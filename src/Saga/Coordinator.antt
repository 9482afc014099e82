-- ===== src/Saga/Coordinator.antt =====
-- src/saga/saga-coordinator.ts. The handlers are a parameter: which names are registered, and what
-- the n-th call of one comes to. Logging is left out.
pub mod Undo
pub mod Calls
use jobflow_project.Common.{
  Bool, List, Map, Option, Result, Text, [], any, err, false, find, if◌then◌else◌, insert, length,
  lookup, none, ok, some, suc, text, text_eq, true, ℕ, ◌&&◌, ◌++◌, ◌∷◌,
}
use jobflow_project.Saga.Types.{
  SagaStepStatus, SagaStepDefinition, SagaStepState, SagaStatus, SagaInstance, SagaDefinition,
}
use jobflow_project.Saga.Stack.{CompensationStack, push, to_compensate_order}

-- A handler's result, or what it threw.
pub data Called (D : Type 0) : Type 0 where
  returned : (success : Bool) (output : Option D) → Called D
  threw : (message : Text) → Called D

-- One call of a handler.
pub record HandlerCall (D : Type 0) : Type 0 where
  pub handler : Text
  pub task_id : Text
  pub input : D
  pub prior_outputs : Map D

pub record Handlers (D : Type 0) : Type 0 where
  pub registered : Text → Bool
  pub execute : ℕ → HandlerCall D → Called D
  -- `String(output?.error ?? "step failed")`, and `{}`.
  pub error_of : Option D → Text
  pub empty : D
  pub now_iso : ℕ → Text

-- The calls made so far, and how often the clock was read.
pub record SagaWorld (D : Type 0) : Type 0 where
  pub calls : List (HandlerCall D)
  pub readings : ℕ

pub data StepEnd (D : Type 0) : Type 0 where
  step_done : SagaStepState D → (prior_outputs : Map D) → SagaWorld D → StepEnd D
  step_failed : SagaStepState D → SagaWorld D → StepEnd D

pub data SagaError : Type 0 where
  unknown_definition : Text → SagaError
  no_such_step : SagaError

module _ {D : Type 0} where
  abbrev pub or_else : D → Option D → D
  or_else d none = d
  or_else d (some x) = x

  -- The first step with the given id takes the status.
  unfoldable pub set_status :
      Text → SagaStepStatus → List (SagaStepState D) → List (SagaStepState D)
  set_status id status [] = []
  set_status id status (s ∷ ss) =
      if text_eq s.step_id id
      then record s { status = status } ∷ ss
      else s ∷ set_status id status ss

  abbrev pub has_step : Text → List (SagaStepState D) → Bool
  has_step id steps = any (λ s. text_eq s.step_id id) steps

  module _ (h : Handlers D) where
    -- The call, and the world that remembers it.
    unfoldable pub call_handler : HandlerCall D → SagaWorld D → Called D × SagaWorld D
    call_handler c w = (h.execute (length w.calls) c, record w { calls = w.calls ++ c ∷ [] })

    unfoldable pub read_clock : SagaWorld D → Text × SagaWorld D
    read_clock w = (h.now_iso w.readings, record w { readings = suc w.readings })

    -- The status of a step whose compensation was called; what the handler returned is not read.
    unfoldable pub after_compensation : Called D → SagaStepStatus
    after_compensation (returned success output) = SagaStepStatus.compensated
    after_compensation (threw message) = SagaStepStatus.compensating

    -- A name that is empty counts as none.
    unfoldable pub undo_with :
        Text → SagaStepDefinition → (present : Bool) → SagaStepState D → Option (HandlerCall D)
    undo_with handler def present done =
        if text_eq handler []
        then none
        else if h.registered handler && present
        then some (record {
          handler = handler;
          task_id = def.id;
          input = or_else h.empty done.output;
          prior_outputs = [];
        })
        else none

    -- The call that undoes a step, if there is one to be made. `present`: the instance has the step.
    unfoldable pub compensation_call :
        List SagaStepDefinition → (present : Bool) → SagaStepState D → Option (HandlerCall D)
    unfolding undo_with
    compensation_call defs present done = found (find (λ s. text_eq s.id done.step_id) defs)
      where
        named : SagaStepDefinition → Option Text → Option (HandlerCall D)
        named def none = none
        named def (some handler) = undo_with handler def present done

        found : Option SagaStepDefinition → Option (HandlerCall D)
        found none = none
        found (some def) = named def def.compensate

    unfoldable pub compensate_step :
        Option (HandlerCall D)
        → Text
        → List (SagaStepState D)
        → SagaWorld D
        → List (SagaStepState D) × SagaWorld D
    unfolding call_handler after_compensation
    compensate_step none id steps w = (steps, w)
    compensate_step (some c) id steps w =
        let (answer, w') = call_handler c w in
        (
          set_status id (after_compensation answer)
              (set_status id SagaStepStatus.compensating steps),
          w',
        )

    -- The loop of `compensate`.
    unfoldable pub compensate_all :
        List SagaStepDefinition
        → List (SagaStepState D)
        → List (SagaStepState D)
        → SagaWorld D
        → List (SagaStepState D) × SagaWorld D
    unfolding compensate_step
    compensate_all defs [] steps w = (steps, w)
    compensate_all defs (done ∷ order) steps w =
        let (steps', w') =
          compensate_step (compensation_call defs (has_step done.step_id steps) done) done.step_id
            steps w in
        compensate_all defs order steps' w'

    unfoldable pub compensate :
        List SagaStepDefinition
        → CompensationStack D
        → SagaInstance D
        → SagaWorld D
        → SagaInstance D × SagaWorld D
    unfolding compensate_all to_compensate_order
    compensate defs stack saga w =
        let (steps, w') = compensate_all defs (to_compensate_order stack) saga.steps w in
        (record saga { steps = steps; status = SagaStatus.compensated }, w')

    -- `persist`, without the map of instances.
    unfoldable pub persist : SagaInstance D → SagaWorld D → SagaInstance D × SagaWorld D
    unfolding read_clock
    persist saga w = let (at, w') = read_clock w in (record saga { updated_at = at }, w')

    -- A step has failed: the step's new state is in the instance already.
    unfoldable pub fail_saga :
        List SagaStepDefinition
        → CompensationStack D
        → SagaInstance D
        → SagaWorld D
        → SagaInstance D × SagaWorld D
    unfolding compensate persist
    fail_saga defs stack saga w =
        let (undone, w') = compensate defs stack (record saga { status = SagaStatus.failed }) w in
        persist undone w'

    unfoldable pub begin_step : SagaStepState D → SagaWorld D → SagaStepState D × SagaWorld D
    unfolding read_clock
    begin_step state w =
        let (at, w') = read_clock w in
        (
          record state {
            status = SagaStepStatus.running;
            attempt = suc state.attempt;
            started_at = some at;
          },
          w',
        )

    abbrev pub fail_step : Text → SagaStepState D → SagaStepState D
    fail_step message state = record state { status = SagaStepStatus.failed; error = some message }

    unfoldable pub finish_step :
        SagaStepDefinition → SagaStepState D → Called D → Map D → SagaWorld D → StepEnd D
    unfolding read_clock
    finish_step def state (threw message) prior w = step_failed (fail_step message state) w
    finish_step def state (returned false output) prior w =
        step_failed (fail_step (h.error_of output) state) w
    finish_step def state (returned true output) prior w =
        let (at, w') = read_clock w in
        step_done
          (record state {
            status = SagaStepStatus.completed;
            output = output;
            finished_at = some at;
          })
          (insert def.id (or_else h.empty output) prior) w'

    -- One round of the loop of `executeForward`.
    unfoldable pub run_step :
        SagaStepDefinition → D → SagaStepState D → Map D → SagaWorld D → StepEnd D
    unfolding begin_step call_handler finish_step
    run_step def input state prior w =
        let (begun, w') = begin_step state w in
        if h.registered def.forward
        then (let (answer, w'') =
              call_handler
                (record {
                  handler = def.forward;
                  task_id = def.id;
                  input = input;
                  prior_outputs = prior;
                })
                w' in
            finish_step def begun answer prior w'')
        else step_failed (fail_step (text "no handler for " ++ def.forward) begun) w'

    -- `executeForward` from the step after `before` on. A definition with more steps than the instance
    -- reads a property of `undefined`.
    unfoldable pub forward_from :
        List SagaStepDefinition
        → D
        → SagaInstance D
        → (todo : List SagaStepDefinition) (before states : List (SagaStepState D))
        → CompensationStack D
        → Map D
        → SagaWorld D
        → Result SagaError (SagaInstance D × SagaWorld D)
    unfolding run_step persist fail_saga push
    forward_from defs input i [] before states stack prior w =
        ok (persist (record i { steps = before ++ states; status = SagaStatus.completed }) w)
    forward_from defs input i (def ∷ todo) before [] stack prior w = err no_such_step
    forward_from defs input i (def ∷ todo) before (state ∷ states) stack prior w =
        elim (run_step def input state prior w) [
          | step_done s prior' w' ↦
              forward_from defs input i todo (before ++ s ∷ []) states (push s stack) prior' w'
          | step_failed s w' ↦
              ok (fail_saga defs stack (record i { steps = before ++ s ∷ states }) w')
        ]

    unfoldable pub execute_forward :
        SagaInstance D
        → SagaDefinition
        → D
        → SagaWorld D
        → Result SagaError (SagaInstance D × SagaWorld D)
    unfolding forward_from
    execute_forward i def input w = forward_from def.steps input i def.steps [] i.steps [] [] w

    unfoldable pub new_steps : List SagaStepDefinition → List (SagaStepState D)
    new_steps [] = []
    new_steps (def ∷ defs) =
        record {
          step_id = def.id;
          status = SagaStepStatus.pending;
          attempt = 0;
          output = none;
          error = none;
          started_at = none;
          finished_at = none;
        }
        ∷ new_steps defs

    -- `start`, with the new run's id.
    unfoldable pub start :
        Map SagaDefinition
        → (run_id definition_id : Text) → D
        → SagaWorld D
        → Result SagaError (SagaInstance D × SagaWorld D)
    unfolding read_clock new_steps execute_forward
    start definitions run_id definition_id input w = begin (lookup definition_id definitions)
      where
        begin : Option SagaDefinition → Result SagaError (SagaInstance D × SagaWorld D)
        begin none = err (unknown_definition definition_id)
        begin (some def) =
            let (created, w1) = read_clock w in
            let (updated, w2) = read_clock w1 in
            execute_forward
              (record {
                id = text "saga_" ++ run_id;
                run_id = run_id;
                definition_id = definition_id;
                steps = new_steps def.steps;
                status = SagaStatus.active;
                created_at = created;
                updated_at = updated;
              })
              def input w2
