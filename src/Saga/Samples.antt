-- ===== src/Saga/Samples.antt =====
-- A saga of three steps whose last fails.
use jobflow_project.Common.{
  List, Result, Text, [], err, false, if◌then◌else◌, insert, lookup, map, none, ok, refl, some,
  text, text_eq, true, ℕ, ◌++◌, ◌==◌, ◌∷◌, ◌≡◌,
}
use jobflow_project.Saga.Types.{
  SagaStepStatus, SagaStepDefinition, SagaStepState, SagaStatus, SagaInstance, SagaDefinition,
  is_completed,
}
use jobflow_project.Saga.Stack.{push, to_compensate_order, reverse_onto}
use jobflow_project.Saga.Coordinator.{
  returned, HandlerCall, Handlers, SagaWorld, SagaError, compensate, execute_forward, new_steps,
  start, compensate_all, compensate_step, fail_saga, forward_from, run_step, finish_step,
  begin_step, read_clock, persist, set_status, compensation_call, undo_with, after_compensation,
  call_handler, Undo.Undone, Calls.compensate-calls, Calls.execute_forward-Settled, Calls.Settled,
}
use mathlib.Core.List.{reverse}

abbrev step : Text → SagaStepDefinition
step name = record {
  id = name;
  name = name;
  forward = text "do";
  compensate = some (text "undo");
  timeout_ms = 5;
}

abbrev trip : SagaDefinition
trip = record {
  id = text "trip";
  name = text "trip";
  steps = step (text "a") ∷ step (text "b") ∷ step (text "c") ∷ [];
}

-- The third call of all fails.
abbrev handlers : Handlers ℕ
handlers = record {
  registered = λ name. true;
  execute = λ n c. if n == 2 then returned false none else returned true (some n);
  error_of = λ output. [];
  empty = 0;
  now_iso = λ n. [];
}

abbrev at_rest : SagaWorld ℕ
at_rest = record { calls = []; readings = 0 }

abbrev begun : SagaInstance ℕ
begun = record {
  id = text "saga_r";
  run_id = text "r";
  definition_id = text "trip";
  steps = new_steps handlers trip.steps;
  status = SagaStatus.active;
  created_at = [];
  updated_at = [];
}

program : Unit {0}
unfolding compensate execute_forward new_steps start compensate_all compensate_step fail_saga
    forward_from run_step finish_step begin_step read_clock persist set_status compensation_call
    undo_with after_compensation call_handler push to_compensate_order reverse_onto is_completed
    text_eq lookup insert
program = tt

abbrev task_calls : Result SagaError (SagaInstance ℕ × SagaWorld ℕ) → List (Text × Text)
task_calls (ok r) = map (λ (c : HandlerCall ℕ). (c.handler, c.task_id)) r.1.calls
task_calls (err e) = []

undoes_in_reverse :
    task_calls (start handlers ((text "trip", trip) ∷ []) (text "r") (text "trip") 0 at_rest)
    ≡ (text "do", text "a")
      ∷ (text "do", text "b")
      ∷ (text "do", text "c")
      ∷ (text "undo", text "b")
      ∷ (text "undo", text "a")
      ∷ []
unfolding program
undoes_in_reverse = refl

execute_forward-Settled_example :
    (r : SagaInstance ℕ × SagaWorld ℕ) × (execute_forward handlers begun trip 0 at_rest ≡ ok r)
    × Settled handlers r.0
unfolding new_steps
execute_forward-Settled_example = execute_forward-Settled handlers begun trip 0 at_rest refl

abbrev done : Text → SagaStepState ℕ
done name = record {
  step_id = name;
  status = SagaStepStatus.completed;
  attempt = 1;
  output = some 4;
  error = none;
  started_at = none;
  finished_at = none;
}

compensate-calls_example :
    (calls : List (HandlerCall ℕ)) × ((compensate handlers trip.steps
        (done (text "a") ∷ done (text "b") ∷ [])
        begun
        at_rest).1.calls
      ≡ [] ++ calls)
    × Undone handlers trip.steps begun.steps
        (reverse (done (text "a") ∷ done (text "b") ∷ []))
        calls
compensate-calls_example =
    compensate-calls handlers trip.steps (done (text "a") ∷ done (text "b") ∷ []) begun at_rest
