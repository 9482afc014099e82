-- ===== src/Saga/Coordinator/Calls.antt =====
-- How a saga ends, and what is called to undo it.
use jobflow_project.Common.{
  All, Bool-cases, List, Map, Option, Text, [], ap, append-nil, append_assoc, arith, false, inl,
  inr, length, none, ok, refl, some, sym, true, ◌++◌, ◌∙◌, ◌∷◌, ◌≡◌, ◌⊎◌,
}
use mathlib.Core.List.{reverse, reverse-cons}
use jobflow_project.Saga.Types.{
  SagaStepStatus, SagaStepDefinition, SagaStepState, SagaStatus, SagaInstance, SagaDefinition,
  is_completed,
}
use jobflow_project.Saga.Stack.{CompensationStack, push, to_compensate_order, reverse_onto}
use jobflow_project.Saga.Coordinator.{
  Called, returned, threw, HandlerCall, Handlers, SagaWorld, StepEnd, step_done, step_failed,
  set_status, has_step, call_handler, begin_step, compensation_call, compensate_step,
  compensate_all, compensate, persist, fail_saga, finish_step, run_step, forward_from,
  execute_forward,
}
use jobflow_project.Saga.Coordinator.Undo.{made, undo_call, undo_calls, Undone, undo_calls-Undone}

reverse_onto-reverse :
    {D : Type 0} (acc xs : List (SagaStepState D)) → reverse_onto acc xs ≡ reverse xs ++ acc
unfolding reverse_onto
reverse_onto-reverse acc [] = refl
reverse_onto-reverse acc (x ∷ xs) =
    reverse_onto-reverse (x ∷ acc) xs ∙ rw (reverse-cons, append_assoc) refl

to_compensate_order-reverse :
    {D : Type 0} (stack : CompensationStack D) → to_compensate_order stack ≡ reverse stack
unfolding to_compensate_order
to_compensate_order-reverse stack = reverse_onto-reverse [] stack ∙ append-nil (reverse stack)

module _ {D : Type 0} (h : Handlers D) where
  abbrev pub IsCompleted : SagaStepState D → Type 0
  IsCompleted s = is_completed s.status ≡ true

  abbrev IsDone : StepEnd D → Type 0
  IsDone (step_done s prior w) = is_completed s.status ≡ true
  IsDone (step_failed s w) = Unit

  finish_step-IsDone :
      (def : SagaStepDefinition) (state : SagaStepState D) (answer : Called D) (prior : Map D)
      (w : SagaWorld D)
      → IsDone (finish_step h def state answer prior w)
  unfolding finish_step is_completed
  finish_step-IsDone def state (threw message) prior w = tt
  finish_step-IsDone def state (returned false output) prior w = tt
  finish_step-IsDone def state (returned true output) prior w = refl

  run_step-IsDone :
      (def : SagaStepDefinition) (input : D) (state : SagaStepState D) (prior : Map D)
      (w : SagaWorld D)
      → IsDone (run_step h def input state prior w)
  unfolding run_step
  run_step-IsDone def input state prior w = elim (Bool-cases (h.registered def.forward)) [
    | inl e ↦ rw e (finish_step-IsDone def (begin_step h state w).0 _ prior _)
    | inr e ↦ rw e tt
  ]

  All-snoc :
      (P : SagaStepState D → Type 0) (xs : List (SagaStepState D)) (x : SagaStepState D)
      → All P xs
      → P x
      → All P (xs ++ x ∷ [])
  All-snoc P [] x a p = (p, tt)
  All-snoc P (y ∷ ys) x a p = (a.0, All-snoc P ys x a.1 p)

  -- All steps completed, or it was undone.
  abbrev pub Settled : SagaInstance D → Type 0
  Settled i =
      ((i.status ≡ SagaStatus.completed) × All IsCompleted i.steps)
      ⊎ (i.status ≡ SagaStatus.compensated)

  abbrev ForwardSettles :
      (defs todo : List SagaStepDefinition) (input : D) (i : SagaInstance D)
      (before states : List (SagaStepState D)) (stack : CompensationStack D) (prior : Map D)
      (w : SagaWorld D)
      → Type 0
  ForwardSettles defs todo input i before states stack prior w =
      (r : SagaInstance D × SagaWorld D) × (forward_from h defs input i todo before states stack
          prior w
        ≡ ok r)
      × Settled r.0

  forward_from-Settled :
      (defs todo : List SagaStepDefinition) (input : D) (i : SagaInstance D)
      (before states : List (SagaStepState D)) (stack : CompensationStack D) (prior : Map D)
      (w : SagaWorld D)
      → length todo ≡ length states
      → All IsCompleted before
      → ForwardSettles defs todo input i before states stack prior w
  unfolding forward_from persist fail_saga compensate
  forward_from-Settled defs [] input i before [] stack prior w l a =
      (_, refl, inl (refl, rw append-nil a))
  forward_from-Settled defs [] input i before (s ∷ ss) stack prior w l a = absurd (omega (arith, l))
  forward_from-Settled defs (d ∷ ds) input i before [] stack prior w l a = absurd (omega (arith, l))
  forward_from-Settled defs (d ∷ ds) input i before (s ∷ ss) stack prior w l a =
      after_step
        (λ t stack' prior' w' c.
          forward_from-Settled defs ds input i (before ++ t ∷ []) ss stack' prior' w'
            (omega (arith, l)) (All-snoc IsCompleted before t a c))
        (run_step h d input s prior w) (run_step-IsDone d input s prior w) refl
    where
      after_step :
          ((t : SagaStepState D) (stack' : CompensationStack D) (prior' : Map D) (w' : SagaWorld D)
            → IsCompleted t
            → ForwardSettles defs ds input i (before ++ t ∷ []) ss stack' prior' w')
          → (e : StepEnd D) → IsDone e
          → run_step h d input s prior w ≡ e
          → ForwardSettles defs (d ∷ ds) input i before (s ∷ ss) stack prior w
      after_step ih (step_done t prior' w') c q =
          rw (q, forward_from) (ih t (push t stack) prior' w' c)
      after_step ih (step_failed t w') c q = rw (q, forward_from) (_, refl, inr refl)

  -- A saga whose instance has as many steps as its definition always comes to an end, with all its
  -- steps completed and the saga `completed`, or as `compensated`: it never stays `failed`.
  pub execute_forward-Settled :
      (i : SagaInstance D) (def : SagaDefinition) (input : D) (w : SagaWorld D)
      → length def.steps ≡ length i.steps
      → (r : SagaInstance D × SagaWorld D) × (execute_forward h i def input w ≡ ok r) × Settled r.0
  unfolding execute_forward
  execute_forward-Settled i def input w l =
      forward_from-Settled def.steps def.steps input i [] i.steps [] [] w l tt

  has_step-set_status :
      (id other : Text) (status : SagaStepStatus) (steps : List (SagaStepState D))
      → has_step other (set_status id status steps) ≡ has_step other steps
  unfolding set_status
  has_step-set_status id other status [] = refl
  has_step-set_status id other status (s ∷ ss) =
      ground (arith, has_step-set_status id other status ss)

  undo_calls_same :
      (defs : List SagaStepDefinition) (order steps steps' : List (SagaStepState D))
      → ((id : Text) → has_step id steps' ≡ has_step id steps)
      → undo_calls h defs steps' order ≡ undo_calls h defs steps order
  unfolding undo_calls
  undo_calls_same defs [] steps steps' e = refl
  undo_calls_same defs (done ∷ order) steps steps' e =
      ap (λ b. made (compensation_call h defs b done) ++ undo_calls h defs steps' order)
        (e done.step_id)
      ∙ ap (undo_call h defs steps done ++◌) (undo_calls_same defs order steps steps' e)

  compensate_step-calls :
      (c : Option (HandlerCall D)) (id : Text) (steps : List (SagaStepState D)) (w : SagaWorld D)
      → ((compensate_step h c id steps w).1.calls ≡ w.calls ++ made c)
        × ((other : Text)
            → has_step other (compensate_step h c id steps w).0 ≡ has_step other steps)
  unfolding compensate_step call_handler
  compensate_step-calls none id steps w = (sym (append-nil w.calls), λ other. refl)
  compensate_step-calls (some c) id steps w = (
    refl,
    λ other.
        has_step-set_status id other _ (set_status id SagaStepStatus.compensating steps)
        ∙ has_step-set_status id other SagaStepStatus.compensating steps,
  )

  order_calls :
      (defs : List SagaStepDefinition) (order steps : List (SagaStepState D)) (w : SagaWorld D)
      → (compensate_all h defs order steps w).1.calls ≡ w.calls ++ undo_calls h defs steps order
  unfolding compensate_all undo_calls
  order_calls defs [] steps w = sym (append-nil w.calls)
  order_calls defs (done ∷ order) steps w =
      let call = compensation_call h defs (has_step done.step_id steps) done in
      let next = compensate_step h call done.step_id steps w in
      let here = compensate_step-calls call done.step_id steps w in
      order_calls defs order next.0 next.1
      ∙ rw (here.0, undo_calls_same defs order steps next.0 here.1, append_assoc) refl

  -- Compensation calls, from the newest completed step to the oldest, exactly the handlers that undo
  -- them, whatever those handlers return or throw: once for each step of the stack whose definition names
  -- a non-empty, registered handler and that the instance has, with the id of the definition, no prior
  -- outputs, and the output of the step as the input, or the empty input where it has none.
  pub compensate-calls :
      (defs : List SagaStepDefinition) (stack : CompensationStack D) (i : SagaInstance D)
      (w : SagaWorld D)
      → (calls : List (HandlerCall D)) × ((compensate h defs stack i w).1.calls ≡ w.calls ++ calls)
        × Undone h defs i.steps (reverse stack) calls
  unfolding compensate
  compensate-calls defs stack i w = (
    undo_calls h defs i.steps (reverse stack),
    order_calls defs (to_compensate_order stack) i.steps w
        ∙ ap (λ order. w.calls ++ undo_calls h defs i.steps order)
            (to_compensate_order-reverse stack),
    undo_calls-Undone h defs i.steps (reverse stack),
  )
