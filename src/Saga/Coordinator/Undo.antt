-- ===== src/Saga/Coordinator/Undo.antt =====
-- The calls that undo the steps of a saga.
use jobflow_project.Common.{
  Bool, List, Option, Option-cases, Text, [], ap, arith, find, inl, inr, none, refl, some,
  some_is_not_none, sym, text_eq, text_eq_iff, true, ◌++◌, ◌∙◌, ◌∷◌, ◌≡◌, ◌≢◌, ◌⊎◌,
}
use jobflow_project.Saga.Types.{SagaStepDefinition, SagaStepState}
use jobflow_project.Saga.Coordinator.{HandlerCall, Handlers, has_step, compensation_call, undo_with}

abbrev pub made : {D : Type 0} → Option (HandlerCall D) → List (HandlerCall D)
made none = []
made (some c) = c ∷ []

module _ {D : Type 0} (h : Handlers D) where
  -- The calls that undo the steps in `order`.
  abbrev pub undo_call :
      List SagaStepDefinition → List (SagaStepState D) → SagaStepState D → List (HandlerCall D)
  undo_call defs steps done = made (compensation_call h defs (has_step done.step_id steps) done)

  unfoldable pub undo_calls :
      List SagaStepDefinition
      → List (SagaStepState D)
      → List (SagaStepState D)
      → List (HandlerCall D)
  undo_calls defs steps [] = []
  undo_calls defs steps (done ∷ order) = undo_call defs steps done ++ undo_calls defs steps order

  -- The call `c` undoes the step `done`: the definition of the step names its handler, which is not
  -- empty and is registered, the instance has the step, and the input is the step's output, or empty
  -- where it has none.
  pub record Undo (defs : List SagaStepDefinition) (steps : List (SagaStepState D))
      (done : SagaStepState D) (c : HandlerCall D) : Type 0 where
    pub def : SagaStepDefinition
    pub defined : find (λ s. text_eq s.id done.step_id) defs ≡ some def
    pub named : def.compensate ≡ some c.handler
    pub not_empty : c.handler ≢ []
    pub registered : h.registered c.handler ≡ true
    pub present : has_step done.step_id steps ≡ true
    pub same_id : c.task_id ≡ def.id
    pub own_output : (done.output ≡ some c.input) ⊎ ((done.output ≡ none) × (c.input ≡ h.empty))
    pub no_prior : c.prior_outputs ≡ []

  -- One call for each step of the list that can be undone, in order, and none for any other.
  pub data Undone (defs : List SagaStepDefinition) (steps : List (SagaStepState D))
      : List (SagaStepState D) → List (HandlerCall D) → Type 0 where
    nothing_left : Undone defs steps [] []
    undone :
        {done : SagaStepState D} {order : List (SagaStepState D)} {c : HandlerCall D}
        {calls : List (HandlerCall D)}
        → Undo defs steps done c
        → Undone defs steps order calls
        → Undone defs steps (done ∷ order) (c ∷ calls)
    left_alone :
        {done : SagaStepState D} {order : List (SagaStepState D)} {calls : List (HandlerCall D)}
        → ((c : HandlerCall D) → ¬ Undo defs steps done c)
        → Undone defs steps order calls
        → Undone defs steps (done ∷ order) calls

  undo_with_lem :
      (handler : Text) (def : SagaStepDefinition) (here : Bool) (done : SagaStepState D)
      (c : HandlerCall D)
      → undo_with h handler def here done ≡ some c
      → (c.handler ≡ handler)
        × (handler ≢ [])
        × (h.registered handler ≡ true)
        × (here ≡ true)
        × (c.task_id ≡ def.id)
        × ((done.output ≡ some c.input) ⊎ ((done.output ≡ none) × (c.input ≡ h.empty)))
        × (c.prior_outputs ≡ [])
  unfolding undo_with
  undo_with_lem handler def here done c e = elim (Option-cases done.output) [
    | inl o ↦ ground (arith, o, text_eq_iff handler [])
    | inr (v, o) ↦ ground (arith, o, text_eq_iff handler [])
  ]

  compensation_call-Undo :
      (defs : List SagaStepDefinition) (steps : List (SagaStepState D)) (done : SagaStepState D)
      (c : HandlerCall D)
      → compensation_call h defs (has_step done.step_id steps) done ≡ some c
      → Undo defs steps done c
  unfolding compensation_call
  compensation_call-Undo defs steps done c e =
      elim (Option-cases (find (λ s. text_eq s.id done.step_id) defs)) [
        | inl f ↦ some_is_not_none (sym e ∙ rw f refl)
        | inr (def, f) ↦ elim (Option-cases def.compensate) [
          | inl g ↦ some_is_not_none (sym e ∙ rw (f, g) refl)
          | inr (handler, g) ↦
              let r =
                undo_with_lem handler def (has_step done.step_id steps) done c
                  (sym (rw (f, g) refl) ∙ e) in
              record {
                def = def;
                defined = f;
                named = g ∙ ap some (sym r.0);
                not_empty = λ q. r.1 (sym r.0 ∙ q);
                registered = ap h.registered r.0 ∙ r.2;
                present = r.3;
                same_id = r.4;
                own_output = r.5;
                no_prior = r.6;
              }
        ]
      ]

  undo_with_call :
      (def : SagaStepDefinition) (here : Bool) (done : SagaStepState D) (c : HandlerCall D)
      → c.handler ≢ []
      → h.registered c.handler ≡ true
      → here ≡ true
      → c.task_id ≡ def.id
      → (done.output ≡ some c.input) ⊎ ((done.output ≡ none) × (c.input ≡ h.empty))
      → c.prior_outputs ≡ []
      → undo_with h c.handler def here done ≡ some c
  unfolding undo_with
  undo_with_call def here done c n r p t (inl o) q = ground (arith, text_eq_iff c.handler [])
  undo_with_call def here done c n r p t (inr (o, i)) q = ground (arith, text_eq_iff c.handler [])

  call_of_Undo :
      (defs : List SagaStepDefinition) (steps : List (SagaStepState D)) (done : SagaStepState D)
      (c : HandlerCall D)
      → Undo defs steps done c
      → compensation_call h defs (has_step done.step_id steps) done ≡ some c
  unfolding compensation_call undo_with
  call_of_Undo defs steps done c u =
      rw (u.defined, u.named)
        (undo_with_call u.def (has_step done.step_id steps) done c u.not_empty u.registered
          u.present u.same_id u.own_output u.no_prior)

  pub undo_calls-Undone :
      (defs : List SagaStepDefinition) (steps order : List (SagaStepState D))
      → Undone defs steps order (undo_calls defs steps order)
  unfolding undo_calls
  undo_calls-Undone defs steps [] = nothing_left
  undo_calls-Undone defs steps (done ∷ order) =
      elim (Option-cases (compensation_call h defs (has_step done.step_id steps) done)) [
        | inl e ↦ rw e (
            left_alone (λ c u. some_is_not_none (sym (call_of_Undo defs steps done c u) ∙ e))
              (undo_calls-Undone defs steps order))
        | inr (c, e) ↦ rw e (
            undone (compensation_call-Undo defs steps done c e)
              (undo_calls-Undone defs steps order))
      ]
