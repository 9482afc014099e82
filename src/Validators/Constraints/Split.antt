-- ===== src/Validators/Constraints/Split.antt =====
-- How the constraints of a job are divided, and when a run may go on.
use jobflow_project.Common.{
  All, Bool, Bool-cases, List, Text, [], ap, err, err_inj, err_is_not_ok, false, if◌then◌else◌, inl,
  inr, join, map, not, ok, refl, select, subst, sym, text, true, true_is_not_false, ◌&&◌, ◌++◌, ◌↔◌,
  ◌∙◌, ◌∷◌, ◌≡◌, ◌⊎◌,
}
use jobflow_project.Domain.{
  JobConstraint, JobDefinition, JobflowError, Severity, constraint_violation, execution_error,
}
use jobflow_project.Domain.{warn, block}
use jobflow_project.Expressions.Values.{Platform}
use jobflow_project.Validators.Constraints.{
  ConstraintContext, Verdict, evaluate_expression, evaluate, add_violation, pass_or_throw,
  assert_passing, apply,
}
use jobflow_project.Validators.Constraints.Violated.{IsViolated, evaluate_expression_iff}

unfoldable pub is_warning : Severity → Bool
is_warning warn = true
is_warning block = false

Severity-cases : (s : Severity) → (s ≡ warn) ⊎ (s ≡ block)
Severity-cases warn = inl refl
Severity-cases block = inr refl

warn_is_not_block : ¬ (◌≡◌ {A = Severity} warn block)
warn_is_not_block h = cc

not_nil : {A : Type 0} {x : A} {xs : List A} → ¬ (x ∷ xs ≡ [])
not_nil h = cc

-- The ids of the constraints that meet `P`, in their order.
pub data Selected (P : JobConstraint → Type 0) : List JobConstraint → List Text → Type 0 where
  no_more : Selected P [] []
  taken :
      {c : JobConstraint} {cs : List JobConstraint} {ids : List Text}
      → P c
      → Selected P cs ids
      → Selected P (c ∷ cs) (c.id ∷ ids)
  passed :
      {c : JobConstraint} {cs : List JobConstraint} {ids : List Text}
      → ¬ P c
      → Selected P cs ids
      → Selected P (c ∷ cs) ids

none_selected :
    (P : JobConstraint → Type 0) (cs : List JobConstraint) (ids : List Text)
    → Selected P cs ids
    → (ids ≡ []) ↔ All (λ c. ¬ P c) cs
none_selected P [] _ no_more = (λ h. tt, λ a. refl)
none_selected P (c ∷ cs) _ (taken t s) = (λ h. absurd (not_nil h), λ a. absurd (a.0 t))
none_selected P (c ∷ cs) ids (passed t s) =
    let rest = none_selected P cs ids s in (λ h. (t, rest.0 h), λ a. rest.1 a.1)

module _ {N O : Type 0} (p : Platform N O) (ctx : ConstraintContext O) where
  -- The ids of the violated constraints of one kind, in order.
  abbrev violated : Bool → List JobConstraint → List Text
  violated warning cs = map JobConstraint.id (
      select
        (λ c.
          evaluate_expression p c.expression ctx
          && (if warning then is_warning c.severity else not (is_warning c.severity)))
        cs)

  evaluate-violated :
      (cs : List JobConstraint)
      → evaluate p cs ctx ≡ record { warnings = violated true cs; blocks = violated false cs }
  unfolding evaluate add_violation is_warning
  evaluate-violated [] = refl
  evaluate-violated (c ∷ cs) = elim (Bool-cases (evaluate_expression p c.expression ctx)) [
    | inr e ↦ rw (e, evaluate-violated cs) refl
    | inl e ↦ elim (Severity-cases c.severity) [
      | inl q ↦ rw (e, q, evaluate-violated cs) refl
      | inr q ↦ rw (e, q, evaluate-violated cs) refl
    ]
  ]

  -- A violated constraint of severity warn, and one of severity block.
  abbrev pub IsWarned : JobConstraint → Type 0
  IsWarned c = (c.severity ≡ warn) × IsViolated p ctx c.expression

  abbrev pub IsBlocked : JobConstraint → Type 0
  IsBlocked c = (c.severity ≡ block) × IsViolated p ctx c.expression

  not_violated : (expr : Text) → evaluate_expression p expr ctx ≡ false → ¬ IsViolated p ctx expr
  not_violated expr e v = true_is_not_false (sym ((evaluate_expression_iff p ctx expr).1 v) ∙ e)

  violated-Selected :
      (cs : List JobConstraint)
      → Selected IsWarned cs (violated true cs) × Selected IsBlocked cs (violated false cs)
  unfolding is_warning
  violated-Selected [] = (no_more, no_more)
  violated-Selected (c ∷ cs) =
      let later = violated-Selected cs in
      elim (Bool-cases (evaluate_expression p c.expression ctx)) [
        | inr e ↦ rw e (
          passed (λ w. not_violated c.expression e w.1) later.0,
          passed (λ b. not_violated c.expression e b.1) later.1,
        )
        | inl e ↦
            let here = (evaluate_expression_iff p ctx c.expression).0 e in
            elim (Severity-cases c.severity) [
              | inl q ↦
                  rw (e, ap is_warning q)
                    (taken (q, here) later.0, passed (λ b. warn_is_not_block (sym q ∙ b.0)) later.1)
              | inr q ↦
                  rw (e, ap is_warning q)
                    (passed (λ w. warn_is_not_block (sym w.0 ∙ q)) later.0, taken (q, here) later.1)
            ]
      ]

  pass_iff : (ids : List Text) → (pass_or_throw p ids ≡ ok tt) ↔ (ids ≡ [])
  unfolding pass_or_throw
  pass_iff [] = (λ h. refl, λ h. refl)
  pass_iff (id ∷ ids) = (λ h. absurd (err_is_not_ok h), λ h. absurd (not_nil h))

  pass-err :
      (ids : List Text) (e : JobflowError)
      → pass_or_throw p ids ≡ err e
      → e
        ≡ execution_error constraint_violation
            (text "constraints blocked: " ++ join (text ", ") ids)
  unfolding pass_or_throw
  pass-err [] e h = absurd (err_is_not_ok (sym h))
  pass-err (id ∷ ids) e h = sym (err_inj h)

  -- The warnings are the ids of the violated constraints of severity warn, in their order. The run may go
  -- on exactly where no constraint of severity block is violated; where one is, the error names those that
  -- are, in their order. A constraint is violated where its expression is "always", evaluates to a truthy
  -- value, or throws and is `ctx.` followed by the key of a value that is undefined, null or empty.
  pub apply-violated :
      (d : JobDefinition)
      → Selected IsWarned d.constraints (apply p d ctx).0
        × (((apply p d ctx).1 ≡ ok tt) ↔ All (λ c. ¬ IsBlocked c) d.constraints)
        × ((e : JobflowError)
            → (apply p d ctx).1 ≡ err e
            → (ids : List Text) × Selected IsBlocked d.constraints ids
              × (e
                  ≡ execution_error constraint_violation
                      (text "constraints blocked: " ++ join (text ", ") ids)))
  unfolding apply assert_passing
  apply-violated d =
      let cs = d.constraints in
      let blocks = ap Verdict.blocks (evaluate-violated cs) in
      let (warned, blocked) = violated-Selected cs in
      let free = none_selected IsBlocked cs (violated false cs) blocked in
      (
        subst (Selected IsWarned cs) (sym (ap Verdict.warnings (evaluate-violated cs))) warned,
        (
          λ h. free.0 (sym blocks ∙ (pass_iff (evaluate p cs ctx).blocks).0 h),
          λ a. (pass_iff (evaluate p cs ctx).blocks).1 (blocks ∙ free.1 a),
        ),
        λ e h. (
          violated false cs,
          blocked,
          pass-err (violated false cs) e (ap (pass_or_throw p) (sym blocks) ∙ h),
        ),
      )
