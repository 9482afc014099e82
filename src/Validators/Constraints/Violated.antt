-- ===== src/Validators/Constraints/Violated.antt =====
-- When the expression of a constraint counts as violated.
use jobflow_project.Common.{
  &&_iff, ==_iff, Bool-cases, Result-cases, Text, [], ap, arith, drop, err, false, inl, inr, length,
  ok, refl, starts_with, subst, sym, text, text_eq, text_eq_iff, true, true_is_not_false, ◌++◌,
  ◌==◌, ◌||◌, ◌↔◌, ◌∙◌, ◌∷◌, ◌≡◌, ◌≢◌,
}
use jobflow_project.Expressions.Values.{
  Platform, Value, undefined, null, boolean, number, string, object, is_blank, to_boolean,
}
use jobflow_project.Expressions.Evaluator
use jobflow_project.Expressions.Evaluator.{evaluate_boolean}
use jobflow_project.Expressions.Ast.{ExprError}
use jobflow_project.Validators.Constraints.{
  eval_context, recover, fallback, ConstraintContext, evaluate_expression,
}

-- A text that starts with `start` is `start` and what `drop` leaves.
starts-split : (start t : Text) → starts_with start t ≡ true → t ≡ start ++ drop (length start) t
unfolding starts_with
starts-split [] t h = refl
starts-split (c ∷ cs) [] h = absurd (true_is_not_false (sym h))
starts-split (c ∷ cs) (d ∷ ds) h =
    let both = (&&_iff (c == d) (starts_with cs ds)).0 h in
    let same : c ≡ d = (==_iff c d).0 both.0 in
    rw (sym same) (ap (c ∷◌) (starts-split cs ds both.1))

starts-append : (start t : Text) → starts_with start (start ++ t) ≡ true
unfolding starts_with
starts-append [] t = refl
starts-append (c ∷ cs) t = rw (starts-append cs t) (ground arith)

module _ {N O : Type 0} (p : Platform N O) (ctx : ConstraintContext O) where
  -- The truthy values: true, a number other than 0 and NaN, a text that is not empty, any object.
  abbrev pub IsTruthy : Value N O → Type 0
  IsTruthy undefined = ⊥
  IsTruthy null = ⊥
  IsTruthy (boolean b) = b ≡ true
  IsTruthy (number n) = p.is_falsy n ≡ false
  IsTruthy (string t) = t ≢ []
  IsTruthy (object o) = Unit

  -- The missing values: undefined, null and the empty text.
  abbrev pub IsMissing : Value N O → Type 0
  IsMissing undefined = Unit
  IsMissing null = Unit
  IsMissing (boolean b) = ⊥
  IsMissing (number n) = ⊥
  IsMissing (string t) = t ≡ []
  IsMissing (object o) = ⊥

  -- When a constraint's expression counts as violated: it is "always"; or it evaluates to a truthy
  -- value; or its evaluation throws, and it is `ctx.` followed by the key of a missing value.
  pub data IsViolated : Text → Type 0 where
    always : IsViolated (text "always")
    holds :
        {expr : Text} {v : Value N O}
        → Evaluator.evaluate p expr (eval_context p ctx) ≡ ok v
        → IsTruthy v
        → IsViolated expr
    missing :
        {expr key : Text} {e : ExprError}
        → Evaluator.evaluate p expr (eval_context p ctx) ≡ err e
        → expr ≡ text "ctx." ++ key
        → IsMissing (p.property key ctx.context)
        → IsViolated expr

  no_such {ℓ} : {A : Type ℓ} → false ≡ true → A
  no_such h = cc

  to_boolean_iff : (v : Value N O) → (to_boolean p v ≡ true) ↔ IsTruthy v
  unfolding to_boolean
  to_boolean_iff undefined = (no_such, λ t. absurd t)
  to_boolean_iff null = (no_such, λ t. absurd t)
  to_boolean_iff (boolean b) = (λ h. h, λ h. h)
  to_boolean_iff (number n) = ground arith
  to_boolean_iff (string t) = ground (arith, text_eq_iff t [])
  to_boolean_iff (object o) = (λ h. tt, λ t. refl)

  is_blank_iff : (v : Value N O) → (is_blank v ≡ true) ↔ IsMissing v
  unfolding is_blank
  is_blank_iff undefined = (λ h. tt, λ t. refl)
  is_blank_iff null = (λ h. tt, λ t. refl)
  is_blank_iff (boolean b) = (no_such, λ t. absurd t)
  is_blank_iff (number n) = (no_such, λ t. absurd t)
  is_blank_iff (string t) = text_eq_iff t []
  is_blank_iff (object o) = (no_such, λ t. absurd t)

  fallback_iff :
      (expr : Text)
      → (fallback p expr ctx ≡ true)
        ↔ ((key : Text) × (expr ≡ text "ctx." ++ key) × IsMissing (p.property key ctx.context))
  unfolding fallback
  fallback_iff expr = (
    λ h. elim (Bool-cases (starts_with (text "ctx.") expr)) [
      | inr n ↦ no_such (sym (rw n refl) ∙ h)
      | inl y ↦ (
        drop 4 expr,
        starts-split (text "ctx.") expr y,
        (is_blank_iff (p.property (drop 4 expr) ctx.context)).0 (sym (rw y refl) ∙ h),
      )
    ],
    λ (key, e, m).
        rw (e, starts-append (text "ctx.") key) ((is_blank_iff (p.property key ctx.context)).1 m),
  )

  violated_by_value :
      (expr : Text) (v : Value N O)
      → Evaluator.evaluate p expr (eval_context p ctx) ≡ ok v
      → evaluate_expression p expr ctx ≡ (text_eq expr (text "always") || to_boolean p v)
  unfolding evaluate_expression recover evaluate_boolean
  violated_by_value expr v e = rw e (ground arith)

  violated_by_error :
      (expr : Text) (e : ExprError)
      → Evaluator.evaluate p expr (eval_context p ctx) ≡ err e
      → evaluate_expression p expr ctx ≡ (text_eq expr (text "always") || fallback p expr ctx)
  unfolding evaluate_expression recover evaluate_boolean
  violated_by_error expr f e = rw e (ground arith)

  true_of_violated : (expr : Text) → IsViolated expr → evaluate_expression p expr ctx ≡ true
  unfolding evaluate_expression text_eq
  true_of_violated _ always = refl
  true_of_violated expr (holds {v = v} q t) =
      rw (violated_by_value expr v q, (to_boolean_iff v).1 t) (ground arith)
  true_of_violated expr (missing {key = key} {e = e} q s m) =
      rw (violated_by_error expr e q, (fallback_iff expr).1 (key, s, m)) (ground arith)

  pub evaluate_expression_iff :
      (expr : Text) → (evaluate_expression p expr ctx ≡ true) ↔ IsViolated expr
  evaluate_expression_iff expr = (
    λ h. elim (Bool-cases (text_eq expr (text "always"))) [
      | inl y ↦ subst IsViolated (sym ((text_eq_iff expr (text "always")).0 y)) always
      | inr n ↦ elim (Result-cases (Evaluator.evaluate p expr (eval_context p ctx))) [
        | inl (e, q) ↦
            let b : fallback p expr ctx ≡ true =
              sym (rw n refl) ∙ (sym (violated_by_error expr e q) ∙ h) in
            let (key, s, m) = (fallback_iff expr).0 b in missing q s m
        | inr (v, q) ↦
            let b : to_boolean p v ≡ true =
              sym (rw n refl) ∙ (sym (violated_by_value expr v q) ∙ h) in
            holds q ((to_boolean_iff v).0 b)
      ]
    ],
    true_of_violated expr,
  )
