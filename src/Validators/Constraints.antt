-- ===== src/Validators/Constraints.antt =====
-- src/validators/constraint-validator.ts and src/services/rule-engine.ts: the constraints of a job over
-- the context of a run and the outputs of its tasks.
pub mod Violated
pub mod Split
use jobflow_project.Common.{
  Bool, List, Map, Result, Text, [], drop, err, false, if◌then◌else◌, join, ok, starts_with, text,
  text_eq, true, ◌++◌, ◌∷◌,
}
use jobflow_project.Domain.{
  JobConstraint, JobDefinition, JobflowError, Severity, constraint_violation, execution_error,
}
use jobflow_project.Domain.{warn, block}
use jobflow_project.Expressions.Ast.{ExprError}
use jobflow_project.Expressions.Values.{Value, object, Platform, is_blank}
use jobflow_project.Expressions.Evaluator.{evaluate_boolean}

pub record ConstraintContext (O : Type 0) : Type 0 where
  pub context : O
  pub task_outputs : Map O

pub record Verdict : Type 0 where
  pub warnings : List Text
  pub blocks : List Text

module _ {N O : Type 0} where
  -- The properties of an object that are objects.
  unfoldable pub object_values : Map O → Map (Value N O)
  object_values [] = []
  object_values ((k, o) ∷ m) = (k, object o) ∷ object_values m

  module _ (p : Platform N O) where
    unfoldable pub eval_context : ConstraintContext O → O
    unfolding object_values
    eval_context ctx = p.object_of (
        (text "ctx", object ctx.context)
        ∷ (text "output", object (p.object_of (object_values ctx.task_outputs)))
        ∷ [])

    -- What the `catch` block returns.
    unfoldable pub fallback : Text → ConstraintContext O → Bool
    unfolding is_blank
    fallback expr ctx =
        if starts_with (text "ctx.") expr
        then is_blank (p.property (drop 4 expr) ctx.context)
        else false

    unfoldable pub recover : Bool → Result ExprError Bool → Bool
    recover otherwise (ok b) = b
    recover otherwise (err e) = otherwise

    unfoldable pub evaluate_expression : Text → ConstraintContext O → Bool
    unfolding fallback recover eval_context
    evaluate_expression expr ctx =
        if text_eq expr (text "always")
        then true
        else recover (fallback expr ctx) (evaluate_boolean p expr (eval_context ctx))

    unfoldable pub add_violation : JobConstraint → Severity → Verdict → Verdict
    add_violation c warn v = record v { warnings = c.id ∷ v.warnings }
    add_violation c block v = record v { blocks = c.id ∷ v.blocks }

    unfoldable pub evaluate : List JobConstraint → ConstraintContext O → Verdict
    unfolding evaluate_expression add_violation
    evaluate [] ctx = record { warnings = []; blocks = [] }
    evaluate (c ∷ cs) ctx =
        let rest = evaluate cs ctx in
        if evaluate_expression c.expression ctx then add_violation c c.severity rest else rest

    unfoldable pub pass_or_throw : List Text → Result JobflowError (Unit {0})
    pass_or_throw [] = ok tt
    pass_or_throw (id ∷ ids) = err (
        execution_error constraint_violation
          (text "constraints blocked: " ++ join (text ", ") (id ∷ ids)))

    unfoldable pub assert_passing :
        List JobConstraint → ConstraintContext O → Result JobflowError (Unit {0})
    unfolding evaluate pass_or_throw
    assert_passing cs ctx = pass_or_throw (evaluate cs ctx).blocks

    -- The ids of the warnings that are logged, and what is thrown.
    unfoldable pub apply :
        JobDefinition → ConstraintContext O → List Text × Result JobflowError (Unit {0})
    unfolding evaluate assert_passing
    apply definition ctx =
        ((evaluate definition.constraints ctx).warnings, assert_passing definition.constraints ctx)
