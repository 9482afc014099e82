-- ===== src/Dsl/Parser/Loops.antt =====
-- The loops of the parser that do not end by themselves.
use jobflow_project.Common.{Text, err, false, refl, suc, text, zero, ℕ, ◌∷◌, ◌≡◌}
use jobflow_project.Domain.{Severity}
use jobflow_project.Dsl.Ast.{DslToken, rbrace, type_eq}
use jobflow_project.Dsl.Parser.{
  Tokens, out_of_fuel, is_keyword, constraint_fields, constraint_field,
}

-- A token that is no field of a constraint and does not close it.
pub record IsForeign (t : DslToken) : Type 0 where
  pub not_rbrace : type_eq t.type rbrace ≡ false
  pub not_expr : is_keyword t (text "expr") ≡ false
  pub not_warn : is_keyword t (text "warn") ≡ false
  pub not_block : is_keyword t (text "block") ≡ false

-- At a token that is no field of a constraint and does not close it, the loop of `parseConstraint`
-- never ends: no fuel is enough.
pub constraint_loops :
    (t : DslToken) (ts : Tokens) (f : Text × Severity) (fuel : ℕ)
    → IsForeign t
    → constraint_fields fuel f (t ∷ ts) ≡ err out_of_fuel
unfolding constraint_fields constraint_field
constraint_loops t ts f zero h = refl
constraint_loops t ts f (suc fuel) h =
    rw (h.not_rbrace, constraint_fields)
      (rw h.not_expr (rw h.not_warn (rw h.not_block (constraint_loops t ts f fuel h))))
