-- ===== src/Expressions/Evaluator.antt =====
-- src/expressions/evaluator.ts and builtins.ts: `ExpressionEvaluator` and the built-in functions.
pub mod Conversions
pub mod Errors
use jobflow_project.Common.{
  Bool, List, Option, Result, Text, [], err, if◌then◌else◌, length, none, not, ok, some,
  starts_with, suc, text, text_eq, zero, ℕ, ◌&&◌, ◌*◌, ◌+◌, ◌-◌, ◌/◌, ◌<◌, ◌==◌, ◌>>=◌, ◌||◌, ◌∷◌,
}
use jobflow_project.Expressions.Ast.{
  ExprError, unknown_function, unknown_operator, thrown, ExprNode, literal, identifier, unary,
  binary, call, ExprNodes, no_nodes, node, Literal, text_literal, number_literal, boolean_literal,
  null_literal, not_op, neg_op,
}
use jobflow_project.Expressions.Values.{
  Value, undefined, null, boolean, number, string, object, Platform, is_nullish, is_blank,
  to_boolean, to_number, to_text, loosely_equal,
}
use jobflow_project.Expressions.Parser.{parse}

-- `name.split(".")`.
unfoldable pub split_dots : Text → List Text
split_dots [] = [] ∷ []
split_dots (c ∷ cs) = if c == b'.' then [] ∷ split_dots cs else onto_first c (split_dots cs)
  where
    onto_first : ℕ → List Text → List Text
    onto_first x [] = (x ∷ []) ∷ []
    onto_first x (t ∷ ts) = (x ∷ t) ∷ ts

-- `hay.includes(needle)` on strings.
unfoldable pub text_includes : (hay needle : Text) → Bool
text_includes [] needle = text_eq needle []
text_includes (c ∷ cs) needle = starts_with needle (c ∷ cs) || text_includes cs needle

module _ {N O : Type 0} where
  unfoldable pub literal_value : Literal N → Value N O
  literal_value (text_literal t) = string t
  literal_value (number_literal n) = number n
  literal_value (boolean_literal b) = boolean b
  literal_value null_literal = null

  -- `args[i]`.
  unfoldable pub argument : ℕ → List (Value N O) → Value N O
  argument i [] = undefined
  argument zero (v ∷ vs) = v
  argument (suc i) (v ∷ vs) = argument i vs

  unfoldable pub coalesce : List (Value N O) → Value N O
  unfolding is_blank
  coalesce [] = null
  coalesce (v ∷ vs) = if is_blank v then coalesce vs else v

  -- `v ?? ""`.
  unfoldable pub or_blank : Value N O → Value N O
  unfolding is_nullish
  or_blank v = if is_nullish v then string [] else v

  module _ (p : Platform N O) where
    unfoldable pub length_of : Value N O → Value N O
    length_of (string t) = number (p.of_nat (length t))
    length_of (object o) = of_array (p.array_length o)
      where
        of_array : Option ℕ → Value N O
        of_array (some n) = number (p.of_nat n)
        of_array none = number p.zero_number
    length_of undefined = number p.zero_number
    length_of null = number p.zero_number
    length_of (boolean b) = number p.zero_number
    length_of (number n) = number p.zero_number

    unfoldable pub contains : List (Value N O) → Result ExprError (Value N O)
    unfolding text_includes argument or_blank to_text
    contains args = to_text p (or_blank (argument 0 args)) >>= λ hay.
        to_text p (or_blank (argument 1 args)) >>= λ needle. ok (boolean (text_includes hay needle))

    unfoldable pub caught : Result Text (Value N O) → Result ExprError (Value N O)
    caught (ok v) = ok v
    caught (err message) = err (thrown message)

    -- `BUILTINS[name]`, which finds what an object inherits too.
    unfoldable pub builtin : Text → Option (List (Value N O) → Result ExprError (Value N O))
    unfolding is_blank length_of contains coalesce argument caught
    builtin name =
        if text_eq name (text "isempty")
        then some (λ args. ok (boolean (is_blank (argument 0 args))))
        else if text_eq name (text "length")
        then some (λ args. ok (length_of (argument 0 args)))
        else if text_eq name (text "contains")
        then some contains
        else if text_eq name (text "coalesce")
        then some (λ args. ok (coalesce args))
        else inherited_fn (p.inherited name)
      where
        inherited_fn :
            Option (List (Value N O) → Result Text (Value N O))
            → Option (List (Value N O) → Result ExprError (Value N O))
        inherited_fn none = none
        inherited_fn (some f) = some (λ args. caught (f args))

    unfoldable pub resolve_parts : Value N O → List Text → Value N O
    resolve_parts v [] = v
    resolve_parts (object o) (k ∷ ks) = resolve_parts (p.property k o) ks
    resolve_parts undefined (k ∷ ks) = undefined
    resolve_parts null (k ∷ ks) = undefined
    resolve_parts (boolean b) (k ∷ ks) = undefined
    resolve_parts (number n) (k ∷ ks) = undefined
    resolve_parts (string t) (k ∷ ks) = undefined

    unfoldable pub resolve_ident : O → Text → Value N O
    unfolding resolve_parts split_dots
    resolve_ident ctx name = resolve_parts (object ctx) (split_dots name)

    abbrev numbers : (N → N → N) → Value N O → Value N O → Result ExprError (Value N O)
    numbers f l r = to_number p l >>= λ a. to_number p r >>= λ b. ok (number (f a b))

    abbrev compares : (N → N → Bool) → Value N O → Value N O → Result ExprError (Value N O)
    compares f l r = to_number p l >>= λ a. to_number p r >>= λ b. ok (boolean (f a b))

    -- The switch of `evalBinary`, where both sides are evaluated.
    unfoldable pub apply_op : Text → Value N O → Value N O → Result ExprError (Value N O)
    unfolding loosely_equal to_number to_boolean
    apply_op op l r =
        if text_eq op (text "==")
        then (loosely_equal p l r >>= λ b. ok (boolean b))
        else if text_eq op (text "!=")
        then (loosely_equal p l r >>= λ b. ok (boolean (not b)))
        else if text_eq op (text "<")
        then compares p.less l r
        else if text_eq op (text "<=")
        then compares p.less_equal l r
        else if text_eq op (text ">")
        then compares (λ a b. p.less b a) l r
        else if text_eq op (text ">=")
        then compares (λ a b. p.less_equal b a) l r
        else if text_eq op (text "&&")
        then ok (boolean (to_boolean p l && to_boolean p r))
        else if text_eq op (text "||")
        then ok (boolean (to_boolean p l || to_boolean p r))
        else if text_eq op (text "+")
        then numbers p.add l r
        else if text_eq op (text "-")
        then numbers p.subtract l r
        else if text_eq op (text "*")
        then numbers p.multiply l r
        else if text_eq op (text "/")
        then numbers p.divide l r
        else err (unknown_operator op)

    -- `-(Number(v) || 0)`.
    unfoldable pub negated : Value N O → Result ExprError (Value N O)
    unfolding to_number
    negated v =
        to_number p v >>= λ n. ok (number (p.negate (if p.is_falsy n then p.zero_number else n)))

    unfoldable mutual
      unfolding literal_value resolve_ident apply_op builtin negated to_boolean

      pub eval_node : O → ExprNode N → Result ExprError (Value N O)
      eval_node ctx (literal l) = ok (literal_value l)
      eval_node ctx (identifier name) = ok (resolve_ident ctx name)
      eval_node ctx (unary not_op arg) =
          eval_node ctx arg >>= λ v. ok (boolean (not (to_boolean p v)))
      eval_node ctx (unary neg_op arg) = eval_node ctx arg >>= negated
      eval_node ctx (binary op left right) =
          eval_node ctx left >>= λ l. eval_node ctx right >>= λ r. apply_op op l r
      eval_node ctx (call name args) = elim (builtin name) [
        | none ↦ err (unknown_function name)
        | some f ↦ eval_nodes ctx args >>= f
      ]

      pub eval_nodes : O → ExprNodes N → Result ExprError (List (Value N O))
      eval_nodes ctx no_nodes = ok []
      eval_nodes ctx (node n ns) = eval_node ctx n >>= λ v. eval_nodes ctx ns >>= λ vs. ok (v ∷ vs)

    unfoldable pub evaluate : Text → O → Result ExprError (Value N O)
    unfolding parse eval_node
    evaluate expression ctx = parse p.of_text expression >>= eval_node ctx

    unfoldable pub evaluate_boolean : Text → O → Result ExprError Bool
    unfolding evaluate to_boolean
    evaluate_boolean expression ctx = evaluate expression ctx >>= λ v. ok (to_boolean p v)
