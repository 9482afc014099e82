-- ===== src/Expressions/Samples.antt =====
-- A small platform: numbers of one digit, object 1 with the context, object 0, as its only property; the
-- context has the text "-" as `x`. Evaluations on it, and the theorems at them.
use jobflow_project.Common.{
  All, List, Text, [], err, if◌then◌else◌, includes, join, leb, ltb, none, ok, refl, starts_with,
  text, text_eq, true, ℕ, ◌&&◌, ◌*◌, ◌++◌, ◌+◌, ◌-◌, ◌==◌, ◌↔◌, ◌∷◌, ◌≡◌, ◌⊎◌,
}
use jobflow_project.Domain.{JobDefinition, JobflowError, constraint_violation, execution_error}
use jobflow_project.Domain.{warn, block}
use jobflow_project.Domain.Retry.{default_retry_policy}
use jobflow_project.Dsl.Lexer.{is_space, is_digit, is_ident_start, read_while}
use jobflow_project.Expressions.Ast.{
  no_conversion, op, string, type_eq, expected, unknown_function, is_syntax_error, is_call_error,
}
use jobflow_project.Expressions.Values.{
  converted, as_text, as_object, Value, undefined, object, number, Platform, is_nullish, is_blank,
  to_boolean, to_number, primitives_equal, loosely_equal,
}
use jobflow_project.Expressions.Tokenizer.{
  is_number_part, is_word_part, is_op_start, read_op, read_string, read_token, extent, tokens_at,
  tokenize_from, tokenize,
}
use jobflow_project.Expressions.Parser.{
  consume, parse_rest, parse_level, parse_comparison_rest, parse_unary, parse_more_args, parse_args,
  parse_named, parse_word, parse_primary, parse_add, parse_comparison, parse_or, parse_end,
  parse_tokens, parse,
}
use jobflow_project.Expressions.Evaluator.{
  split_dots, literal_value, builtin, resolve_parts, resolve_ident, apply_op, negated, eval_node,
  evaluate, evaluate_boolean,
}
use jobflow_project.Expressions.Evaluator.{Conversions.IsUnconverted, Errors.evaluate-throws}
use jobflow_project.Validators.Constraints.{
  ConstraintContext, eval_context, fallback, recover, evaluate_expression, apply,
}
use jobflow_project.Validators.Constraints.Split.{Selected, IsWarned, IsBlocked, apply-violated}

abbrev digit : Text → ℕ
digit [] = 0
digit (c ∷ cs) = c - 48

abbrev property_of : Text → ℕ → Value ℕ ℕ
property_of k o =
    if (o == 1) && text_eq k (text "ctx")
    then object 0
    else if (o == 0) && text_eq k (text "x")
    then Value.string (text "-")
    else undefined

abbrev small : Platform ℕ ℕ
small = record {
  zero_number = 0;
  one_number = 1;
  not_a_number = 0;
  of_nat = λ n. n;
  of_text = digit;
  number_text = λ n. (n + 48) ∷ [];
  is_falsy = λ n. n == 0;
  negate = λ n. n;
  add = λ a b. a + b;
  subtract = λ a b. a - b;
  multiply = λ a b. a * b;
  divide = λ a b. a;
  less = λ a b. ltb a b;
  less_equal = λ a b. leb a b;
  equal_numbers = λ a b. a == b;
  object_of = λ m. 1;
  property = property_of;
  array_length = λ o. none;
  same_object = λ a b. a == b;
  object_number = λ o. if o == 2 then err (text "no primitive") else ok 0;
  object_text = λ o. if o == 2 then err (text "no primitive") else ok [];
  primitive = λ o. if o == 2 then err (text "no primitive") else ok undefined;
  inherited = λ name. none;
}

program : Unit {0}
unfolding tokenize tokenize_from tokens_at extent read_token read_string read_op is_op_start
    is_word_part is_number_part is_space is_digit is_ident_start read_while consume parse_rest
    parse_level parse_comparison_rest parse_unary parse_more_args parse_args parse_named parse_word
    parse_primary parse_add parse_comparison parse_or parse_end parse_tokens parse type_eq includes
    text_eq starts_with split_dots literal_value builtin resolve_parts resolve_ident apply_op
    negated eval_node evaluate evaluate_boolean to_boolean to_number is_blank is_nullish
    primitives_equal loosely_equal as_text as_object eval_context fallback recover
    evaluate_expression
program = tt

sums : evaluate small (text "1 + 2 * 3") 1 ≡ ok (number 7)
unfolding program
sums = refl

-- A text that reads as an operator is taken for one.
quoted_operator : evaluate small (text "ctx.x == '-'") 1 ≡ err (expected op string)
unfolding program
quoted_operator = refl

abbrev sample_context : ConstraintContext ℕ
sample_context = record { context = 0; task_outputs = [] }

-- So the constraint counts as violated, also where the context's text is another.
quoted_violated : evaluate_expression small (text "ctx.x != '-'") sample_context ≡ true
unfolding program
quoted_violated = refl

unknown : evaluate small (text "f(1)") 1 ≡ err (unknown_function (text "f"))
unfolding program
unknown = refl

-- Object 2 has no primitive value.
unconverted :
    apply_op small (text "<") (object 2) (number 1) ≡ err (no_conversion (text "no primitive"))
unfolding program converted
unconverted = refl

evaluate-throws_example :
    (is_syntax_error (unknown_function (text "f")) ≡ true)
    ⊎ ((is_call_error (unknown_function (text "f")) ≡ true)
        ⊎ IsUnconverted small (unknown_function (text "f")))
evaluate-throws_example =
    evaluate-throws small (text "f(1)") 1 (unknown_function (text "f")) unknown

abbrev guarded_job : JobDefinition
guarded_job = record {
  id = text "j";
  name = text "job";
  version = 1;
  description = none;
  tasks = [];
  constraints =
      record { id = text "w"; expression = text "always"; severity = warn }
      ∷ record { id = text "b"; expression = text "isempty(ctx.x)"; severity = block }
      ∷ [];
  retry_policy = default_retry_policy;
  allowed_transitions = [];
  metadata = [];
  created_at = [];
  updated_at = [];
}

apply-violated_example :
    Selected
      (IsWarned small sample_context)
      guarded_job.constraints
      (apply small guarded_job sample_context).0
    × (((apply small guarded_job sample_context).1 ≡ ok tt)
        ↔ All (λ c. ¬ IsBlocked small sample_context c) guarded_job.constraints)
    × ((e : JobflowError)
        → (apply small guarded_job sample_context).1 ≡ err e
        → (ids : List Text) × Selected (IsBlocked small sample_context) guarded_job.constraints ids
          × (e
              ≡ execution_error constraint_violation
                  (text "constraints blocked: " ++ join (text ", ") ids)))
apply-violated_example = apply-violated small sample_context guarded_job
