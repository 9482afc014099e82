-- ===== src/Dsl/Parser/Printer.antt =====
-- Workflows as tokens, and that the parser reads them back.
use jobflow_project.Common.{
  All, Bool, Bool-cases, List, Text, [], append-nil, append_assoc, arith, false, inl, inr, length,
  length-append, ok, refl, suc, text, text_eq, true, zero, ℕ, ◌++◌, ◌+◌, ◌<◌, ◌∙◌, ◌∷◌, ◌≡◌, ◌≤◌,
  ◌⊎◌,
}
use jobflow_project.Domain.{Severity}
use jobflow_project.Dsl.Ast.{
  TaskDslNode, ConstraintDslNode, WorkflowDslNode, DslToken, DslTokenType, keyword, ident, number,
  string, lbrace, rbrace, lbracket, rbracket, colon, comma, type_eq,
}
use jobflow_project.Dsl.Parser.{
  Tokens, parse_names, task_fields, no_fields, parse_task, constraint_fields, parse_constraint,
  body_items, parse_workflow, parse_tokens, skip_comma, expect_ident_or_string, expect_keyword,
  expect, expect_token, expect_number, expect_ident, task_field, finish_task, constraint_field,
  body_item,
}
use jobflow_project.Dsl.Parser.Numbers.{digits, number_of-digits}

-- `parseTask` refuses a task with no handler.
abbrev pub HasHandler : TaskDslNode → Type 0
HasHandler t = text_eq t.handler [] ≡ false

Severity-cases : (s : Severity) → (s ≡ Severity.warn) ⊎ (s ≡ Severity.block)
Severity-cases Severity.warn = inl refl
Severity-cases Severity.block = inr refl

-- Every printed token carries this position, which the parser does not read.
module _ (line column : ℕ) where
  abbrev pub token : DslTokenType → Text → DslToken
  token type value = record { type = type; value = value; line = line; column = column }

  abbrev pub key : Text → DslToken
  key word = token keyword word

  unfoldable pub print_names : List Text → Tokens
  print_names [] = []
  print_names (n ∷ []) = token string n ∷ []
  print_names (n ∷ m ∷ ms) = token string n ∷ token comma (text ",") ∷ print_names (m ∷ ms)

  abbrev pub print_optional : Bool → Tokens
  print_optional true = key (text "optional") ∷ []
  print_optional false = []

  unfoldable pub print_task : TaskDslNode → Tokens → Tokens
  print_task t rest =
      key (text "task")
      ∷ token ident t.id
      ∷ token colon (text ":")
      ∷ token lbrace (text "{")
      ∷ key (text "handler")
      ∷ token colon (text ":")
      ∷ token string t.handler
      ∷ key (text "timeout")
      ∷ token colon (text ":")
      ∷ token number (digits t.timeout_ms)
      ∷ key (text "depends")
      ∷ token colon (text ":")
      ∷ token lbracket (text "[")
      ∷ (print_names t.depends_on
          ++ token rbracket (text "]")
            ∷ (print_optional t.optional ++ token rbrace (text "}") ∷ rest))

  abbrev pub severity_word : Severity → Text
  severity_word Severity.warn = text "warn"
  severity_word Severity.block = text "block"

  unfoldable pub print_constraint : ConstraintDslNode → Tokens → Tokens
  print_constraint c rest =
      key (text "constraint")
      ∷ token ident c.id
      ∷ token colon (text ":")
      ∷ token lbrace (text "{")
      ∷ key (text "expr")
      ∷ token colon (text ":")
      ∷ token string c.expr
      ∷ key (severity_word c.severity)
      ∷ token rbrace (text "}")
      ∷ rest

  unfoldable pub print_constraints : List ConstraintDslNode → Tokens → Tokens
  print_constraints [] rest = rest
  print_constraints (c ∷ cs) rest = print_constraint c (print_constraints cs rest)

  unfoldable pub print_tasks : List TaskDslNode → Tokens → Tokens
  print_tasks [] rest = rest
  print_tasks (t ∷ ts) rest = print_task t (print_tasks ts rest)

  unfoldable pub print_workflow : WorkflowDslNode → Tokens → Tokens
  print_workflow w rest =
      key (text "workflow")
      ∷ token ident w.name
      ∷ token colon (text ":")
      ∷ token lbrace (text "{")
      ∷ key (text "version")
      ∷ token colon (text ":")
      ∷ token number (digits w.version)
      ∷ print_tasks w.tasks (print_constraints w.constraints (token rbrace (text "}") ∷ rest))

  parse_names-print :
      (fuel : ℕ) (acc names : List Text) (rest : Tokens)
      → length names < fuel
      → let close = token rbracket (text "]") ∷ rest in
        parse_names fuel acc (print_names names ++ close) ≡ ok (acc ++ names, close)
  unfolding parse_names print_names type_eq skip_comma expect_ident_or_string
  parse_names-print zero acc names rest h = absurd (omega arith)
  parse_names-print (suc fuel) acc [] rest h = rw append-nil
  parse_names-print (suc fuel) acc (n ∷ []) rest h =
      parse_names-print fuel (acc ++ n ∷ []) [] rest (omega arith) ∙ rw (append-nil)
  parse_names-print (suc fuel) acc (n ∷ m ∷ ms) rest h =
      parse_names-print fuel (acc ++ n ∷ []) (m ∷ ms) rest (omega arith) ∙ rw append_assoc

  -- The rounds from the names in brackets on.
  task_fields-print :
      (fuel : ℕ) (t : TaskDslNode) (rest : Tokens)
      → length t.depends_on < suc (suc fuel)
      → let close = token rbrace (text "}") ∷ rest in
        task_fields (suc (suc (suc (suc (suc fuel))))) no_fields (
          key (text "handler")
          ∷ token colon (text ":")
          ∷ token string t.handler
          ∷ key (text "timeout")
          ∷ token colon (text ":")
          ∷ token number (digits t.timeout_ms)
          ∷ key (text "depends")
          ∷ token colon (text ":")
          ∷ token lbracket (text "[")
          ∷ (print_names t.depends_on
              ++ token rbracket (text "]") ∷ (print_optional t.optional ++ close)))
        ≡ ok (
          record no_fields {
            handler = t.handler;
            timeout_ms = t.timeout_ms;
            depends_on = t.depends_on;
            optional = t.optional;
          },
          close,
        )
  unfolding task_fields task_field expect_keyword expect expect_token expect_number type_eq text_eq
  task_fields-print fuel t rest h =
      rw
        (
          number_of-digits,
          parse_names-print (suc (suc fuel)) [] t.depends_on
              (print_optional t.optional ++ token rbrace (text "}") ∷ rest) h,
        )
        elim (Bool-cases t.optional) [
          | inl e ↦ rw (e, task_field, expect_keyword, expect_token) refl
          | inr e ↦ rw e refl
        ]

  pub parse_task-print :
      (fuel : ℕ) (t : TaskDslNode) (rest : Tokens)
      → text_eq t.handler [] ≡ false
      → length t.depends_on < suc (suc fuel)
      → parse_task (suc (suc (suc (suc (suc fuel))))) (print_task t rest) ≡ ok (t, rest)
  unfolding parse_task print_task type_eq text_eq expect_keyword expect_ident expect expect_token
  parse_task-print fuel t rest h k = rw (task_fields-print fuel t rest k, finish_task, h) refl

  pub parse_constraint-print :
      (fuel : ℕ) (c : ConstraintDslNode) (rest : Tokens)
      → parse_constraint (suc (suc (suc fuel))) (print_constraint c rest) ≡ ok (c, rest)
  unfolding parse_constraint print_constraint constraint_fields constraint_field type_eq text_eq
      expect_keyword expect_ident expect expect_token
  parse_constraint-print fuel c rest = elim (Severity-cases c.severity) [
    | inl e ↦ rw e refl
    | inr e ↦ rw e refl
  ]

  body_items-constraints :
      (fuel : ℕ) (ts : List TaskDslNode) (ds cs : List ConstraintDslNode) (rest : Tokens)
      → length cs ≤ fuel
      → let close = token rbrace (text "}") ∷ rest in
        body_items (suc (suc (suc (suc fuel)))) (ts, ds) (print_constraints cs close)
        ≡ ok ((ts, ds ++ cs), close)
  unfolding body_items print_constraints print_constraint type_eq text_eq
  body_items-constraints fuel ts ds [] rest h = rw append-nil refl
  body_items-constraints zero ts ds (c ∷ cs) rest h = absurd (omega arith)
  body_items-constraints (suc fuel) ts ds (c ∷ cs) rest h =
      rw
        (
          body_item,
          parse_constraint-print (suc fuel) c
              (print_constraints cs (token rbrace (text "}") ∷ rest)),
        )
        (body_items-constraints fuel ts (ds ++ c ∷ []) cs rest (omega arith) ∙ rw append_assoc)

  unfoldable tasks_fuel : List TaskDslNode → ℕ
  tasks_fuel [] = 0
  tasks_fuel (t ∷ ts) = suc (length t.depends_on) + tasks_fuel ts

  body_items-print :
      (fuel : ℕ) (done tasks : List TaskDslNode) (cs : List ConstraintDslNode) (rest : Tokens)
      → All HasHandler tasks
      → tasks_fuel tasks + length cs ≤ fuel
      → let close = token rbrace (text "}") ∷ rest in
        body_items
          (suc (suc (suc (suc (suc (suc fuel))))))
          (done, [])
          (print_tasks tasks (print_constraints cs close))
        ≡ ok ((done ++ tasks, cs), close)
  unfolding body_items print_tasks print_task tasks_fuel type_eq text_eq
  body_items-print fuel done [] cs rest k h =
      body_items-constraints (suc (suc fuel)) done [] cs rest (omega arith) ∙ rw append-nil refl
  body_items-print zero done (t ∷ ts) cs rest k h = absurd (omega arith)
  body_items-print (suc fuel) done (t ∷ ts) cs rest (k, ks) h =
      rw
        (
          body_item,
          parse_task-print (suc fuel) t
              (print_tasks ts (print_constraints cs (token rbrace (text "}") ∷ rest))) k
              (omega arith),
        )
        (body_items-print fuel (done ++ t ∷ []) ts cs rest ks (omega arith) ∙ rw append_assoc)

  parse_workflow-print :
      (fuel : ℕ) (w : WorkflowDslNode) (rest : Tokens)
      → All HasHandler w.tasks
      → tasks_fuel w.tasks + length w.constraints ≤ fuel
      → parse_workflow (suc (suc (suc (suc (suc (suc fuel)))))) (print_workflow w rest)
        ≡ ok (w, rest)
  unfolding parse_workflow print_workflow type_eq text_eq expect_keyword expect_ident expect
      expect_token expect_number
  parse_workflow-print fuel w rest k h =
      rw (number_of-digits, body_items-print fuel [] w.tasks w.constraints rest k h) refl

  length-print_names : (ns : List Text) → length ns ≤ length (print_names ns)
  unfolding print_names
  length-print_names [] = omega arith
  length-print_names (n ∷ []) = omega arith
  length-print_names (n ∷ m ∷ ms) = omega (arith, length-print_names (m ∷ ms))

  length-print_constraints :
      (cs : List ConstraintDslNode) (rest : Tokens) → length cs ≤ length (print_constraints cs rest)
  unfolding print_constraints print_constraint
  length-print_constraints [] rest = omega arith
  length-print_constraints (c ∷ cs) rest = omega (arith, length-print_constraints cs rest)

  length-print_task :
      (t : TaskDslNode) (rest : Tokens)
      → length t.depends_on + length rest < length (print_task t rest)
  unfolding print_task
  length-print_task t rest = omega (
    arith,
    length-append (print_names t.depends_on)
        (token rbracket (text "]") ∷ (print_optional t.optional ++ token rbrace (text "}") ∷ rest)),
    length-append (print_optional t.optional) (token rbrace (text "}") ∷ rest),
    length-print_names t.depends_on,
  )

  length-print_tasks :
      (ts : List TaskDslNode) (rest : Tokens)
      → tasks_fuel ts + length rest ≤ length (print_tasks ts rest)
  unfolding print_tasks tasks_fuel
  length-print_tasks [] rest = omega arith
  length-print_tasks (t ∷ ts) rest =
      omega (arith, length-print_task t (print_tasks ts rest), length-print_tasks ts rest)

  -- The parser reads back every workflow whose tasks have handlers, printed as tokens, whatever
  -- follows its closing brace: the fuel that it is given, from the number of tokens, is enough.
  pub parse_tokens-print :
      (w : WorkflowDslNode) (rest : Tokens)
      → All HasHandler w.tasks
      → parse_tokens (print_workflow w rest) ≡ ok w
  unfolding parse_tokens print_workflow
  parse_tokens-print w rest k =
      let close = token rbrace (text "}") ∷ rest in
      let inner = print_constraints w.constraints close in
      rw
        (parse_workflow-print (suc (suc (length (print_tasks w.tasks inner)))) w rest k (
          omega (
            arith,
            length-print_tasks w.tasks inner,
            length-print_constraints w.constraints close,
          )))
        refl
