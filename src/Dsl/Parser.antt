-- ===== src/Dsl/Parser.antt =====
-- src/dsl/parser.ts: recursive descent over the tokens. A parser reads off the front of what is left
-- of them.
pub mod Numbers
pub mod Printer
pub mod Loops
use jobflow_project.Common.{
  Bool, List, Result, Text, [], err, false, if◌then◌else◌, length, ok, suc, text, text_eq, true,
  zero, ℕ, ◌&&◌, ◌*◌, ◌++◌, ◌+◌, ◌-◌, ◌||◌, ◌∷◌,
}
use jobflow_project.Domain.{Severity}
use jobflow_project.Dsl.Ast.{
  TaskDslNode, ConstraintDslNode, WorkflowDslNode, DslToken, DslTokenType, keyword, ident, number,
  string, lbrace, rbrace, lbracket, rbracket, colon, comma, type_eq,
}
use jobflow_project.Dsl.Lexer
use jobflow_project.Dsl.Lexer.{LexError, tokenize}

-- The errors that are thrown. `out_of_fuel` has no counterpart: it stands for a loop that goes on.
pub data ParseError : Type 0 where
  lex_error : LexError → ParseError
  expected_type : (expected : DslTokenType) (got : DslToken) → ParseError
  expected_keyword : Text → ParseError
  expected_name : (got : DslTokenType) → ParseError
  unexpected_in_workflow : Text → ParseError
  unknown_task_field : Text → ParseError
  missing_handler : (id : Text) → ParseError
  no_token : ParseError
  out_of_fuel : ParseError

abbrev pub Tokens : Type 0
Tokens = List DslToken

abbrev pub Parser : Type 0 → Type 0
Parser A = Tokens → Result ParseError (A × Tokens)

module _ {A : Type 0} where
  abbrev pub pure : A → Parser A
  pure a ts = ok (a, ts)

  abbrev pub fail : ParseError → Parser A
  fail e ts = err e

module _ {A B : Type 0} where
  abbrev pub continue :
      Result ParseError (A × Tokens) → (A → Parser B) → Result ParseError (B × Tokens)
  continue (ok (a, rest)) f = f a rest
  continue (err e) f = err e

  infixl 5 ◌>>=◌
  abbrev pub ◌>>=◌ : Parser A → (A → Parser B) → Parser B
  ◌>>=◌ p f ts = continue (p ts) f

infixl 5 ◌>>◌
abbrev pub ◌>>◌ : {B : Type 0} → Parser (Unit {0}) → Parser B → Parser B
p >> q = p >>= λ _. q

-- `expect`, with its token, and without it.
unfoldable pub expect_token : DslTokenType → Parser DslToken
expect_token type [] = err no_token
expect_token type (t ∷ ts) = if type_eq t.type type then ok (t, ts) else err (expected_type type t)

unfoldable pub expect : DslTokenType → Parser (Unit {0})
unfolding expect_token
expect type = do t ← expect_token type; pure tt

unfoldable pub expect_keyword : Text → Parser (Unit {0})
unfolding expect_token
expect_keyword kw = do
  t ← expect_token keyword
  if text_eq t.value kw then pure tt else fail (expected_keyword kw)

unfoldable pub expect_ident : Parser Text
unfolding expect_token
expect_ident = do t ← expect_token ident; pure t.value

unfoldable pub expect_ident_or_string : Parser Text
expect_ident_or_string [] = err no_token
expect_ident_or_string (t ∷ ts) =
    if type_eq t.type ident || type_eq t.type string
    then ok (t.value, ts)
    else err (expected_name t.type)

-- `Number(value)` of a run of decimal digits.
unfoldable pub number_onto : ℕ → Text → ℕ
number_onto n [] = n
number_onto n (c ∷ cs) = number_onto (n * 10 + (c - b'0')) cs

unfoldable pub number_of : Text → ℕ
unfolding number_onto
number_of digits = number_onto 0 digits

unfoldable pub expect_number : Parser ℕ
unfolding expect_token number_of
expect_number = do t ← expect_token number; pure (number_of t.value)

abbrev pub is_keyword : DslToken → Text → Bool
is_keyword t kw = type_eq t.type keyword && text_eq t.value kw

-- The token after a name is dropped where it is a comma.
unfoldable pub skip_comma : Parser (Unit {0})
skip_comma [] = err no_token
skip_comma (t ∷ ts) = if type_eq t.type comma then ok (tt, ts) else ok (tt, t ∷ ts)

-- The loop inside `[` and `]`. A comma is skipped where there is one.
unfoldable pub parse_names : ℕ → (names : List Text) → Parser (List Text)
unfolding expect_ident_or_string
parse_names zero names ts = err out_of_fuel
parse_names (suc fuel) names [] = err no_token
parse_names (suc fuel) names (t ∷ ts) = elim (type_eq t.type rbracket) [
  | true ↦ ok (names, t ∷ ts)
  | false ↦
      (do name ← expect_ident_or_string; skip_comma; parse_names fuel (names ++ name ∷ [])) (t ∷ ts)
]

-- The fields of a task, as the loop of `parseTask` gathers them.
pub record TaskFields : Type 0 where
  pub handler : Text
  pub timeout_ms : ℕ
  pub depends_on : List Text
  pub optional : Bool

-- One round of the loop, at the token `t` that it looks at.
unfoldable pub task_field : ℕ → TaskFields → DslToken → Parser TaskFields
unfolding expect_keyword expect expect_token expect_number parse_names
task_field fuel f t =
    if is_keyword t (text "handler")
    then (do
      expect_keyword (text "handler")
      expect colon
      s ← expect_token string
      pure (record f { handler = s.value }))
    else if is_keyword t (text "timeout")
    then (do
      expect_keyword (text "timeout")
      expect colon
      n ← expect_number
      pure (record f { timeout_ms = n }))
    else if is_keyword t (text "depends")
    then (do
      expect_keyword (text "depends")
      expect colon
      expect lbracket
      names ← parse_names fuel f.depends_on
      expect rbracket
      pure (record f { depends_on = names }))
    else if is_keyword t (text "optional")
    then (do expect_keyword (text "optional"); pure (record f { optional = true }))
    else fail (unknown_task_field t.value)

unfoldable pub task_fields : ℕ → TaskFields → Parser TaskFields
unfolding task_field
task_fields zero f ts = err out_of_fuel
task_fields (suc fuel) f [] = err no_token
task_fields (suc fuel) f (t ∷ ts) = elim (type_eq t.type rbrace) [
  | true ↦ ok (f, t ∷ ts)
  | false ↦ (do f' ← task_field fuel f t; task_fields fuel f') (t ∷ ts)
]

abbrev pub no_fields : TaskFields
no_fields = record { handler = []; timeout_ms = 30000; depends_on = []; optional = false }

unfoldable pub finish_task : Text → TaskFields → Parser TaskDslNode
finish_task id f =
    if text_eq f.handler []
    then fail (missing_handler id)
    else pure (record {
      id = id;
      handler = f.handler;
      timeout_ms = f.timeout_ms;
      depends_on = f.depends_on;
      optional = f.optional;
    })

unfoldable pub parse_task : ℕ → Parser TaskDslNode
unfolding expect_keyword expect_ident expect task_fields finish_task
parse_task fuel = do
  expect_keyword (text "task")
  id ← expect_ident
  expect colon
  expect lbrace
  f ← task_fields fuel no_fields
  expect rbrace
  finish_task id f

-- One round of the loop of `parseConstraint`. No branch takes another token: the round then changes
-- nothing.
unfoldable pub constraint_field : Text × Severity → DslToken → Parser (Text × Severity)
unfolding expect_keyword expect expect_token
constraint_field (expr, severity) t =
    if is_keyword t (text "expr")
    then (do
      expect_keyword (text "expr")
      expect colon
      s ← expect_token string
      pure (s.value, severity))
    else if is_keyword t (text "warn")
    then (do expect_keyword (text "warn"); pure (expr, Severity.warn))
    else if is_keyword t (text "block")
    then (do expect_keyword (text "block"); pure (expr, Severity.block))
    else pure (expr, severity)

unfoldable pub constraint_fields : ℕ → Text × Severity → Parser (Text × Severity)
unfolding constraint_field
constraint_fields zero f ts = err out_of_fuel
constraint_fields (suc fuel) f [] = err no_token
constraint_fields (suc fuel) f (t ∷ ts) = elim (type_eq t.type rbrace) [
  | true ↦ ok (f, t ∷ ts)
  | false ↦ (do f' ← constraint_field f t; constraint_fields fuel f') (t ∷ ts)
]

unfoldable pub parse_constraint : ℕ → Parser ConstraintDslNode
unfolding expect_keyword expect_ident expect constraint_fields
parse_constraint fuel = do
  expect_keyword (text "constraint")
  id ← expect_ident
  expect colon
  expect lbrace
  (expr, severity) ← constraint_fields fuel ([], Severity.block)
  expect rbrace
  pure (record { id = id; expr = expr; severity = severity })

abbrev pub Body : Type 0
Body = List TaskDslNode × List ConstraintDslNode

-- One round of the loop of `parse`.
unfoldable pub body_item : ℕ → Body → DslToken → Parser Body
unfolding parse_task parse_constraint
body_item fuel (tasks, constraints) t =
    if is_keyword t (text "task")
    then (do task ← parse_task fuel; pure (tasks ++ task ∷ [], constraints))
    else if is_keyword t (text "constraint")
    then (do c ← parse_constraint fuel; pure (tasks, constraints ++ c ∷ []))
    else fail (unexpected_in_workflow t.value)

unfoldable pub body_items : ℕ → Body → Parser Body
unfolding body_item
body_items zero b ts = err out_of_fuel
body_items (suc fuel) b [] = err no_token
body_items (suc fuel) b (t ∷ ts) = elim (type_eq t.type rbrace) [
  | true ↦ ok (b, t ∷ ts)
  | false ↦ (do b' ← body_item fuel b t; body_items fuel b') (t ∷ ts)
]

unfoldable pub parse_workflow : ℕ → Parser WorkflowDslNode
unfolding expect_keyword expect_ident expect expect_number body_items
parse_workflow fuel = do
  expect_keyword (text "workflow")
  name ← expect_ident
  expect colon
  expect lbrace
  expect_keyword (text "version")
  expect colon
  version ← expect_number
  (tasks, constraints) ← body_items fuel ([], [])
  expect rbrace
  pure (record { name = name; version = version; tasks = tasks; constraints = constraints })

-- What follows the workflow's closing brace is not looked at.
unfoldable pub parse_tokens : Tokens → Result ParseError WorkflowDslNode
unfolding parse_workflow
parse_tokens ts = first (parse_workflow (suc (length ts)) ts)
  where
    first : Result ParseError (WorkflowDslNode × Tokens) → Result ParseError WorkflowDslNode
    first (ok (w, rest)) = ok w
    first (err e) = err e

unfoldable pub parse : Text → Result ParseError WorkflowDslNode
unfolding tokenize parse_tokens
parse source = read (tokenize source)
  where
    read : Result LexError Tokens → Result ParseError WorkflowDslNode
    read (ok ts) = parse_tokens ts
    read (err e) = err (lex_error e)
