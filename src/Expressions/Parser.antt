-- ===== src/Expressions/Parser.antt =====
-- src/expressions/parser.ts: `ExpressionParser`, on the tokens that are left. Each method is a function;
-- the one for nested expressions, `parseOr`, is an argument of those that call it from within.
pub mod Takes
pub mod Operators
pub mod Calls
pub mod Consumes
use jobflow_project.Common.{
  List, Result, Text, [], err, false, if◌then◌else◌, includes, length, ok, suc, text, text_eq, true,
  zero, ℕ, ◌&&◌, ◌*◌, ◌+◌, ◌-◌, ◌/◌, ◌<◌, ◌==◌, ◌>>=◌, ◌||◌, ◌∷◌,
}
use jobflow_project.Expressions.Ast.{
  Token, TokenType, ident, number, string, op, lparen, rparen, comma, eof, type_eq, ExprError,
  unexpected_value, unexpected_type, expected, no_token, out_of_fuel, ExprNode, literal, identifier,
  unary, binary, call, ExprNodes, no_nodes, node, not_op, neg_op, text_literal, number_literal,
  boolean_literal, null_literal,
}
use jobflow_project.Expressions.Tokenizer.{tokenize}

abbrev pub Parsed : Type 0 → Type 0
Parsed A = Result ExprError (A × List Token)

unfoldable pub consume : TokenType → List Token → Parsed Token
unfolding type_eq
consume type [] = err no_token
consume type (t ∷ ts) = if type_eq t.type type then ok (t, ts) else err (expected type t.type)

abbrev pub comparison_ops : List Text
comparison_ops = text "==" ∷ text "!=" ∷ text "<" ∷ text "<=" ∷ text ">" ∷ text ">=" ∷ []

abbrev pub Step : Type 0 → Type 0
Step N = List Token → Parsed (ExprNode N)

-- `N` is the type of the doubles, and `of_text` the conversion of a text to one.
module _ {N : Type 0} where
  -- `while (ops.includes(this.peek().value))` with its body.
  unfoldable pub parse_rest : List Text → Step N → ℕ → ExprNode N → List Token → Parsed (ExprNode N)
  unfolding consume
  parse_rest ops operand fuel left [] = err no_token
  parse_rest ops operand zero left (t ∷ ts) =
      if includes ops t.value then err out_of_fuel else ok (left, t ∷ ts)
  parse_rest ops operand (suc fuel) left (t ∷ ts) = elim (includes ops t.value) [
    | false ↦ ok (left, t ∷ ts)
    | true ↦ consume op (t ∷ ts) >>= λ (o, ts₁).
        operand ts₁ >>= λ (right, ts₂). parse_rest ops operand fuel (binary o.value left right) ts₂
  ]

  unfoldable pub parse_level : List Text → Step N → ℕ → Step N
  unfolding parse_rest
  parse_level ops operand fuel ts =
      operand ts >>= λ (left, ts₁). parse_rest ops operand fuel left ts₁

  -- At most one comparison.
  unfoldable pub parse_comparison_rest : Step N → ExprNode N → List Token → Parsed (ExprNode N)
  unfolding consume
  parse_comparison_rest operand left [] = err no_token
  parse_comparison_rest operand left (t ∷ ts) =
      if includes comparison_ops t.value
      then (consume op (t ∷ ts) >>= λ (o, ts₁).
          operand ts₁ >>= λ (right, ts₂). ok (binary o.value left right, ts₂))
      else ok (left, t ∷ ts)

  unfoldable pub parse_unary : Step N → ℕ → Step N
  unfolding consume
  parse_unary primary fuel [] = err no_token
  parse_unary primary zero (t ∷ ts) = err out_of_fuel
  parse_unary primary (suc fuel) (t ∷ ts) = elim (text_eq t.value (text "!")) [
    | true ↦ consume op (t ∷ ts) >>= λ (o, ts₁).
        parse_unary primary fuel ts₁ >>= λ (arg, ts₂). ok (unary not_op arg, ts₂)
    | false ↦ elim (text_eq t.value (text "-")) [
      | true ↦ consume op (t ∷ ts) >>= λ (o, ts₁).
          parse_unary primary fuel ts₁ >>= λ (arg, ts₂). ok (unary neg_op arg, ts₂)
      | false ↦ primary (t ∷ ts)
    ]
  ]

  -- `while (this.peek().type === "comma")` with its body.
  unfoldable pub parse_more_args : Step N → ℕ → List Token → Parsed (ExprNodes N)
  unfolding consume type_eq
  parse_more_args nested fuel [] = err no_token
  parse_more_args nested zero (t ∷ ts) =
      if type_eq t.type comma then err out_of_fuel else ok (no_nodes, t ∷ ts)
  parse_more_args nested (suc fuel) (t ∷ ts) = elim (type_eq t.type comma) [
    | false ↦ ok (no_nodes, t ∷ ts)
    | true ↦ consume comma (t ∷ ts) >>= λ (c, ts₁). nested ts₁ >>= λ (arg, ts₂).
        parse_more_args nested fuel ts₂ >>= λ (args, ts₃). ok (node arg args, ts₃)
  ]

  unfoldable pub parse_args : Step N → ℕ → List Token → Parsed (ExprNodes N)
  unfolding parse_more_args type_eq
  parse_args nested fuel [] = err no_token
  parse_args nested fuel (t ∷ ts) =
      if type_eq t.type rparen
      then ok (no_nodes, t ∷ ts)
      else (nested (t ∷ ts) >>= λ (arg, ts₁).
          parse_more_args nested fuel ts₁ >>= λ (args, ts₂). ok (node arg args, ts₂))

  -- What follows a name.
  unfoldable pub parse_named : Step N → ℕ → Text → List Token → Parsed (ExprNode N)
  unfolding parse_args consume type_eq
  parse_named nested fuel name [] = err no_token
  parse_named nested fuel name (t ∷ ts) =
      if type_eq t.type lparen
      then (consume lparen (t ∷ ts) >>= λ (l, ts₁). parse_args nested fuel ts₁ >>= λ (args, ts₂).
          consume rparen ts₂ >>= λ (r, ts₃). ok (call name args, ts₃))
      else ok (identifier name, t ∷ ts)

  unfoldable pub parse_word : Step N → ℕ → Text → List Token → Parsed (ExprNode N)
  unfolding parse_named
  parse_word nested fuel name ts =
      if text_eq name (text "true")
      then ok (literal (boolean_literal true), ts)
      else if text_eq name (text "false")
      then ok (literal (boolean_literal false), ts)
      else if text_eq name (text "null")
      then ok (literal null_literal, ts)
      else parse_named nested fuel name ts

  module _ (of_text : Text → N) where
    unfoldable pub parse_primary : Step N → ℕ → Step N
    unfolding parse_word consume
    parse_primary nested fuel [] = err no_token
    parse_primary nested fuel (t ∷ ts) = elim t.type [
      | number ↦ ok (literal (number_literal (of_text t.value)), ts)
      | string ↦ ok (literal (text_literal t.value), ts)
      | ident ↦ parse_word nested fuel t.value ts
      | lparen ↦ nested ts >>= λ (inner, ts₁). consume rparen ts₁ >>= λ (r, ts₂). ok (inner, ts₂)
      | rparen ↦ err (unexpected_type rparen)
      | comma ↦ err (unexpected_type comma)
      | op ↦ err (unexpected_type op)
      | eof ↦ err (unexpected_type eof)
    ]

    -- `parseAdd`, with those that it calls, and `parseComparison`.
    unfoldable pub parse_add : Step N → ℕ → Step N
    unfolding parse_level parse_unary parse_primary
    parse_add nested fuel =
        parse_level (text "+" ∷ text "-" ∷ [])
          (parse_level (text "*" ∷ text "/" ∷ []) (parse_unary (parse_primary nested fuel) fuel)
            fuel)
          fuel

    unfoldable pub parse_comparison : Step N → ℕ → Step N
    unfolding parse_add parse_comparison_rest
    parse_comparison nested fuel ts = parse_add nested fuel ts >>= λ (left, ts₁).
        parse_comparison_rest (parse_add nested fuel) left ts₁

    unfoldable pub parse_or : ℕ → Step N
    unfolding parse_level parse_comparison
    parse_or zero ts = err out_of_fuel
    parse_or (suc fuel) ts =
        parse_level (text "||" ∷ [])
          (parse_level (text "&&" ∷ []) (parse_comparison (parse_or fuel) fuel) fuel) fuel ts

    -- Nothing may follow. The fuel is one more than the number of tokens.
    unfoldable pub parse_end : ExprNode N × List Token → Result ExprError (ExprNode N)
    unfolding type_eq
    parse_end (n, []) = err no_token
    parse_end (n, t ∷ ts) = if type_eq t.type eof then ok n else err (unexpected_value t.value)

    unfoldable pub parse_tokens : List Token → Result ExprError (ExprNode N)
    unfolding parse_or parse_end
    parse_tokens ts = parse_or (suc (length ts)) ts >>= parse_end

    unfoldable pub parse : Text → Result ExprError (ExprNode N)
    unfolding tokenize parse_tokens
    parse input = tokenize input >>= parse_tokens
