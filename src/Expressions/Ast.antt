-- ===== src/Expressions/Ast.antt =====
-- src/expressions/ast.ts, with the tokens of tokenizer.ts and what the parts of src/expressions throw.
use jobflow_project.Common.{Bool, Text, false, true, ℕ}

pub data TokenType : Type 0 where
  ident number string op lparen rparen comma eof : TokenType

unfoldable pub type_eq : TokenType → TokenType → Bool
type_eq ident ident = true
type_eq number number = true
type_eq string string = true
type_eq op op = true
type_eq lparen lparen = true
type_eq rparen rparen = true
type_eq comma comma = true
type_eq eof eof = true
type_eq _ _ = false

pub record Token : Type 0 where
  pub type : TokenType
  pub value : Text
  pub pos : ℕ

-- `out_of_fuel` has no counterpart in the program; `no_token` is the reading of a property of
-- `undefined`, and `thrown` is what a function throws that is not one of the built-in ones, and `no_conversion` the
-- `TypeError` of an object that has no primitive value.
pub data ExprError : Type 0 where
  unexpected_character : (pos ch : ℕ) → ExprError
  unexpected_value : Text → ExprError
  unexpected_type : TokenType → ExprError
  expected : (type got : TokenType) → ExprError
  unknown_function : Text → ExprError
  unknown_operator : Text → ExprError
  thrown : Text → ExprError
  no_conversion : Text → ExprError
  no_token : ExprError
  out_of_fuel : ExprError

-- What the tokenizer and the parser throw, and what calls of functions throw.
abbrev pub is_syntax_error : ExprError → Bool
is_syntax_error (unexpected_character pos ch) = true
is_syntax_error (unexpected_value v) = true
is_syntax_error (unexpected_type t) = true
is_syntax_error (expected type got) = true
is_syntax_error no_token = true
is_syntax_error (unknown_function name) = false
is_syntax_error (unknown_operator o) = false
is_syntax_error (thrown message) = false
is_syntax_error (no_conversion message) = false
is_syntax_error out_of_fuel = false

abbrev pub is_call_error : ExprError → Bool
is_call_error (unknown_function name) = true
is_call_error (thrown message) = true
is_call_error (no_conversion message) = false
is_call_error (unexpected_character pos ch) = false
is_call_error (unexpected_value v) = false
is_call_error (unexpected_type t) = false
is_call_error (expected type got) = false
is_call_error no_token = false
is_call_error (unknown_operator o) = false
is_call_error out_of_fuel = false

pub data UnaryOp : Type 0 where
  not_op neg_op : UnaryOp

-- `N` is the type of the doubles.
pub data Literal (N : Type 0) : Type 0 where
  text_literal : Text → Literal N
  number_literal : N → Literal N
  boolean_literal : Bool → Literal N
  null_literal : Literal N

mutual
  pub data ExprNode (N : Type 0) : Type 0 where
    literal : Literal N → ExprNode N
    identifier : (name : Text) → ExprNode N
    unary : UnaryOp → (arg : ExprNode N) → ExprNode N
    binary : (op : Text) (left right : ExprNode N) → ExprNode N
    call : (name : Text) → (args : ExprNodes N) → ExprNode N

  pub data ExprNodes (N : Type 0) : Type 0 where
    no_nodes : ExprNodes N
    node : ExprNode N → ExprNodes N → ExprNodes N
