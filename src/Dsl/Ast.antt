-- ===== src/Dsl/Ast.antt =====
-- src/dsl/ast.ts and the token types of src/dsl/lexer.ts.
use jobflow_project.Common.{Bool, List, Text, arith, true, ℕ, ◌==◌, ◌↔◌, ◌≡◌}
use jobflow_project.Domain.{Severity}

pub record TaskDslNode : Type 0 where
  pub id : Text
  pub handler : Text
  pub timeout_ms : ℕ
  pub depends_on : List Text
  pub optional : Bool

pub record ConstraintDslNode : Type 0 where
  pub id : Text
  pub expr : Text
  pub severity : Severity

pub record WorkflowDslNode : Type 0 where
  pub name : Text
  pub version : ℕ
  pub tasks : List TaskDslNode
  pub constraints : List ConstraintDslNode

pub data DslTokenType : Type 0 where
  keyword ident number string lbrace rbrace lbracket rbracket colon comma arrow eof : DslTokenType

type_code : DslTokenType → ℕ
type_code keyword = 0
type_code ident = 1
type_code number = 2
type_code string = 3
type_code lbrace = 4
type_code rbrace = 5
type_code lbracket = 6
type_code rbracket = 7
type_code colon = 8
type_code comma = 9
type_code arrow = 10
type_code eof = 11

-- `===` on token types.
unfoldable pub type_eq : DslTokenType → DslTokenType → Bool
unfolding type_code
type_eq a b = type_code a == type_code b

pub type_eq_iff : (a b : DslTokenType) → (type_eq a b ≡ true) ↔ (a ≡ b)
unfolding type_eq
type_eq_iff a b = ground arith

pub record DslToken : Type 0 where
  pub type : DslTokenType
  pub value : Text
  pub line : ℕ
  pub column : ℕ
