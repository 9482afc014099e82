-- ===== src/Expressions/Parser/Takes.antt =====
-- What a method of the parser is to do: take at least one token, and make only operators that the
-- evaluator knows.
use jobflow_project.Common.{
  Bool-cases, List, Result, Text, [], arith, err, includes, inl, inr, length, ok, refl, suc, text,
  true, ℕ, ◌<◌, ◌>>=◌, ◌∷◌, ◌≡◌, ◌≤◌,
}
use jobflow_project.Expressions.Ast.{
  Token, TokenType, type_eq, ExprError, ExprNode, literal, identifier, unary, binary, call,
  ExprNodes, is_syntax_error, no_nodes, node,
}
use jobflow_project.Expressions.Parser.{Parsed, Step, consume, comparison_ops}

abbrev pub known_ops : List Text
known_ops = text "||" ∷ text "&&" ∷ text "+" ∷ text "-" ∷ text "*" ∷ text "/" ∷ comparison_ops

-- All operators of an expression are known.
unfoldable mutual
  pub HasKnownOps : {N : Type 0} → ExprNode N → Type 0
  HasKnownOps (literal l) = Unit
  HasKnownOps (identifier name) = Unit
  HasKnownOps (unary o arg) = HasKnownOps arg
  HasKnownOps (binary o left right) =
      (includes known_ops o ≡ true) × HasKnownOps left × HasKnownOps right
  HasKnownOps (call name args) = HaveKnownOps args

  pub HaveKnownOps : {N : Type 0} → ExprNodes N → Type 0
  HaveKnownOps no_nodes = Unit
  HaveKnownOps (node n ns) = HasKnownOps n × HaveKnownOps ns

-- A result that meets `P` and leaves fewer tokens than `n`; an error is one of the syntax.
abbrev pub Takes : {A : Type 0} → (A → Type 0) → ℕ → Parsed A → Type 0
Takes P n (ok (a, ts)) = P a × (length ts < n)
Takes P n (err e) = is_syntax_error e ≡ true

-- The same of what takes all.
abbrev pub TakesAll : {A : Type 0} → (A → Type 0) → Result ExprError A → Type 0
TakesAll P (ok a) = P a
TakesAll P (err e) = is_syntax_error e ≡ true

pub Takes-bind :
    {A B : Type 0} (P : A → Type 0) (Q : B → Type 0) (n m : ℕ) (r : Parsed A)
    (next : A × List Token → Parsed B)
    → Takes P n r
    → ((a : A) (ts : List Token) → P a → length ts < n → Takes Q m (next (a, ts)))
    → Takes Q m (r >>= next)
Takes-bind P Q n m (ok (a, ts)) next t f = f a ts t.0 t.1
Takes-bind P Q n m (err e) next t f = t

-- For what takes a part of the rest.
pub Takes-le :
    {A : Type 0} (P : A → Type 0) (n m : ℕ) (r : Parsed A) → n ≤ m → Takes P n r → Takes P m r
Takes-le P n m (ok (a, ts)) b t = (t.0, omega (arith, t.1))
Takes-le P n m (err e) b t = t

abbrev pub Anything : {A : Type 0} → A → Type 0
Anything a = Unit

pub consume-Takes :
    {n : ℕ} (type : TokenType) (ts : List Token)
    → length ts ≤ n
    → Takes Anything n (consume type ts)
unfolding consume
consume-Takes type [] b = refl
consume-Takes type (t ∷ ts) b = elim (Bool-cases (type_eq t.type type)) [
  | inl e ↦ rw e (tt, omega arith)
  | inr e ↦ rw e (refl)
]

-- The value of the token that is taken.
pub consume_value :
    (type : TokenType) (t : Token) (ts : List Token) (P : Text → Type 0)
    → P t.value
    → Takes (λ o. P o.value) (suc (length ts)) (consume type (t ∷ ts))
unfolding consume
consume_value type t ts P p = elim (Bool-cases (type_eq t.type type)) [
  | inl e ↦ rw e (p, omega arith)
  | inr e ↦ rw e (refl)
]

pub comparison_known : (o : Text) → includes comparison_ops o ≡ true → includes known_ops o ≡ true
unfolding includes
comparison_known o h = ground (arith, h)

module _ {N : Type 0} where
  -- A method on at most `fuel` tokens.
  abbrev pub IsParser : ℕ → Step N → Type 0
  IsParser fuel step =
      (ts : List Token) → length ts ≤ fuel → Takes HasKnownOps (length ts) (step ts)

  -- The parser of nested expressions, which is called behind a token at least.
  abbrev pub IsNested : ℕ → Step N → Type 0
  IsNested fuel step =
      (ts : List Token) → length ts < fuel → Takes HasKnownOps (length ts) (step ts)
