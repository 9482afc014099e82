-- ===== src/Expressions/Parser/Consumes.antt =====
-- The parser always ends, as each call of a method takes at least one token, and every operator in
-- what it makes is one that the evaluator knows.
use jobflow_project.Common.{
  Bool-cases, List, Text, [], arith, err, includes, inl, inr, length, ok, refl, suc, text, zero, ℕ,
  ◌<◌, ◌>>=◌, ◌∷◌, ◌≤◌,
}
use jobflow_project.Expressions.Ast.{
  Token, TokenType, ident, number, string, op, lparen, rparen, comma, eof, type_eq, ExprNode,
}
use jobflow_project.Expressions.Parser.{
  Parsed, Step, consume, parse_level, parse_unary, parse_primary, parse_add, parse_comparison,
  parse_or, parse_end, parse_tokens,
}
use jobflow_project.Expressions.Parser.Takes.{
  HasKnownOps, Takes, Takes-le, TakesAll, Takes-bind, Anything, consume-Takes, IsParser, IsNested,
}
use jobflow_project.Expressions.Parser.Operators.{
  parse_level-IsParser, parse_comparison_rest-Takes, parse_unary-Takes,
}
use jobflow_project.Expressions.Parser.Calls.{parse_word-Takes}

module _ {N : Type 0} where
  module _ (of_text : Text → N) where
    primary_of-Takes :
        (nested : Step N) (fuel : ℕ)
        → IsNested fuel nested
        → (t : Token) (type : TokenType) (ts : List Token) → suc (length ts) ≤ fuel
        → Takes HasKnownOps
            (suc (length ts))
            (parse_primary of_text nested fuel (record t { type = type } ∷ ts))
    unfolding parse_primary HasKnownOps
    primary_of-Takes nested fuel f t number ts b = (tt, omega arith)
    primary_of-Takes nested fuel f t string ts b = (tt, omega arith)
    primary_of-Takes nested fuel f t ident ts b =
        parse_word-Takes nested fuel t.value f ts (omega arith)
    primary_of-Takes nested fuel f t lparen ts b =
        Takes-bind HasKnownOps HasKnownOps (length ts) (suc (length ts)) (nested ts) _
          (f ts (omega arith))
          (λ inner ts₁ k b₁.
            Takes-bind Anything HasKnownOps (length ts₁) (suc (length ts)) (consume rparen ts₁) _
              (consume-Takes rparen ts₁ (omega arith)) (λ r ts₂ a b₂. (k, omega arith)))
    primary_of-Takes nested fuel f t rparen ts b = refl
    primary_of-Takes nested fuel f t comma ts b = refl
    primary_of-Takes nested fuel f t op ts b = refl
    primary_of-Takes nested fuel f t eof ts b = refl

    parse_primary-IsParser :
        (nested : Step N) (fuel : ℕ)
        → IsNested fuel nested
        → IsParser fuel (parse_primary of_text nested fuel)
    unfolding parse_primary
    parse_primary-IsParser nested fuel f [] b = refl
    parse_primary-IsParser nested fuel f (t ∷ ts) b = primary_of-Takes nested fuel f t t.type ts b

    parse_add-IsParser :
        (nested : Step N) (fuel : ℕ)
        → IsNested fuel nested
        → IsParser fuel (parse_add of_text nested fuel)
    unfolding parse_add includes
    parse_add-IsParser nested fuel f =
        let primary = parse_primary of_text nested fuel in
        let products = text "*" ∷ text "/" ∷ [] in
        parse_level-IsParser (text "+" ∷ text "-" ∷ [])
          (parse_level products (parse_unary primary fuel) fuel) fuel (λ o h. ground (arith, h))
          (parse_level-IsParser products (parse_unary primary fuel) fuel (λ o h. ground (arith, h))
            (λ ts b.
              parse_unary-Takes primary fuel fuel (parse_primary-IsParser nested fuel f) ts b b))

    parse_comparison-IsParser :
        (nested : Step N) (fuel : ℕ)
        → IsNested fuel nested
        → IsParser fuel (parse_comparison of_text nested fuel)
    unfolding parse_comparison
    parse_comparison-IsParser nested fuel f ts b =
        let add = parse_add of_text nested fuel in
        let adds = parse_add-IsParser nested fuel f in
        Takes-bind HasKnownOps HasKnownOps (length ts) (length ts) (add ts) _ (adds ts b)
          (λ left ts₁ l b₁.
            Takes-le HasKnownOps (suc (length ts₁)) (length ts) _ (omega arith)
              (parse_comparison_rest-Takes add fuel adds left ts₁ l (omega arith)))

    parse_or-Takes :
        (fuel : ℕ) (ts : List Token)
        → length ts < fuel
        → Takes HasKnownOps (length ts) (parse_or of_text fuel ts)
    unfolding parse_or includes
    parse_or-Takes zero ts b = absurd (omega arith)
    parse_or-Takes (suc fuel) ts b =
        let comparison = parse_comparison of_text (parse_or of_text fuel) fuel in
        let conjunction = parse_level (text "&&" ∷ []) comparison fuel in
        parse_level-IsParser (text "||" ∷ []) conjunction fuel (λ o h. ground (arith, h))
          (parse_level-IsParser (text "&&" ∷ []) comparison fuel (λ o h. ground (arith, h))
            (parse_comparison-IsParser (parse_or of_text fuel) fuel (parse_or-Takes fuel)))
          ts (omega arith)

    end_of :
        (n : ℕ) (r : Parsed (ExprNode N))
        → Takes HasKnownOps n r
        → TakesAll HasKnownOps (r >>= parse_end of_text)
    unfolding parse_end
    end_of n (err e) t = t
    end_of n (ok (m, [])) t = refl
    end_of n (ok (m, u ∷ ts)) t = elim (Bool-cases (type_eq u.type eof)) [
      | inl e ↦ rw e t.0
      | inr e ↦ rw e refl
    ]

    pub parse_tokens-HasKnownOps :
        (ts : List Token) → TakesAll HasKnownOps (parse_tokens of_text ts)
    unfolding parse_tokens
    parse_tokens-HasKnownOps ts =
        end_of (length ts) (parse_or of_text (suc (length ts)) ts)
          (parse_or-Takes (suc (length ts)) ts (omega arith))
