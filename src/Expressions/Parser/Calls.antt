-- ===== src/Expressions/Parser/Calls.antt =====
-- The arguments of a call, and names, take their tokens.
use jobflow_project.Common.{
  Bool-cases, List, Text, [], arith, inl, inr, length, refl, suc, text, text_eq, zero, ℕ, ◌<◌, ◌∷◌,
  ◌≤◌,
}
use jobflow_project.Expressions.Ast.{Token, lparen, rparen, comma, type_eq}
use jobflow_project.Expressions.Parser.{
  Step, consume, parse_more_args, parse_args, parse_named, parse_word,
}
use jobflow_project.Expressions.Parser.Takes.{
  HasKnownOps, HaveKnownOps, Takes, Takes-bind, Anything, consume-Takes, IsNested,
}

module _ {N : Type 0} where
  parse_more_args-Takes :
      (nested : Step N) (fuel bound : ℕ)
      → IsNested fuel nested
      → (ts : List Token) → length ts ≤ bound
      → bound ≤ fuel
      → Takes HaveKnownOps (suc (length ts)) (parse_more_args nested bound ts)
  unfolding parse_more_args HasKnownOps
  parse_more_args-Takes nested fuel bound f [] b c = refl
  parse_more_args-Takes nested fuel zero f (t ∷ ts) b c = absurd (omega arith)
  parse_more_args-Takes nested fuel (suc bound) f (t ∷ ts) b c =
      elim (Bool-cases (type_eq t.type comma)) [
        | inr e ↦ rw (e, parse_more_args) (tt, omega arith)
        | inl e ↦
            rw (e, parse_more_args)
              (Takes-bind Anything HaveKnownOps (suc (length ts)) (suc (suc (length ts)))
                (consume comma (t ∷ ts)) _ (consume-Takes comma (t ∷ ts) (omega arith))
                (λ c' ts₁ a b₁.
                  Takes-bind HasKnownOps HaveKnownOps (length ts₁) (suc (suc (length ts)))
                    (nested ts₁) _ (f ts₁ (omega arith))
                    (λ arg ts₂ k b₂.
                      Takes-bind HaveKnownOps HaveKnownOps (suc (length ts₂))
                        (suc (suc (length ts))) (parse_more_args nested bound ts₂) _
                        (parse_more_args-Takes nested fuel bound f ts₂ (omega arith) (omega arith))
                        (λ args ts₃ ks b₃. ((k, ks), omega arith)))))
      ]

  parse_args-Takes :
      (nested : Step N) (fuel : ℕ)
      → IsNested fuel nested
      → (ts : List Token) → length ts < fuel
      → Takes HaveKnownOps (suc (length ts)) (parse_args nested fuel ts)
  unfolding parse_args HasKnownOps
  parse_args-Takes nested fuel f [] b = refl
  parse_args-Takes nested fuel f (t ∷ ts) b = elim (Bool-cases (type_eq t.type rparen)) [
    | inl e ↦ rw e (tt, omega arith)
    | inr e ↦ rw e (
        Takes-bind HasKnownOps HaveKnownOps (suc (length ts)) (suc (suc (length ts)))
          (nested (t ∷ ts)) _ (f (t ∷ ts) b)
          (λ arg ts₁ k b₁.
            Takes-bind HaveKnownOps HaveKnownOps (suc (length ts₁)) (suc (suc (length ts)))
              (parse_more_args nested fuel ts₁) _
              (parse_more_args-Takes nested fuel fuel f ts₁ (omega arith) (omega arith))
              (λ args ts₂ ks b₂. ((k, ks), omega arith))))
  ]

  parse_named-Takes :
      (nested : Step N) (fuel : ℕ) (name : Text)
      → IsNested fuel nested
      → (ts : List Token) → length ts ≤ fuel
      → Takes HasKnownOps (suc (length ts)) (parse_named nested fuel name ts)
  unfolding parse_named HasKnownOps
  parse_named-Takes nested fuel name f [] b = refl
  parse_named-Takes nested fuel name f (t ∷ ts) b = elim (Bool-cases (type_eq t.type lparen)) [
    | inr e ↦ rw e (tt, omega arith)
    | inl e ↦ rw e (
        Takes-bind HaveKnownOps HasKnownOps (suc (length ts)) (suc (suc (length ts)))
          (parse_args nested fuel ts) _ (parse_args-Takes nested fuel f ts (omega arith))
          (λ args ts₂ ks b₂.
            Takes-bind Anything HasKnownOps (length ts₂) (suc (suc (length ts)))
              (consume rparen ts₂) _ (consume-Takes rparen ts₂ (omega arith))
              (λ r ts₃ a₃ b₃. (ks, omega arith))))
  ]

  pub parse_word-Takes :
      (nested : Step N) (fuel : ℕ) (name : Text)
      → IsNested fuel nested
      → (ts : List Token) → length ts ≤ fuel
      → Takes HasKnownOps (suc (length ts)) (parse_word nested fuel name ts)
  unfolding parse_word HasKnownOps
  parse_word-Takes nested fuel name f ts b = elim (Bool-cases (text_eq name (text "true"))) [
    | inl e ↦ rw e (tt, omega arith)
    | inr e ↦ elim (Bool-cases (text_eq name (text "false"))) [
      | inl e₂ ↦ rw (e, e₂) (tt, omega arith)
      | inr e₂ ↦ elim (Bool-cases (text_eq name (text "null"))) [
        | inl e₃ ↦ rw (e, e₂, e₃) (tt, omega arith)
        | inr e₃ ↦ rw (e, e₂, e₃) (parse_named-Takes nested fuel name f ts b)
      ]
    ]
  ]
