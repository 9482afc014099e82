-- ===== src/Expressions/Parser/Operators.antt =====
-- The loops over operators, and the signs, take their tokens.
use jobflow_project.Common.{
  Bool-cases, List, Text, [], arith, includes, inl, inr, length, ok, refl, suc, text, text_eq, true,
  zero, ℕ, ◌>>=◌, ◌∷◌, ◌≡◌, ◌≤◌,
}
use jobflow_project.Expressions.Ast.{Token, op, ExprNode, unary, binary, not_op, neg_op, UnaryOp}
use jobflow_project.Expressions.Parser.{
  Step, consume, comparison_ops, parse_rest, parse_level, parse_comparison_rest, parse_unary,
}
use jobflow_project.Expressions.Parser.Takes.{
  known_ops, HasKnownOps, Takes, Takes-le, Takes-bind, Anything, consume-Takes, consume_value,
  comparison_known, IsParser,
}

module _ {N : Type 0} where
  pub parse_rest-Takes :
      (ops : List Text) (operand : Step N) (fuel bound : ℕ)
      → ((o : Text) → includes ops o ≡ true → includes known_ops o ≡ true)
      → IsParser fuel operand
      → (left : ExprNode N) (ts : List Token) → HasKnownOps left
      → length ts ≤ bound
      → bound ≤ fuel
      → Takes HasKnownOps (suc (length ts)) (parse_rest ops operand bound left ts)
  unfolding parse_rest HasKnownOps
  parse_rest-Takes ops operand fuel bound known f left [] l b c = refl
  parse_rest-Takes ops operand fuel zero known f left (t ∷ ts) l b c = absurd (omega arith)
  parse_rest-Takes ops operand fuel (suc bound) known f left (t ∷ ts) l b c =
      elim (Bool-cases (includes ops t.value)) [
        | inr e ↦ rw (e, parse_rest) (l, omega arith)
        | inl e ↦
            rw (e, parse_rest)
              (Takes-bind (λ o. includes known_ops o.value ≡ true) HasKnownOps (suc (length ts))
                (suc (suc (length ts))) (consume op (t ∷ ts)) _
                (consume_value op t ts (λ v. includes known_ops v ≡ true) (known t.value e))
                (λ o ts₁ k b₁.
                  Takes-bind HasKnownOps HasKnownOps (length ts₁) (suc (suc (length ts)))
                    (operand ts₁) _ (f ts₁ (omega arith))
                    (λ right ts₂ r b₂.
                      Takes-le HasKnownOps (suc (length ts₂)) (suc (suc (length ts))) _
                        (omega arith)
                        (parse_rest-Takes ops operand fuel bound known f (binary o.value left right)
                          ts₂ (k, l, r) (omega arith) (omega arith)))))
      ]

  pub parse_level-IsParser :
      (ops : List Text) (operand : Step N) (fuel : ℕ)
      → ((o : Text) → includes ops o ≡ true → includes known_ops o ≡ true)
      → IsParser fuel operand
      → IsParser fuel (parse_level ops operand fuel)
  unfolding parse_level
  parse_level-IsParser ops operand fuel known f ts b =
      Takes-bind HasKnownOps HasKnownOps (length ts) (length ts) (operand ts) _ (f ts b)
        (λ left ts₁ l b₁.
          Takes-le HasKnownOps (suc (length ts₁)) (length ts) _ (omega arith)
            (parse_rest-Takes ops operand fuel fuel known f left ts₁ l (omega arith) (omega arith)))

  pub parse_comparison_rest-Takes :
      (operand : Step N) (fuel : ℕ)
      → IsParser fuel operand
      → (left : ExprNode N) (ts : List Token) → HasKnownOps left
      → length ts ≤ fuel
      → Takes HasKnownOps (suc (length ts)) (parse_comparison_rest operand left ts)
  unfolding parse_comparison_rest HasKnownOps
  parse_comparison_rest-Takes operand fuel f left [] l b = refl
  parse_comparison_rest-Takes operand fuel f left (t ∷ ts) l b =
      elim (Bool-cases (includes comparison_ops t.value)) [
        | inr e ↦ rw e (l, omega arith)
        | inl e ↦ rw e (
            Takes-bind (λ o. includes known_ops o.value ≡ true) HasKnownOps (suc (length ts))
              (suc (suc (length ts))) (consume op (t ∷ ts)) _
              (consume_value op t ts (λ v. includes known_ops v ≡ true)
                (comparison_known t.value e))
              (λ o ts₁ k b₁.
                Takes-bind HasKnownOps HasKnownOps (length ts₁) (suc (suc (length ts)))
                  (operand ts₁) _ (f ts₁ (omega arith))
                  (λ right ts₂ r b₂. ((k, l, r), omega arith))))
      ]

  signed-Takes :
      (o : UnaryOp) (t : Token) (ts : List Token) (next : Step N)
      → ((ts₁ : List Token) → length ts₁ ≤ length ts → Takes HasKnownOps (length ts₁) (next ts₁))
      → Takes HasKnownOps
          (suc (length ts))
          (consume op (t ∷ ts) >>= λ (o', ts₁). next ts₁ >>= λ (arg, ts₂). ok (unary o arg, ts₂))
  unfolding HasKnownOps
  signed-Takes o t ts next f =
      Takes-bind Anything HasKnownOps (suc (length ts)) (suc (length ts)) (consume op (t ∷ ts)) _
        (consume-Takes op (t ∷ ts) (omega arith))
        (λ o' ts₁ a b₁.
          Takes-bind HasKnownOps HasKnownOps (length ts₁) (suc (length ts)) (next ts₁) _
            (f ts₁ (omega arith)) (λ arg ts₂ k b₂. (k, omega arith)))

  pub parse_unary-Takes :
      (primary : Step N) (fuel bound : ℕ)
      → IsParser fuel primary
      → (ts : List Token) → length ts ≤ bound
      → length ts ≤ fuel
      → Takes HasKnownOps (length ts) (parse_unary primary bound ts)
  unfolding parse_unary HasKnownOps
  parse_unary-Takes primary fuel bound f [] b c = refl
  parse_unary-Takes primary fuel zero f (t ∷ ts) b c = absurd (omega arith)
  parse_unary-Takes primary fuel (suc bound) f (t ∷ ts) b c =
      let next : (ts₁ : List Token)
          → length ts₁ ≤ length ts
          → Takes HasKnownOps (length ts₁) (parse_unary primary bound ts₁) =
        λ ts₁ b₁. parse_unary-Takes primary fuel bound f ts₁ (omega arith) (omega arith) in
      elim (Bool-cases (text_eq t.value (text "!"))) [
        | inl e ↦ rw (e, parse_unary) (signed-Takes not_op t ts (parse_unary primary bound) next)
        | inr e ↦ elim (Bool-cases (text_eq t.value (text "-"))) [
          | inl e₂ ↦
              rw (e, e₂, parse_unary) (signed-Takes neg_op t ts (parse_unary primary bound) next)
          | inr e₂ ↦ rw (e, e₂, parse_unary) (f (t ∷ ts) c)
        ]
      ]
