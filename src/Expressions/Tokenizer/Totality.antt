-- ===== src/Expressions/Tokenizer/Totality.antt =====
-- The tokenizer always ends.
use jobflow_project.Common.{
  Bool-cases, List, Result, Text, [], arith, err, inl, inr, length, length-drop, ok, refl, suc,
  true, zero, ℕ, ◌+◌, ◌<◌, ◌==◌, ◌>>=◌, ◌||◌, ◌∷◌, ◌≡◌, ◌≤◌,
}
use jobflow_project.Dsl.Lexer.{is_space, is_digit, is_ident_start, read_while}
use jobflow_project.Dsl.Lexer.Rest.{read_while-le, read_while-lt}
use jobflow_project.Expressions.Ast.{Token, ExprError, is_syntax_error}
use jobflow_project.Expressions.Tokenizer.{
  is_number_part, is_word_part, is_op_start, read_op, read_string, read_token, extent, tokens_at,
  tokenize_from, tokenize,
}

-- At most `n` characters are left; an error is one of the syntax.
abbrev Leaves : ℕ → Result ExprError (Token × Text) → Type 0
Leaves n (ok (t, rest)) = length rest ≤ n
Leaves n (err e) = is_syntax_error e ≡ true

read_op-le : (ch : ℕ) (xs : Text) → length (read_op ch xs).1 ≤ length xs
unfolding read_op
read_op-le ch xs = ground (arith, length-drop 1 xs)

read_string-le : (quote : ℕ) (xs : Text) → length (read_string quote xs).1 ≤ length xs
unfolding read_string
read_string-le quote [] = omega arith
read_string-le quote (x ∷ xs) = ground (arith, read_string-le quote xs)

read_token-Leaves : (pos ch : ℕ) (xs : Text) → Leaves (length xs) (read_token pos ch xs)
unfolding read_token
read_token-Leaves pos ch xs = elim (Bool-cases (ch == b'(')) [
  | inl a ↦ rw a (omega arith)
  | inr a ↦ elim (Bool-cases (ch == b')')) [
    | inl b ↦ rw (a, b) (omega arith)
    | inr b ↦ elim (Bool-cases (ch == b',')) [
      | inl c ↦ rw (a, b, c) (omega arith)
      | inr c ↦ elim (Bool-cases (is_op_start ch)) [
        | inl d ↦ rw (a, b, c, d) (read_op-le ch xs)
        | inr d ↦ elim (Bool-cases (ch == b'"' || ch == b'\'')) [
          | inl e ↦ rw (a, b, c, d, e) (read_string-le ch xs)
          | inr e ↦ elim (Bool-cases (is_digit ch)) [
            | inl f ↦
                rw (a, b, c, d, e, f)
                  (read_while-lt is_number_part ch xs (unfold is_number_part in rw f refl))
            | inr f ↦ elim (Bool-cases (is_ident_start ch)) [
              | inl g ↦
                  rw (a, b, c, d, e, f, g)
                    (read_while-lt is_word_part ch xs (unfold is_word_part in rw g refl))
              | inr g ↦ rw (a, b, c, d, e, f, g) refl
            ]
          ]
        ]
      ]
    ]
  ]
]

-- What a run of the tokenizer gives, where it is not an error of the syntax.
abbrev pub IsSyntaxResult : Result ExprError (List Token) → Type 0
IsSyntaxResult (ok ts) = Unit
IsSyntaxResult (err e) = is_syntax_error e ≡ true

more_tokens :
    (r : Result ExprError (List Token)) (t : Token)
    → IsSyntaxResult r
    → IsSyntaxResult (r >>= λ ts. ok (t ∷ ts))
more_tokens (ok ts) t h = tt
more_tokens (err e) t h = h

after_token :
    (fuel pos n : ℕ) (r : Result ExprError (Token × Text))
    → Leaves n r
    → ((p : ℕ) (ys : Text) → length ys ≤ n → IsSyntaxResult (tokenize_from fuel p ys))
    → IsSyntaxResult
        (r >>= λ (t, rest). tokenize_from fuel (pos + extent t) rest >>= λ ts. ok (t ∷ ts))
after_token fuel pos n (err e) l f = l
after_token fuel pos n (ok (t, rest)) l f =
    more_tokens (tokenize_from fuel (pos + extent t) rest) t (f (pos + extent t) rest l)

tokens_at-IsSyntaxResult :
    (fuel pos : ℕ) (rest : Text)
    → ((p : ℕ) (ys : Text) → length ys < length rest → IsSyntaxResult (tokenize_from fuel p ys))
    → IsSyntaxResult (tokens_at (tokenize_from fuel) pos rest)
unfolding tokens_at
tokens_at-IsSyntaxResult fuel pos [] f = tt
tokens_at-IsSyntaxResult fuel pos (ch ∷ xs) f =
    after_token fuel pos (length xs) (read_token pos ch xs) (read_token-Leaves pos ch xs)
      (λ p ys c. f p ys (omega (arith, c)))

tokenize_from-IsSyntaxResult :
    (fuel pos : ℕ) (rest : Text) → length rest < fuel → IsSyntaxResult (tokenize_from fuel pos rest)
unfolding tokenize_from
tokenize_from-IsSyntaxResult zero pos rest b = absurd (omega arith)
tokenize_from-IsSyntaxResult (suc fuel) pos rest b =
    tokens_at-IsSyntaxResult fuel (pos + length (read_while is_space rest).0)
      (read_while is_space rest).1
      (λ p ys c.
        tokenize_from-IsSyntaxResult fuel p ys (omega (arith, read_while-le is_space rest)))

pub tokenize-IsSyntaxResult : (input : Text) → IsSyntaxResult (tokenize input)
unfolding tokenize
tokenize-IsSyntaxResult input =
    tokenize_from-IsSyntaxResult (suc (length input)) 0 input (omega arith)
