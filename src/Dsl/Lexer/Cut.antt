-- ===== src/Dsl/Lexer/Cut.antt =====
-- The tokens of a text are its parts: what stands between them is white space and comments.
use jobflow_project.Common.{
  &&_iff, ==_iff, >>=-eq-ok, Bool-cases, List, Option-cases, Result, Result-cases, Text, [], ap,
  append-nil, err_is_not_ok, false, inl, inr, length, ok, ok_inj, refl, subst, suc, sym, text, true,
  zero, ℕ, ◌&&◌, ◌++◌, ◌+◌, ◌==◌, ◌||◌, ◌∙◌, ◌∷◌, ◌≡◌, ◌⊎◌,
}
use jobflow_project.Dsl.Ast.{DslToken, string, eof}
use jobflow_project.Dsl.Lexer.{
  Cursor, LexError, skip_from, read_while, long_token, read_token, go_on, scan, tokenize_from,
  tokenize, single, starts_with_gt, is_digit, is_ident_start, is_ident_part,
}
use jobflow_project.Dsl.Lexer.Lexemes.{
  IsGap, skipped, IsLexeme, arrow_mark, digits, quoted, run_split, run_at, string_split,
  word_type-IsLexeme, gt_split, single-IsLexeme,
}

-- A text and its tokens: gaps and lexemes in turn, and `eof` at the end.
pub data IsCut : Text → List DslToken → Type 0 where
  at_end : {gap : Text} {t : DslToken} → IsGap false gap → t.type ≡ eof → IsCut gap (t ∷ [])
  token :
      {gap lexeme rest : Text} {t : DslToken} {ts : List DslToken}
      → IsGap false gap
      → IsLexeme t.type t.value lexeme
      → IsCut rest ts
      → IsCut (gap ++ (lexeme ++ rest)) (t ∷ ts)

-- A token, the part that it is read from, and what is left.
abbrev IsRead : Text → DslToken × Cursor → Type 0
IsRead xs (t, c) = (lexeme : Text) × IsLexeme t.type t.value lexeme × (xs ≡ lexeme ++ c.rest)

quote_of : (ch : ℕ) → (ch == b'"' || ch == b'\'') ≡ true → (ch ≡ b'"') ⊎ (ch ≡ b'\'')
quote_of ch h = elim (Bool-cases (ch == b'"')) [
  | inl e ↦ inl ((==_iff ch b'"').0 e)
  | inr n ↦ inr ((==_iff ch b'\'').0 (rw n at (h)))
]

start_part : (x : ℕ) → is_ident_start x ≡ true → is_ident_part x ≡ true
unfolding is_ident_part
start_part x h = rw h

long_token-IsRead :
    (ch : ℕ) (rest : Text) (line column : ℕ) (r : DslToken × Cursor)
    → long_token ch rest line column ≡ ok r
    → IsRead (ch ∷ rest) r
unfolding long_token
long_token-IsRead ch rest line column r h = elim (Bool-cases (ch == b'-' && starts_with_gt rest)) [
  | inl a ↦
      let both = (&&_iff (ch == b'-') (starts_with_gt rest)).0 a in
      subst (IsRead (ch ∷ rest)) (ok_inj (rw a at (h))) (
        text "->",
        arrow_mark,
        ap (λ c. c ∷ rest) ((==_iff ch b'-').0 both.0) ∙ ap (b'-' ∷◌) (gt_split rest both.1),
      )
  | inr a ↦ elim (Bool-cases (ch == b'"' || ch == b'\'')) [
    | inl q ↦
        let (body, value, k, v, e) = string_split ch [] rest line (column + 1) in
        subst (IsRead (ch ∷ rest)) (ok_inj (rw (a, q) at (h))) (
          ch ∷ body,
          subst (λ t. IsLexeme string t (ch ∷ body)) (sym v) (quoted (quote_of ch q) k),
          ap (ch ∷◌) e,
        )
    | inr q ↦ elim (Bool-cases (is_digit ch)) [
      | inl d ↦
          let (all, e) = run_split is_digit rest in
          subst (IsRead (ch ∷ rest)) (ok_inj (rw (a, q, d) at (h))) (
            rw (run_at is_digit ch rest d)
              (ch ∷ (read_while is_digit rest).0, digits (d, all), ap (ch ∷◌) e))
      | inr d ↦ elim (Bool-cases (is_ident_start ch)) [
        | inl i ↦
            let (all, e) = run_split is_ident_part rest in
            subst (IsRead (ch ∷ rest)) (ok_inj (rw (a, q, d, i) at (h))) (
              rw (run_at is_ident_part ch rest (start_part ch i)) (
                ch ∷ (read_while is_ident_part rest).0,
                word_type-IsLexeme ch _ i all,
                ap (ch ∷◌) e,
              ))
        | inr i ↦ absurd (err_is_not_ok (rw (a, q, d, i) at (h)))
      ]
    ]
  ]
]

read_token-IsRead :
    (ch : ℕ) (rest : Text) (line column : ℕ) (r : DslToken × Cursor)
    → read_token ch rest line column ≡ ok r
    → IsRead (ch ∷ rest) r
unfolding read_token
read_token-IsRead ch rest line column r h = elim (Option-cases (single ch)) [
  | inl e ↦ long_token-IsRead ch rest line column r (rw (e, read_token) at (h))
  | inr (t, e) ↦
      subst (IsRead (ch ∷ rest)) (ok_inj (rw (e, read_token) at (h)))
        (ch ∷ [], single-IsLexeme ch t e, refl)
]

scan-IsCut :
    (more : Cursor → Result LexError (List DslToken))
    → ((c : Cursor) (ts : List DslToken) → more c ≡ ok ts → IsCut c.rest ts)
    → (gap : Text) → IsGap false gap
    → (xs : Text) (line column : ℕ) (ts : List DslToken) → scan more xs line column ≡ ok ts
    → IsCut (gap ++ xs) ts
unfolding scan go_on
scan-IsCut more k gap g [] line column ts h =
    let last : DslToken = record { type = eof; value = []; line = line; column = column } in
    subst (IsCut (gap ++ [])) (ok_inj h)
      (subst (λ xs. IsCut xs (last ∷ [])) (sym (append-nil gap)) (at_end g refl))
scan-IsCut more k gap g (ch ∷ rest) line column ts h =
    elim (Result-cases (read_token ch rest line column)) [
      | inl (e, q) ↦ absurd (err_is_not_ok (rw q at (h)))
      | inr ((t, c), q) ↦
          let (lexeme, l, s) = read_token-IsRead ch rest line column (t, c) q in
          let (us, m, o) = >>=-eq-ok (more c) (λ us. ok (t ∷ us)) (rw q at (h)) in
          subst (IsCut (gap ++ ch ∷ rest)) (ok_inj o)
            (subst (λ xs. IsCut (gap ++ xs) (t ∷ us)) (sym s) (token g l (k c us m)))
    ]

tokenize_from-IsCut :
    (fuel : ℕ) (c : Cursor) (ts : List DslToken) → tokenize_from fuel c ≡ ok ts → IsCut c.rest ts
unfolding tokenize_from
tokenize_from-IsCut zero c ts h = absurd (err_is_not_ok h)
tokenize_from-IsCut (suc fuel) c ts h =
    let (gap, g, e) = skipped false c.rest c.line c.column in
    let c' : Cursor = skip_from false c.rest c.line c.column in
    subst (λ xs. IsCut xs ts) (sym e)
      (scan-IsCut (tokenize_from fuel) (tokenize_from-IsCut fuel) gap g c'.rest c'.line c'.column ts
        h)

pub tokenize-IsCut :
    (source : Text) (ts : List DslToken) → tokenize source ≡ ok ts → IsCut source ts
unfolding tokenize
tokenize-IsCut source ts h =
    tokenize_from-IsCut (suc (length source)) (record { rest = source; line = 1; column = 1 }) ts h
