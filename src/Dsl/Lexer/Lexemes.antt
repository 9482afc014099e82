-- ===== src/Dsl/Lexer/Lexemes.antt =====
-- What a token is read from, and what stands between two tokens.
use jobflow_project.Common.{
  ==_iff, All, Bool, Bool-cases, Text, [], ap, append-nil, append_assoc, arith, drop, false,
  includes, inl, inr, refl, some, some_inj, some_is_not_none, subst, sym, text, true,
  true_is_not_false, ℕ, ◌++◌, ◌+◌, ◌==◌, ◌∙◌, ◌∷◌, ◌≡◌, ◌≢◌, ◌⊎◌,
}
use jobflow_project.Dsl.Ast.{
  DslTokenType, keyword, ident, number, string, lbrace, rbrace, lbracket, rbracket, colon, comma,
  arrow,
}
use jobflow_project.Dsl.Lexer.{
  Cursor, skip_from, read_string_from, read_while, single, word_type, starts_with_gt, is_digit,
  is_ident_start, is_ident_part, is_space, next_line, next_column, keywords,
}

-- White space and comments, from outside a comment or, for `true`, from inside one.
pub data IsGap : Bool → Text → Type 0 where
  ended : {inside : Bool} → IsGap inside []
  space : {x : ℕ} {xs : Text} → is_space x ≡ true → IsGap false xs → IsGap false (x ∷ xs)
  hash : {xs : Text} → IsGap true xs → IsGap false (b'#' ∷ xs)
  remark : {x : ℕ} {xs : Text} → x ≢ 10 → IsGap true xs → IsGap true (x ∷ xs)
  line_end : {xs : Text} → IsGap false xs → IsGap true (10 ∷ xs)

-- The text behind the opening quote, up to the closing one or the end, and what it stands for: a
-- backslash stands for the character behind it.
pub data IsQuoted (q : ℕ) : Text → Text → Type 0 where
  unclosed : IsQuoted q [] []
  closed : IsQuoted q (q ∷ []) []
  dangling : IsQuoted q (b'\\' ∷ []) []
  escaped :
      {y : ℕ} {body value : Text}
      → IsQuoted q body value
      → IsQuoted q (b'\\' ∷ y ∷ body) (y ∷ value)
  plain :
      {x : ℕ} {body value : Text}
      → x ≢ q
      → x ≢ b'\\'
      → IsQuoted q body value
      → IsQuoted q (x ∷ body) (x ∷ value)

-- The type and the value of a token, and the part of the text that it is read from.
pub data IsLexeme : DslTokenType → Text → Text → Type 0 where
  brace_open : IsLexeme lbrace (text "{") (text "{")
  brace_close : IsLexeme rbrace (text "}") (text "}")
  bracket_open : IsLexeme lbracket (text "[") (text "[")
  bracket_close : IsLexeme rbracket (text "]") (text "]")
  colon_mark : IsLexeme colon (text ":") (text ":")
  comma_mark : IsLexeme comma (text ",") (text ",")
  arrow_mark : IsLexeme arrow (text "->") (text "->")
  quoted :
      {q : ℕ} {body value : Text}
      → (q ≡ b'"') ⊎ (q ≡ b'\'')
      → IsQuoted q body value
      → IsLexeme string value (q ∷ body)
  digits :
      {d : ℕ} {run : Text}
      → All (λ c. is_digit c ≡ true) (d ∷ run)
      → IsLexeme number (d ∷ run) (d ∷ run)
  key_word :
      {c : ℕ} {run : Text}
      → is_ident_start c ≡ true
      → All (λ d. is_ident_part d ≡ true) run
      → includes keywords (c ∷ run) ≡ true
      → IsLexeme keyword (c ∷ run) (c ∷ run)
  name :
      {c : ℕ} {run : Text}
      → is_ident_start c ≡ true
      → All (λ d. is_ident_part d ≡ true) run
      → includes keywords (c ∷ run) ≡ false
      → IsLexeme ident (c ∷ run) (c ∷ run)

other : (x y : ℕ) → (x == y) ≡ false → x ≢ y
other x y h = ground arith

pub skipped :
    (b : Bool) (xs : Text) (line column : ℕ)
    → (gap : Text) × IsGap b gap × (xs ≡ gap ++ (skip_from b xs line column).rest)
unfolding skip_from
skipped true [] line column = ([], ended, refl)
skipped false [] line column = ([], ended, refl)
skipped true (x ∷ xs) line column = elim (Bool-cases (x == 10)) [
  | inl e ↦
      let (gap, g, q) = skipped false xs (line + 1) 1 in
      rw (e, skip_from)
        (
          x ∷ gap,
          subst (λ z. IsGap true (z ∷ gap)) (sym ((==_iff x 10).0 e)) (line_end g),
          ap (x ∷◌) q,
        )
  | inr e ↦
      let (gap, g, q) = skipped true xs line (column + 1) in
      rw (e, skip_from) (x ∷ gap, remark (other x 10 e) g, ap (x ∷◌) q)
]
skipped false (x ∷ xs) line column = elim (Bool-cases (is_space x)) [
  | inl e ↦
      let (gap, g, q) = skipped false xs (next_line x line) (next_column x column) in
      rw e (x ∷ gap, space e g, ap (x ∷◌) q)
  | inr e ↦ elim (Bool-cases (x == b'#')) [
    | inl h ↦
        let (gap, g, q) = skipped true xs line (column + 1) in
        rw (e, h)
          (
            x ∷ gap,
            subst (λ z. IsGap false (z ∷ gap)) (sym ((==_iff x b'#').0 h)) (hash g),
            ap (x ∷◌) q,
          )
    | inr h ↦ rw (e, h) ([], ended, refl)
  ]
]

pub run_split :
    (p : ℕ → Bool) (xs : Text)
    → All (λ c. p c ≡ true) (read_while p xs).0 × (xs ≡ (read_while p xs).0 ++ (read_while p xs).1)
unfolding read_while
run_split p [] = (tt, refl)
run_split p (x ∷ xs) =
    let later = run_split p xs in
    elim (Bool-cases (p x)) [
      | inl e ↦ rw e ((e, later.0), ap (x ∷◌) later.1)
      | inr e ↦ rw e (tt, refl)
    ]

pub run_at :
    (p : ℕ → Bool) (x : ℕ) (xs : Text)
    → p x ≡ true
    → read_while p (x ∷ xs) ≡ (x ∷ (read_while p xs).0, (read_while p xs).1)
unfolding read_while
run_at p x xs h = rw h refl

pub string_split :
    (q : ℕ) (out xs : Text) (line column : ℕ)
    → let r : Text × Cursor = read_string_from q out xs line column in
      (body : Text) × (value : Text) × IsQuoted q body value
      × (r.0 ≡ out ++ value)
      × (xs ≡ body ++ r.1.rest)
unfolding read_string_from
string_split q out [] line column = ([], [], unclosed, sym (append-nil out), refl)
string_split q out (x ∷ []) line column = elim (Bool-cases (x == q)) [
  | inl e ↦ rw e (
    x ∷ [],
    [],
    subst (λ z. IsQuoted q (z ∷ []) []) (sym ((==_iff x q).0 e)) closed,
    sym (append-nil out),
    refl,
  )
  | inr e ↦ elim (Bool-cases (x == b'\\')) [
    | inl f ↦
        rw (e, f)
          (
            x ∷ [],
            [],
            subst (λ z. IsQuoted q (z ∷ []) []) (sym ((==_iff x b'\\').0 f)) dangling,
            sym (append-nil out),
            refl,
          )
    | inr f ↦ rw (e, f) (x ∷ [], x ∷ [], plain (other x q e) (other x b'\\' f) unclosed, refl, refl)
  ]
]
string_split q out (x ∷ y ∷ ys) line column = elim (Bool-cases (x == q)) [
  | inl e ↦ rw e (
    x ∷ [],
    [],
    subst (λ z. IsQuoted q (z ∷ []) []) (sym ((==_iff x q).0 e)) closed,
    sym (append-nil out),
    refl,
  )
  | inr e ↦ elim (Bool-cases (x == b'\\')) [
    | inl f ↦
        let (body, value, h, v, k) =
          string_split q (out ++ y ∷ []) ys (next_line y line) (next_column y (column + 1)) in
        rw (e, f)
          (
            x ∷ y ∷ body,
            y ∷ value,
            subst (λ z. IsQuoted q (z ∷ y ∷ body) (y ∷ value)) (sym ((==_iff x b'\\').0 f))
                (escaped h),
            v ∙ append_assoc out _ value,
            ap (λ zs. x ∷ y ∷ zs) k,
          )
    | inr f ↦
        let (body, value, h, v, k) =
          string_split q (out ++ x ∷ []) (y ∷ ys) (next_line x line) (next_column x column) in
        rw (e, f)
          (
            x ∷ body,
            x ∷ value,
            plain (other x q e) (other x b'\\' f) h,
            v ∙ append_assoc out _ value,
            ap (x ∷◌) k,
          )
  ]
]

pub word_type-IsLexeme :
    (c : ℕ) (run : Text)
    → is_ident_start c ≡ true
    → All (λ d. is_ident_part d ≡ true) run
    → IsLexeme (word_type (c ∷ run)) (c ∷ run) (c ∷ run)
unfolding word_type
word_type-IsLexeme c run h a = elim (Bool-cases (includes keywords (c ∷ run))) [
  | inl e ↦ rw e (key_word h a e)
  | inr e ↦ rw e (name h a e)
]

mark :
    (ch c : ℕ) (want type : DslTokenType)
    → (ch == c) ≡ true
    → want ≡ type
    → IsLexeme want (c ∷ []) (c ∷ [])
    → IsLexeme type (ch ∷ []) (ch ∷ [])
mark ch c want type e t l =
    subst (λ u. IsLexeme u (ch ∷ []) (ch ∷ [])) t
      (subst (λ x. IsLexeme want (x ∷ []) (x ∷ [])) (sym ((==_iff ch c).0 e)) l)

pub gt_split : (xs : Text) → starts_with_gt xs ≡ true → xs ≡ b'>' ∷ drop 1 xs
unfolding starts_with_gt
gt_split [] h = absurd (true_is_not_false (sym h))
gt_split (x ∷ xs) h = ap (λ c. c ∷ xs) ((==_iff x b'>').0 h)

pub single-IsLexeme :
    (ch : ℕ) (type : DslTokenType) → single ch ≡ some type → IsLexeme type (ch ∷ []) (ch ∷ [])
unfolding single
single-IsLexeme ch type h = elim (Bool-cases (ch == b'{')) [
  | inl e ↦ mark ch b'{' lbrace type e (some_inj (rw e at (h))) brace_open
  | inr n0 ↦
      let h0 = rw n0 at (h) in
      elim (Bool-cases (ch == b'}')) [
        | inl e ↦ mark ch b'}' rbrace type e (some_inj (rw e at (h0))) brace_close
        | inr n1 ↦
            let h1 = rw n1 at (h0) in
            elim (Bool-cases (ch == b'[')) [
              | inl e ↦ mark ch b'[' lbracket type e (some_inj (rw e at (h1))) bracket_open
              | inr n2 ↦
                  let h2 = rw n2 at (h1) in
                  elim (Bool-cases (ch == b']')) [
                    | inl e ↦ mark ch b']' rbracket type e (some_inj (rw e at (h2))) bracket_close
                    | inr n3 ↦
                        let h3 = rw n3 at (h2) in
                        elim (Bool-cases (ch == b':')) [
                          | inl e ↦ mark ch b':' colon type e (some_inj (rw e at (h3))) colon_mark
                          | inr n4 ↦
                              let h4 = rw n4 at (h3) in
                              elim (Bool-cases (ch == b',')) [
                                | inl e ↦
                                    mark ch b',' comma type e (some_inj (rw e at (h4))) comma_mark
                                | inr n5 ↦
                                    let h5 = rw n5 at (h4) in absurd (some_is_not_none (sym h5))
                              ]
                        ]
                  ]
            ]
      ]
]
