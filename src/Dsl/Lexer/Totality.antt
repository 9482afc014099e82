-- ===== src/Dsl/Lexer/Totality.antt =====
-- The lexer always ends, and what it gives ends with `eof` and with no other.
use jobflow_project.Common.{
  All, All-mapped, Bool-cases, List, Option-cases, Result, Text, [], arith, drop, err, false, inl,
  inr, length, none, ok, refl, some, suc, true, zero, ℕ, ◌&&◌, ◌+◌, ◌<◌, ◌==◌, ◌>>=◌, ◌||◌, ◌∷◌,
  ◌≡◌, ◌≢◌, ◌≤◌, ◌⊎◌,
}
use jobflow_project.Dsl.Ast.{DslToken, DslTokenType, eof, type_eq}
use jobflow_project.Dsl.Lexer.{
  is_space, Cursor, LexError, unexpected_character, out_of_fuel, skip_from, long_token, read_token,
  go_on, scan, tokenize_from, tokenize, single, word_type, starts_with_gt, is_digit, is_ident_start,
  is_ident_part,
}
use jobflow_project.Dsl.Lexer.Rest.{
  skip_from-le, read_string_from-le, read_while-lt, skip_from-All, read_string_from-All,
  read_while-All, drop_one-All, IsClean, skip_from-IsClean,
}

-- No token and no comment begins with this character: it is no punctuation, quote, digit, letter or
-- underscore, and no `#`, space, tab or line end. A dash is not named, since it begins a
-- token only before `>`.
pub record StartsNoToken (ch : ℕ) : Type 0 where
  pub no_brace : (ch ≢ b'{') × (ch ≢ b'}')
  pub no_bracket : (ch ≢ b'[') × (ch ≢ b']')
  pub no_colon : ch ≢ b':'
  pub no_comma : ch ≢ b','
  pub no_quote : (ch ≢ b'"') × (ch ≢ b'\'')
  pub no_digit : (ch < b'0') ⊎ (b'9' < ch)
  pub no_lower : (ch < b'a') ⊎ (b'z' < ch)
  pub no_upper : (ch < b'A') ⊎ (b'Z' < ch)
  pub no_underscore : ch ≢ b'_'
  pub no_comment : ch ≢ b'#'
  pub no_space : (ch ≢ 32) × ((ch < 9) ⊎ (13 < ch))

not_punctuation :
    (ch : ℕ)
    → single ch ≡ none
    → (ch ≢ b'{') × (ch ≢ b'}') × (ch ≢ b'[') × (ch ≢ b']') × (ch ≢ b':') × (ch ≢ b',')
unfolding single
not_punctuation ch h = ground arith

refused-StartsNoToken :
    (ch : ℕ)
    → single ch ≡ none
    → (ch == b'"' || ch == b'\'') ≡ false
    → is_digit ch ≡ false
    → is_ident_start ch ≡ false
    → is_space ch ≡ false
    → ch ≢ b'#'
    → StartsNoToken ch
unfolding is_digit is_ident_start is_space
refused-StartsNoToken ch s q d i w c =
    let p = not_punctuation ch s in
    record {
      no_brace = (p.0, p.1);
      no_bracket = (p.2, p.3);
      no_colon = p.4;
      no_comma = p.5;
      no_quote = ground arith;
      no_digit = ground arith;
      no_lower = ground arith;
      no_upper = ground arith;
      no_underscore = ground arith;
      no_comment = c;
      no_space = (ground arith, ground arith);
    }

-- A token that is read leaves less than the text from its first character on, and only characters of
-- it, all of which meet `P`.
abbrev Shrinks : (ℕ → Type 0) → ℕ → Result LexError (DslToken × Cursor) → Type 0
Shrinks P n (ok (t, c)) = (length c.rest ≤ n) × (type_eq t.type eof ≡ false) × All P c.rest
Shrinks P n (err (unexpected_character ch line column)) = StartsNoToken ch × P ch
Shrinks P n (err out_of_fuel) = ⊥

ident_of_start : (x : ℕ) → is_ident_start x ≡ true → is_ident_part x ≡ true
unfolding is_ident_part
ident_of_start x h = rw h

length-drop_one : (xs : Text) → length (drop 1 xs) ≤ length xs
length-drop_one [] = omega arith
length-drop_one (x ∷ xs) = omega arith

word_type-ne : (w : Text) → type_eq (word_type w) eof ≡ false
unfolding word_type type_eq
word_type-ne w = ground arith

long_token-Shrinks :
    (P : ℕ → Type 0) (ch : ℕ) (rest : Text) (line column : ℕ)
    → single ch ≡ none
    → IsClean (ch ∷ rest)
    → All P (ch ∷ rest)
    → Shrinks P (length rest) (long_token ch rest line column)
unfolding long_token type_eq
long_token-Shrinks P ch rest line column s c k =
    elim (Bool-cases (ch == b'-' && starts_with_gt rest)) [
      | inl a ↦ rw a (length-drop_one rest, refl, drop_one-All P rest k.1)
      | inr a ↦ elim (Bool-cases (ch == b'"' || ch == b'\'')) [
        | inl q ↦
            rw (a, q)
              (
                read_string_from-le ch [] rest line (column + 1),
                refl,
                read_string_from-All P ch [] rest line (column + 1) k.1,
              )
        | inr q ↦ elim (Bool-cases (is_digit ch)) [
          | inl d ↦
              rw (a, q, d)
                (read_while-lt is_digit ch rest d, refl, read_while-All P is_digit (ch ∷ rest) k)
          | inr d ↦ elim (Bool-cases (is_ident_start ch)) [
            | inl i ↦
                rw (a, q, d, i)
                  (
                    read_while-lt is_ident_part ch rest (ident_of_start ch i),
                    word_type-ne _,
                    read_while-All P is_ident_part (ch ∷ rest) k,
                  )
            | inr i ↦ rw (a, q, d, i) (refused-StartsNoToken ch s q d i c.0 c.1, k.0)
          ]
        ]
      ]
    ]

single-ne : (ch : ℕ) (t : DslTokenType) → single ch ≡ some t → type_eq t eof ≡ false
unfolding single type_eq
single-ne ch t h = ground arith

read_token-Shrinks :
    (P : ℕ → Type 0) (ch : ℕ) (rest : Text) (line column : ℕ)
    → IsClean (ch ∷ rest)
    → All P (ch ∷ rest)
    → Shrinks P (length rest) (read_token ch rest line column)
unfolding read_token
read_token-Shrinks P ch rest line column c k = elim (Option-cases (single ch)) [
  | inl e ↦ rw (e, read_token) (long_token-Shrinks P ch rest line column e c k)
  | inr (t, e) ↦ rw (e, read_token) (omega arith, single-ne ch t e, k.1)
]

-- A list of tokens that ends with `eof`, and has no other.
abbrev pub EndsWithEof : List DslToken → Type 0
EndsWithEof [] = ⊥
EndsWithEof (t ∷ []) = t.type ≡ eof
EndsWithEof (t ∷ u ∷ us) = (type_eq t.type eof ≡ false) × EndsWithEof (u ∷ us)

-- The character stands in the text.
unfoldable pub Occurs : ℕ → Text → Type 0
Occurs c [] = ⊥
Occurs c (x ∷ xs) = (c ≡ x) ⊎ Occurs c xs

All-Occurs : (xs : Text) → All (λ c. Occurs c xs) xs
unfolding Occurs
All-Occurs [] = tt
All-Occurs (x ∷ xs) = (inl refl, All-mapped xs (λ c o. inr o) (All-Occurs xs))

-- The outcome is a list of this form, or a character that meets `P` and that no token begins with.
abbrev pub Lexed : (ℕ → Type 0) → Result LexError (List DslToken) → Type 0
Lexed P (ok ts) = EndsWithEof ts
Lexed P (err (unexpected_character ch line column)) = StartsNoToken ch × P ch
Lexed P (err out_of_fuel) = ⊥

Lexed-cons :
    (P : ℕ → Type 0) (t : DslToken) (r : Result LexError (List DslToken))
    → type_eq t.type eof ≡ false
    → Lexed P r
    → Lexed P (r >>= λ ts. ok (t ∷ ts))
Lexed-cons P t (ok []) h l = absurd l
Lexed-cons P t (ok (u ∷ us)) h l = (h, l)
Lexed-cons P t (err (unexpected_character ch line column)) h l = l
Lexed-cons P t (err out_of_fuel) h l = absurd l

go_on-Lexed :
    (P : ℕ → Type 0) (more : Cursor → Result LexError (List DslToken)) (n : ℕ)
    (r : Result LexError (DslToken × Cursor))
    → Shrinks P n r
    → ((c : Cursor) → length c.rest ≤ n → All P c.rest → Lexed P (more c))
    → Lexed P (go_on more r)
unfolding go_on
go_on-Lexed P more n (ok (t, c)) h k = Lexed-cons P t (more c) h.1 (k c h.0 h.2)
go_on-Lexed P more n (err (unexpected_character ch line column)) h k = h
go_on-Lexed P more n (err out_of_fuel) h k = absurd h

scan-Lexed :
    (P : ℕ → Type 0) (more : Cursor → Result LexError (List DslToken)) (xs : Text) (line column : ℕ)
    → IsClean xs
    → All P xs
    → ((c : Cursor) → length c.rest < length xs → All P c.rest → Lexed P (more c))
    → Lexed P (scan more xs line column)
unfolding scan
scan-Lexed P more [] line column clean a k = refl
scan-Lexed P more (ch ∷ rest) line column clean a k =
    go_on-Lexed P more (length rest) (read_token ch rest line column)
      (read_token-Shrinks P ch rest line column clean a) (λ c h. k c (omega arith))

tokenize_from-Lexed :
    (P : ℕ → Type 0) (fuel : ℕ) (c : Cursor)
    → length c.rest < fuel
    → All P c.rest
    → Lexed P (tokenize_from fuel c)
unfolding tokenize_from
tokenize_from-Lexed P zero c h a = absurd (omega arith)
tokenize_from-Lexed P (suc fuel) c h a =
    let c' = skip_from false c.rest c.line c.column in
    scan-Lexed P (tokenize_from fuel) c'.rest c'.line c'.column
      (skip_from-IsClean false c.rest c.line c.column)
      (skip_from-All P false c.rest c.line c.column a)
      λ next lt.
        tokenize_from-Lexed P fuel next (omega (arith, skip_from-le false c.rest c.line c.column))

pub tokenize-Lexed : (source : Text) → Lexed (λ ch. Occurs ch source) (tokenize source)
unfolding tokenize
tokenize-Lexed source =
    tokenize_from-Lexed (λ ch. Occurs ch source) (suc (length source))
      (record { rest = source; line = 1; column = 1 }) (omega arith) (All-Occurs source)
