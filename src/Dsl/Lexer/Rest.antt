-- ===== src/Dsl/Lexer/Rest.antt =====
-- What the readers of the lexer leave of the text: no more characters than before, only characters of it,
-- and behind white space and comments none of either.
use jobflow_project.Common.{
  All, Bool, Text, [], arith, drop, false, if◌then◌else◌, length, not, true, ℕ, ◌++◌, ◌+◌, ◌==◌,
  ◌∷◌, ◌≡◌, ◌≢◌, ◌≤◌,
}
use jobflow_project.Dsl.Lexer.{
  skip_from, read_string_from, read_while, is_space, next_line, next_column,
}

pub skip_from-le :
    (b : Bool) (xs : Text) (line column : ℕ) → length (skip_from b xs line column).rest ≤ length xs
unfolding skip_from
skip_from-le true [] line column = omega arith
skip_from-le false [] line column = omega arith
skip_from-le true (x ∷ xs) line column = omega (arith, skip_from-le (not (x == 10)) xs)
skip_from-le false (x ∷ xs) line column = ground (
  arith,
  skip_from-le false xs (next_line x line) (next_column x column),
  skip_from-le true xs line (column + 1),
)

pub read_string_from-le :
    (q : ℕ) (out xs : Text) (line column : ℕ)
    → length (read_string_from q out xs line column).1.rest ≤ length xs
unfolding read_string_from
read_string_from-le q out [] line column = omega arith
read_string_from-le q out (x ∷ []) line column = ground arith
read_string_from-le q out (x ∷ y ∷ ys) line column = ground (
  arith,
  read_string_from-le q (out ++ y ∷ []) ys (if y == 10 then line + 1 else line)
      (if y == 10 then 1 else column + 1 + 1),
  read_string_from-le q (out ++ x ∷ []) (y ∷ ys) (if x == 10 then line + 1 else line)
      (if x == 10 then 1 else column + 1),
)

pub read_while-le : (p : ℕ → Bool) (xs : Text) → length (read_while p xs).1 ≤ length xs
unfolding read_while
read_while-le p [] = omega arith
read_while-le p (x ∷ xs) = ground (arith, read_while-le p xs)

pub read_while-lt :
    (p : ℕ → Bool) (x : ℕ) (xs : Text) → p x ≡ true → length (read_while p (x ∷ xs)).1 ≤ length xs
unfolding read_while
read_while-lt p x xs h = rw h (read_while-le p xs)

module _ (P : ℕ → Type 0) where
  pub skip_from-All :
      (b : Bool) (xs : Text) (line column : ℕ) → All P xs → All P (skip_from b xs line column).rest
  unfolding skip_from
  skip_from-All true [] line column a = tt
  skip_from-All false [] line column a = tt
  skip_from-All true (x ∷ xs) line column a =
      skip_from-All (not (x == 10)) xs (next_line x line) (next_column x column) a.1
  skip_from-All false (x ∷ xs) line column a = ground (
    arith,
    skip_from-All false xs (next_line x line) (next_column x column) a.1,
    skip_from-All true xs line (column + 1) a.1,
  )

  pub read_string_from-All :
      (q : ℕ) (out xs : Text) (line column : ℕ)
      → All P xs
      → All P (read_string_from q out xs line column).1.rest
  unfolding read_string_from
  read_string_from-All q out [] line column a = tt
  read_string_from-All q out (x ∷ []) line column a = ground arith
  read_string_from-All q out (x ∷ y ∷ ys) line column a = ground (
    arith,
    read_string_from-All q (out ++ y ∷ []) ys (next_line y line) (next_column y (column + 1)) a.1.1,
    read_string_from-All q (out ++ x ∷ []) (y ∷ ys) (next_line x line) (next_column x column) a.1,
  )

  pub read_while-All : (p : ℕ → Bool) (xs : Text) → All P xs → All P (read_while p xs).1
  unfolding read_while
  read_while-All p [] a = tt
  read_while-All p (x ∷ xs) a = ground (arith, read_while-All p xs a.1)

  pub drop_one-All : (xs : Text) → All P xs → All P (drop 1 xs)
  drop_one-All [] a = tt
  drop_one-All (x ∷ xs) a = a.1

-- The first character, if there is one, is no white space and begins no comment.
abbrev pub IsClean : Text → Type 0
IsClean [] = Unit
IsClean (x ∷ xs) = (is_space x ≡ false) × (x ≢ b'#')

pub skip_from-IsClean :
    (b : Bool) (xs : Text) (line column : ℕ) → IsClean (skip_from b xs line column).rest
unfolding skip_from
skip_from-IsClean true [] line column = tt
skip_from-IsClean false [] line column = tt
skip_from-IsClean true (x ∷ xs) line column =
    skip_from-IsClean (not (x == 10)) xs (next_line x line) (next_column x column)
skip_from-IsClean false (x ∷ xs) line column = ground (
  arith,
  skip_from-IsClean false xs (next_line x line) (next_column x column),
  skip_from-IsClean true xs line (column + 1),
)
