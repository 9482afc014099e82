-- ===== src/Dsl/Lexer.antt =====
-- src/dsl/lexer.ts: the text is cut into tokens. The cursor holds what is left of the source.
pub mod Rest
pub mod Lexemes
pub mod Cut
pub mod Totality
use jobflow_project.Common.{
  Bool, List, Option, Result, Text, [], drop, err, false, if◌then◌else◌, includes, leb, length,
  none, not, ok, some, suc, text, true, zero, ℕ, ◌&&◌, ◌++◌, ◌+◌, ◌==◌, ◌>>=◌, ◌||◌, ◌∷◌,
}
use jobflow_project.Dsl.Ast.{
  DslToken, DslTokenType, keyword, ident, number, string, lbrace, rbrace, lbracket, rbracket, colon,
  comma, arrow, eof,
}

pub record Cursor : Type 0 where
  pub rest : Text
  pub line : ℕ
  pub column : ℕ

-- `advance` over `x`, and at the end of the source.
unfoldable pub advance : Cursor → Cursor
advance c = past c.rest
  where
    past : Text → Cursor
    past [] = record c { column = c.column + 1 }
    past (x ∷ xs) =
        if x == 10
        then record { rest = xs; line = c.line + 1; column = 1 }
        else record { rest = xs; line = c.line; column = c.column + 1 }

-- `/\s/`.
unfoldable pub is_space : ℕ → Bool
is_space c =
    leb 9 c && leb c 13
    || c == 32
    || c == 160
    || c == 0x1680
    || leb 0x2000 c && leb c 0x200a
    || c == 0x2028
    || c == 0x2029
    || c == 0x202f
    || c == 0x205f
    || c == 0x3000
    || c == 0xfeff

-- `/[0-9]/`, `/[a-zA-Z_]/` and `/[a-zA-Z0-9_.-]/`.
unfoldable pub is_digit : ℕ → Bool
is_digit c = leb b'0' c && leb c b'9'

unfoldable pub is_ident_start : ℕ → Bool
is_ident_start c = leb b'a' c && leb c b'z' || leb b'A' c && leb c b'Z' || c == b'_'

unfoldable pub is_ident_part : ℕ → Bool
unfolding is_ident_start is_digit
is_ident_part c = is_ident_start c || is_digit c || c == b'.' || c == b'-'

-- The line and column behind `x`.
abbrev pub next_line : ℕ → ℕ → ℕ
next_line x line = if x == 10 then line + 1 else line

abbrev pub next_column : ℕ → ℕ → ℕ
next_column x column = if x == 10 then 1 else column + 1

-- `skipWhitespaceAndComments`; `comment` holds in the inner loop, which ends before a line feed.
unfoldable pub skip_from : (comment : Bool) → Text → (line column : ℕ) → Cursor
skip_from comment [] line column = record { rest = []; line = line; column = column }
skip_from true (x ∷ xs) line column =
    skip_from (not (x == 10)) xs (next_line x line) (next_column x column)
skip_from false (x ∷ xs) line column =
    let past_space = skip_from false xs (next_line x line) (next_column x column) in
    let past_hash = skip_from true xs line (column + 1) in
    if is_space x
    then past_space
    else if x == b'#'
    then past_hash
    else record { rest = x ∷ xs; line = line; column = column }

-- The loop of `readString` behind the opening quote `q`, and the `advance` after it.
unfoldable pub read_string_from : (q : ℕ) (out : Text) → Text → (line column : ℕ) → Text × Cursor
read_string_from q out [] line column =
    (out, record { rest = []; line = line; column = column + 1 })
read_string_from q out (x ∷ []) line column =
    if x == q
    then (out, record { rest = []; line = next_line x line; column = next_column x column })
    else if x == b'\\'
    then (out, record { rest = []; line = line; column = column + 1 + 1 + 1 })
    else (
      out ++ x ∷ [],
      record { rest = []; line = next_line x line; column = next_column x column + 1 },
    )
read_string_from q out (x ∷ y ∷ ys) line column =
    let escaped =
      read_string_from q (out ++ y ∷ []) ys (next_line y line) (next_column y (column + 1)) in
    let plain =
      read_string_from q (out ++ x ∷ []) (y ∷ ys) (next_line x line) (next_column x column) in
    if x == q
    then (out, record { rest = y ∷ ys; line = next_line x line; column = next_column x column })
    else if x == b'\\'
    then escaped
    else plain

-- The longest run of characters that pass `p`, and what follows it: `readNumber`, `readIdent`.
unfoldable pub read_while : (ℕ → Bool) → Text → Text × Text
read_while p [] = ([], [])
read_while p (x ∷ xs) =
    let (run, rest) = read_while p xs in if p x then (x ∷ run, rest) else ([], x ∷ xs)

abbrev keywords : List Text
keywords =
    text "workflow"
    ∷ text "task"
    ∷ text "constraint"
    ∷ text "depends"
    ∷ text "optional"
    ∷ text "warn"
    ∷ text "block"
    ∷ text "timeout"
    ∷ text "version"
    ∷ text "handler"
    ∷ text "expr"
    ∷ []

-- `out_of_fuel` has no counterpart in the program.
pub data LexError : Type 0 where
  unexpected_character : (char line column : ℕ) → LexError
  out_of_fuel : LexError

-- The punctuation of one character.
unfoldable pub single : ℕ → Option DslTokenType
single ch =
    if ch == b'{'
    then some lbrace
    else if ch == b'}'
    then some rbrace
    else if ch == b'['
    then some lbracket
    else if ch == b']'
    then some rbracket
    else if ch == b':'
    then some colon
    else if ch == b','
    then some comma
    else none

unfoldable pub starts_with_gt : Text → Bool
starts_with_gt [] = false
starts_with_gt (x ∷ xs) = x == b'>'

abbrev at : DslTokenType → Text → (line column : ℕ) → DslToken
at type value line column = record { type = type; value = value; line = line; column = column }

unfoldable pub word_type : Text → DslTokenType
word_type word = if includes keywords word then keyword else ident

-- A token that is no punctuation of one character. A run of digits or letters holds no line feed.
unfoldable pub long_token : ℕ → Text → (line column : ℕ) → Result LexError (DslToken × Cursor)
long_token ch rest line column =
    if ch == b'-' && starts_with_gt rest
    then ok (
      at arrow (text "->") line column,
      record { rest = drop 1 rest; line = line; column = column + 2 },
    )
    else if ch == b'"' || ch == b'\''
    then (let (value, after) = read_string_from ch [] rest line (column + 1) in
        ok (at string value line column, after))
    else if is_digit ch
    then (let (run, after) = read_while is_digit (ch ∷ rest) in
        ok (
          at number run line column,
          record { rest = after; line = line; column = column + length run },
        ))
    else if is_ident_start ch
    then (let (run, after) = read_while is_ident_part (ch ∷ rest) in
        ok (
          at (word_type run) run line column,
          record { rest = after; line = line; column = column + length run },
        ))
    else err (unexpected_character ch line column)

unfoldable pub read_token : ℕ → Text → (line column : ℕ) → Result LexError (DslToken × Cursor)
read_token ch rest line column = elim (single ch) [
  | some type ↦
      ok (at type (ch ∷ []) line column, record { rest = rest; line = line; column = column + 1 })
  | none ↦ long_token ch rest line column
]

-- What follows a token that was read; `more` reads the rest.
unfoldable pub go_on :
    (Cursor → Result LexError (List DslToken))
    → Result LexError (DslToken × Cursor)
    → Result LexError (List DslToken)
go_on more (err e) = err e
go_on more (ok (t, c)) = more c >>= λ ts. ok (t ∷ ts)

-- One round of the loop of `tokenize`, behind the white space.
unfoldable pub scan :
    (Cursor → Result LexError (List DslToken))
    → Text
    → (line column : ℕ) → Result LexError (List DslToken)
scan more [] line column = ok (at eof [] line column ∷ [])
scan more (ch ∷ rest) line column = go_on more (read_token ch rest line column)

-- The loop; the list is built as the loop returns.
unfoldable pub tokenize_from : ℕ → Cursor → Result LexError (List DslToken)
tokenize_from zero c = err out_of_fuel
tokenize_from (suc fuel) c =
    let c' = skip_from false c.rest c.line c.column in
    scan (λ next. tokenize_from fuel next) c'.rest c'.line c'.column

unfoldable pub tokenize : Text → Result LexError (List DslToken)
tokenize source =
    tokenize_from (suc (length source)) (record { rest = source; line = 1; column = 1 })
