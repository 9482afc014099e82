-- ===== src/Expressions/Tokenizer.antt =====
-- src/expressions/tokenizer.ts: `Tokenizer`, on what is left of the input.
pub mod Totality
use jobflow_project.Common.{
  Bool, List, Result, Text, [], any, drop, err, if◌then◌else◌, includes, length, ok, suc, take,
  text, zero, ℕ, ◌&&◌, ◌+◌, ◌==◌, ◌>>=◌, ◌||◌, ◌∷◌,
}
use jobflow_project.Dsl.Lexer.{is_space, is_digit, is_ident_start, read_while}
use jobflow_project.Expressions.Ast.{
  Token, TokenType, ident, number, string, op, lparen, rparen, comma, eof, ExprError,
  unexpected_character, out_of_fuel,
}

-- `/[0-9.]/` and `/[a-zA-Z0-9_.]/`.
unfoldable pub is_number_part : ℕ → Bool
unfolding is_digit
is_number_part c = is_digit c || c == b'.'

unfoldable pub is_word_part : ℕ → Bool
unfolding is_digit is_ident_start
is_word_part c = is_ident_start c || is_digit c || c == b'.'

abbrev two_char_ops : List Text
two_char_ops = text "==" ∷ text "!=" ∷ text "<=" ∷ text ">=" ∷ text "&&" ∷ text "||" ∷ []

-- `"+-*/<>=!&|".includes(ch)`.
unfoldable pub is_op_start : ℕ → Bool
is_op_start ch = any (ch ==◌) (text "+-*/<>=!&|")

-- `readOp`, `readString` behind the opening quote, and what they leave.
unfoldable pub read_op : ℕ → Text → Text × Text
read_op ch xs =
    if includes two_char_ops (take 2 (ch ∷ xs))
    then (take 2 (ch ∷ xs), drop 1 xs)
    else (ch ∷ [], xs)

unfoldable pub read_string : ℕ → Text → Text × Text
read_string quote [] = ([], [])
read_string quote (x ∷ xs) =
    let (out, rest) = read_string quote xs in if x == quote then ([], xs) else (x ∷ out, rest)

abbrev at : TokenType → Text → ℕ → Token
at type value pos = record { type = type; value = value; pos = pos }

-- The token that starts with `ch`; a token of several characters has the position behind it.
unfoldable pub read_token : ℕ → ℕ → Text → Result ExprError (Token × Text)
unfolding read_op read_string is_number_part is_word_part is_op_start
read_token pos ch xs =
    if ch == b'('
    then ok (at lparen (text "(") pos, xs)
    else if ch == b')'
    then ok (at rparen (text ")") pos, xs)
    else if ch == b','
    then ok (at comma (text ",") pos, xs)
    else if is_op_start ch
    then (let (value, rest) = read_op ch xs in ok (at op value (pos + length value), rest))
    else if ch == b'"' || ch == b'\''
    then (let (value, rest) = read_string ch xs in
        ok (at string value (pos + length value + 2), rest))
    else if is_digit ch
    then (let (value, rest) = read_while is_number_part (ch ∷ xs) in
        ok (at number value (pos + length value), rest))
    else if is_ident_start ch
    then (let (value, rest) = read_while is_word_part (ch ∷ xs) in
        ok (at ident value (pos + length value), rest))
    else err (unexpected_character pos ch)

-- The length of a token's text in the input, with the quotes of a string, also one that is not there.
unfoldable pub extent : Token → ℕ
extent t = elim t.type [
  | string ↦ length t.value + 2
  | ident ↦ length t.value
  | number ↦ length t.value
  | op ↦ length t.value
  | lparen ↦ 1
  | rparen ↦ 1
  | comma ↦ 1
  | eof ↦ 0
]

-- Behind the spaces.
unfoldable pub tokens_at :
    (ℕ → Text → Result ExprError (List Token)) → ℕ → Text → Result ExprError (List Token)
unfolding read_token extent
tokens_at go_on pos [] = ok (at eof [] pos ∷ [])
tokens_at go_on pos (ch ∷ xs) =
    read_token pos ch xs >>= λ (t, rest). go_on (pos + extent t) rest >>= λ ts. ok (t ∷ ts)

unfoldable pub tokenize_from : ℕ → ℕ → Text → Result ExprError (List Token)
unfolding tokens_at
tokenize_from zero pos rest = err out_of_fuel
tokenize_from (suc fuel) pos rest =
    let (spaces, rest) = read_while is_space rest in
    tokens_at (tokenize_from fuel) (pos + length spaces) rest

-- The fuel is one more than the length of the input, of which each token takes a character.
unfoldable pub tokenize : Text → Result ExprError (List Token)
unfolding tokenize_from
tokenize input = tokenize_from (suc (length input)) 0 input
