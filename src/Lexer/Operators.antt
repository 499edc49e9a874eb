-- ===== src/Lexer/Operators.antt =====
-- pkg/lexer/lexer.go: the cases of `NextToken` for operators of more than one byte.
use pizzasql.Prelude.{ℕ, ◌++◌, ◌==◌, if◌then◌else◌}
use pizzasql.Prelude.Bytes.{Bytes, bytes}
use pizzasql.Prelude.Eq.{nat_eq}
use pizzasql.Lexer.Token.{
  TokenType, Token, token_arrow, token_arrow_text, token_at_arrow, token_at_at, token_at_question,
  token_bit_or, token_colon_colon, token_concat, token_error, token_gt, token_gte, token_hash_arrow,
  token_hash_arrow_text, token_hash_minus, token_lt, token_lt_at, token_lte, token_minus, token_neq,
  token_question, token_question_amp, token_question_pipe, token_shift_left, token_shift_right,
}
use pizzasql.Lexer.State.{Run, returned, Lexer, read_char, peek_char, string_of_byte}
use pizzasql.Lexer.Readers.{token, read_line_comment}

-- A token of one byte, and one of two whose second byte the caller has seen.
abbrev pub one : Lexer → TokenType → Bytes → Token × Lexer
one l type literal = (token l type literal, read_char l)

abbrev pub two : Lexer → TokenType → Bytes → Token × Lexer
two l type literal = (token l type literal, read_char (read_char l))

abbrev pub unexpected : Lexer → Token × Lexer
unexpected l = one l token_error (bytes "unexpected character: " ++ string_of_byte l.ch)

unfoldable pub next_less : Lexer → Token × Lexer
next_less l =
    if peek_char l == b'='
    then two l token_lte (bytes "<=")
    else if peek_char l == b'>'
    then two l token_neq (bytes "<>")
    else if peek_char l == b'<'
    then two l token_shift_left (bytes "<<")
    else if peek_char l == b'@'
    then two l token_lt_at (bytes "<@")
    else one l token_lt (bytes "<")

unfoldable pub next_greater : Lexer → Token × Lexer
next_greater l =
    if peek_char l == b'='
    then two l token_gte (bytes ">=")
    else if peek_char l == b'>'
    then two l token_shift_right (bytes ">>")
    else one l token_gt (bytes ">")

unfoldable pub next_hash : Lexer → Token × Lexer
next_hash l =
    let l' = read_char l in
    if peek_char l == b'>'
    then (if peek_char l' == b'>'
        then (token l token_hash_arrow_text (bytes "#>>"), read_char (read_char l'))
        else (token l token_hash_arrow (bytes "#>"), read_char l'))
    else if peek_char l == b'-'
    then two l token_hash_minus (bytes "#-")
    else unexpected l

unfoldable pub next_at : Lexer → Token × Lexer
next_at l =
    if peek_char l == b'>'
    then two l token_at_arrow (bytes "@>")
    else if peek_char l == b'@'
    then two l token_at_at (bytes "@@")
    else if peek_char l == b'?'
    then two l token_at_question (bytes "@?")
    else unexpected l

unfoldable pub next_question : Lexer → Token × Lexer
next_question l =
    if peek_char l == b'|'
    then two l token_question_pipe (bytes "?|")
    else if peek_char l == b'&'
    then two l token_question_amp (bytes "?&")
    else one l token_question (bytes "?")

unfoldable pub next_minus : Lexer → Run (Token × Lexer)
next_minus l =
    let l' = read_char l in
    if peek_char l == b'-'
    then read_line_comment l
    else if peek_char l == b'>'
    then (if peek_char l' == b'>'
        then returned (token l token_arrow_text (bytes "->>"), read_char (read_char l'))
        else returned (token l token_arrow (bytes "->"), read_char l'))
    else returned (one l token_minus (bytes "-"))

-- A byte that may be doubled.
abbrev pub next_double : ℕ → Token × Lexer → Token × Lexer → Lexer → Token × Lexer
next_double c doubled alone l = if peek_char l == c then doubled else alone

-- The bytes that a second one may extend.
unfoldable pub next_operator : Lexer → Run (Token × Lexer) → Run (Token × Lexer)
next_operator l other =
    if l.ch == b'<'
    then returned (next_less l)
    else if l.ch == b'>'
    then returned (next_greater l)
    else if l.ch == b'!'
    then returned (next_double b'=' (two l token_neq (bytes "!=")) (unexpected l) l)
    else if l.ch == b'|'
    then returned
        (next_double b'|' (two l token_concat (bytes "||")) (one l token_bit_or (bytes "|")) l)
    else if l.ch == b'#'
    then returned (next_hash l)
    else if l.ch == b'@'
    then returned (next_at l)
    else if l.ch == b'?'
    then returned (next_question l)
    else if l.ch == b'-'
    then next_minus l
    else if l.ch == b':'
    then returned (next_double b':' (two l token_colon_colon (bytes "::")) (unexpected l) l)
    else other
