-- ===== src/Lexer/Readers.antt =====
-- pkg/lexer/lexer.go: white space, comments, and the readers of the tokens of variable length. A
-- loop runs on fuel: `budget` rounds are as many as the input has bytes, and one more.
use pizzasql.Prelude.{
  ℕ, zero, suc, ◌-◌, Bool, true, false, not, ◌&&◌, ◌||◌, Option, none, some, [], ◌∷◌, ◌++◌, ◌==◌,
  leb, if◌then◌else◌, length,
}
use pizzasql.Prelude.Bytes.{Bytes, bytes, bytes_eq}
use pizzasql.Lexer.Token.{
  TokenType, Token, token_error, token_comment, token_ident, token_number, token_string,
}
use pizzasql.Lexer.Keywords.{lookup_keyword}
use pizzasql.Lexer.State.{
  Run, returned, endless, ◌>>=◌, Lexer, read_char, peek_char, slice, is_letter, is_digit,
}

abbrev pub budget : Lexer → ℕ
budget l = suc (length l.input)

-- `for p(l.ch) { l.readChar() }`
unfoldable pub read_while : ℕ → (ℕ → Bool) → Lexer → Run Lexer
read_while zero p l = endless
read_while (suc fuel) p l =
    let rest = read_while fuel p (read_char l) in if p l.ch then rest else returned l

abbrev pub is_space : ℕ → Bool
is_space ch = ch == b' ' || ch == b'\t' || ch == b'\n' || ch == b'\r'

abbrev pub ends_comment : Lexer → Bool
ends_comment l = l.ch == b'*' && peek_char l == b'/'

unfoldable pub block_comment_body : ℕ → Lexer → Run Lexer
block_comment_body zero l = endless
block_comment_body (suc fuel) l =
    let rest = block_comment_body fuel (read_char l) in
    if l.ch == 0
    then returned l
    else if ends_comment l
    then returned (read_char (read_char l))
    else rest

unfoldable pub skip_block_comment : Lexer → Run Lexer
skip_block_comment l = block_comment_body (budget l) (read_char (read_char l))

abbrev pub starts_comment : Lexer → Bool
starts_comment l = l.ch == b'/' && peek_char l == b'*'

unfoldable pub skip_whitespace : ℕ → Lexer → Run Lexer
skip_whitespace zero l = endless
skip_whitespace (suc fuel) l = do
  l ← read_while (budget l) is_space l
  let rest = skip_block_comment l >>= skip_whitespace fuel
  if starts_comment l then rest else returned l

-- A token that starts where `l` stands.
abbrev pub token : Lexer → TokenType → Bytes → Token
token l type literal = record {
  type = type;
  literal = literal;
  line = l.line;
  column = l.column;
  bracketed = false;
}

abbrev pub in_line : ℕ → Bool
in_line ch = not (ch == b'\n') && not (ch == 0)

unfoldable pub read_line_comment : Lexer → Run (Token × Lexer)
read_line_comment l = do
  end ← read_while (budget l) in_line l
  literal ← slice end.input l.pos end.pos
  returned (token l token_comment literal, end)

-- The loop of `readString`; `none` stands for a string without an end.
unfoldable pub string_body : ℕ → Lexer → Bytes → Run (Option Bytes × Lexer)
string_body zero l sb = endless
string_body (suc fuel) l sb =
    let plain = string_body fuel (read_char l) (sb ++ l.ch ∷ []) in
    let escaped = string_body fuel (read_char (read_char l)) (sb ++ b'\'' ∷ []) in
    if l.ch == 0
    then returned (none, l)
    else if l.ch == b'\''
    then (if peek_char l == b'\'' then escaped else returned (some sb, read_char l))
    else plain

abbrev pub string_token : Lexer → Option Bytes × Lexer → Token × Lexer
string_token l (none, end) = (token l token_error (bytes "unterminated string"), end)
string_token l (some sb, end) = (token l token_string sb, end)

unfoldable pub read_string : Lexer → Run (Token × Lexer)
read_string l = string_body (budget l) (read_char l) [] >>= λ r. returned (string_token l r)

abbrev pub in_quotes : ℕ → ℕ → Bool
in_quotes quote ch = not (ch == quote) && not (ch == 0)

-- Behind the loop of the two readers of identifiers: `opened` is the first byte of the name.
unfoldable pub quoted_token : Bool → Lexer → Lexer → Lexer → Run (Token × Lexer)
quoted_token bracketed l opened end =
    if end.ch == 0
    then returned (
      record (token l token_error (bytes "unterminated identifier")) { bracketed = bracketed },
      end,
    )
    else slice end.input opened.pos end.pos >>= λ literal.
        returned (record (token l token_ident literal) { bracketed = bracketed }, read_char end)

-- `readQuotedIdentifier`, and `readBracketIdentifier` with its own quote and its mark.
unfoldable pub read_quoted : Bool → ℕ → Lexer → Run (Token × Lexer)
read_quoted bracketed quote l =
    read_while (budget l) (in_quotes quote) (read_char l) >>= quoted_token bracketed l (read_char l)

abbrev pub read_quoted_identifier : ℕ → Lexer → Run (Token × Lexer)
read_quoted_identifier = read_quoted false

abbrev pub read_bracket_identifier : Lexer → Run (Token × Lexer)
read_bracket_identifier = read_quoted true b']'

abbrev pub to_upper : Bytes → Bytes
to_upper [] = []
to_upper (c ∷ cs) = (if leb b'a' c && leb c b'z' then c - 32 else c) ∷ to_upper cs

abbrev pub in_name : ℕ → Bool
in_name ch = is_letter ch || is_digit ch || ch == b'_'

-- `strings.ToUpper` also maps letters beyond ASCII, to letters beyond ASCII, which no keyword has.
unfoldable pub read_identifier : Lexer → Run (Token × Lexer)
read_identifier l = do
  end ← read_while (budget l) in_name l
  literal ← slice end.input l.pos end.pos
  returned (token l (lookup_keyword (to_upper literal)) literal, end)

unfoldable pub read_fraction : Lexer → Run Lexer
read_fraction l =
    if l.ch == b'.' && is_digit (peek_char l)
    then read_while (budget l) is_digit (read_char l)
    else returned l

abbrev pub skip_sign : Lexer → Lexer
skip_sign l = if l.ch == b'+' || l.ch == b'-' then read_char l else l

unfoldable pub read_exponent : Lexer → Run Lexer
read_exponent l =
    if l.ch == b'e' || l.ch == b'E'
    then read_while (budget l) is_digit (skip_sign (read_char l))
    else returned l

unfoldable pub read_number : Lexer → Run (Token × Lexer)
read_number l = do
  whole ← read_while (budget l) is_digit l
  part ← read_fraction whole
  end ← read_exponent part
  literal ← slice end.input l.pos end.pos
  returned (token l token_number literal, end)
