-- ===== src/Lexer/Next.antt =====
-- pkg/lexer/lexer.go: `NextToken`, `afterExpression` and `Tokenize`.
use pizzasql.Prelude.{
  ℕ, zero, suc, Bool, true, false, ◌&&◌, ◌||◌, Option, some, none, List, [], ◌∷◌, ◌==◌,
  if◌then◌else◌, length,
}
use pizzasql.Prelude.Bytes.{Bytes, bytes}
use pizzasql.Prelude.Eq.{nat_eq}
use pizzasql.Prelude.Map.{Map, lookup}
use pizzasql.Lexer.Token.{
  TokenType, Token, token_bigint, token_bit_and, token_bit_not, token_blob, token_blob_type,
  token_boolean, token_char, token_character, token_clob, token_comma, token_comment, token_date,
  token_datetime, token_decimal, token_dot, token_double, token_eof, token_eq, token_error,
  token_false, token_float, token_ident, token_int, token_integer, token_json, token_jsonb,
  token_l_bracket, token_l_paren, token_mediumint, token_nchar, token_null, token_number,
  token_numeric, token_nvarchar, token_percent, token_plus, token_r_bracket, token_r_paren,
  token_real, token_semicolon, token_slash, token_smallint, token_star, token_string, token_text,
  token_time, token_timestamp, token_tinyint, token_true, token_varchar,
}
use pizzasql.Lexer.State.{
  Run, returned, endless, ◌>>=◌, Lexer, peek_char, new_lexer, is_letter, is_digit,
}
use pizzasql.Lexer.Readers.{
  budget, skip_whitespace, token, read_string, read_quoted_identifier, read_bracket_identifier,
  read_identifier, read_number,
}
use pizzasql.Lexer.Blob.{read_blob}
use pizzasql.Lexer.Operators.{one, unexpected, next_operator}

-- The tokens behind which a bracket is a subscript.
abbrev pub ends_expression : TokenType → Bool
ends_expression token_ident = true
ends_expression token_string = true
ends_expression token_number = true
ends_expression token_blob = true
ends_expression token_r_paren = true
ends_expression token_r_bracket = true
ends_expression token_true = true
ends_expression token_false = true
ends_expression token_null = true
ends_expression token_integer = true
ends_expression token_int = true
ends_expression token_tinyint = true
ends_expression token_smallint = true
ends_expression token_mediumint = true
ends_expression token_bigint = true
ends_expression token_real = true
ends_expression token_float = true
ends_expression token_double = true
ends_expression token_numeric = true
ends_expression token_decimal = true
ends_expression token_text = true
ends_expression token_varchar = true
ends_expression token_char = true
ends_expression token_character = true
ends_expression token_clob = true
ends_expression token_nchar = true
ends_expression token_nvarchar = true
ends_expression token_blob_type = true
ends_expression token_boolean = true
ends_expression token_date = true
ends_expression token_time = true
ends_expression token_timestamp = true
ends_expression token_datetime = true
ends_expression token_json = true
ends_expression token_jsonb = true
ends_expression _ = false

abbrev pub after_expression : Lexer → Bool
after_expression l = ends_expression l.prev

-- The default case of the switch.
unfoldable pub next_word : (Bytes → Bytes) → Lexer → Run (Token × Lexer)
next_word hex_error l =
    if (l.ch == b'x' || l.ch == b'X') && peek_char l == b'\''
    then read_blob hex_error l
    else if is_letter l.ch || l.ch == b'_'
    then read_identifier l
    else if is_digit l.ch
    then read_number l
    else returned (unexpected l)

-- The bytes that are a token by themselves; its literal is the byte.
abbrev pub single_tokens : Map ℕ TokenType
single_tokens =
    (b'+', token_plus)
    ∷ (b'*', token_star)
    ∷ (b'/', token_slash)
    ∷ (b'%', token_percent)
    ∷ (b'&', token_bit_and)
    ∷ (b'~', token_bit_not)
    ∷ (b'(', token_l_paren)
    ∷ (b')', token_r_paren)
    ∷ (b',', token_comma)
    ∷ (b';', token_semicolon)
    ∷ (b'.', token_dot)
    ∷ (b'=', token_eq)
    ∷ (b']', token_r_bracket)
    ∷ []

abbrev pub single_case : Lexer → Run (Token × Lexer) → Option TokenType → Run (Token × Lexer)
single_case l other (some type) = returned (one l type (l.ch ∷ []))
single_case l other none = other

unfoldable pub next_single : Lexer → Run (Token × Lexer) → Run (Token × Lexer)
unfolding lookup
next_single l other = single_case l other (lookup l.ch single_tokens)

unfoldable pub next_bracket : Lexer → Run (Token × Lexer)
next_bracket l =
    if after_expression l
    then returned (one l token_l_bracket (bytes "["))
    else read_bracket_identifier l

-- The bytes that open a quotation.
unfoldable pub next_quote : Lexer → Run (Token × Lexer) → Run (Token × Lexer)
next_quote l other =
    if l.ch == b'\''
    then read_string l
    else if l.ch == b'"'
    then read_quoted_identifier b'"' l
    else if l.ch == b'`'
    then read_quoted_identifier b'`' l
    else if l.ch == b'['
    then next_bracket l
    else other

-- The switch; `l` stands behind the white space.
unfoldable pub next_switch : (Bytes → Bytes) → Lexer → Run (Token × Lexer)
next_switch hex_error l =
    if l.ch == 0
    then returned (token l token_eof [], l)
    else next_single l (next_operator l (next_quote l (next_word hex_error l)))

abbrev pub is_comment : TokenType → Bool
is_comment token_comment = true
is_comment _ = false

-- `if tok.Type != TokenComment { l.prev = tok.Type }`
abbrev pub remember : Token × Lexer → Token × Lexer
remember (tok, l) = (tok, if is_comment tok.type then l else record l { prev = tok.type })

unfoldable pub next_token : (Bytes → Bytes) → Lexer → Run (Token × Lexer)
next_token hex_error l = do
  l ← skip_whitespace (budget l) l
  r ← next_switch hex_error l
  returned (remember r)

abbrev pub is_last : TokenType → Bool
is_last token_eof = true
is_last token_error = true
is_last _ = false

abbrev pub cons_token : Token → Run (List Token) → Run (List Token)
cons_token tok r = r >>= λ toks. returned (tok ∷ toks)

-- The loop of `Tokenize`.
unfoldable pub tokenize_loop : ℕ → (Bytes → Bytes) → Lexer → Run (List Token)
tokenize_loop zero hex_error l = endless
tokenize_loop (suc fuel) hex_error l = do
  (tok, l) ← next_token hex_error l
  let rest = cons_token tok (tokenize_loop fuel hex_error l)
  if is_last tok.type then returned (tok ∷ []) else rest

-- `New(input).Tokenize()`
unfoldable pub tokenize : (Bytes → Bytes) → Bytes → Run (List Token)
tokenize hex_error input = tokenize_loop (suc (length input)) hex_error (new_lexer input)
