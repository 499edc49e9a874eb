-- ===== src/Lexer/Tests.antt =====
-- Runs of the lexer, and the theorems about it at a concrete input.
use pizzasql.Prelude.{List, [], ◌∷◌, ◌≡◌, refl, map}
use pizzasql.Prelude.Bytes.{Bytes, bytes, bytes_eq}
use pizzasql.Prelude.Eq.{nat_eq}
use pizzasql.Prelude.Map.{lookup}
use pizzasql.Lexer.Token.{
  TokenType, Token, token_select, token_string, token_comma, token_number, token_arrow_text,
  token_ident, token_comment, token_l_bracket, token_r_bracket, token_blob, token_eof,
}
use pizzasql.Lexer.Keywords.{keywords, lookup_keyword, string_of}
use pizzasql.Lexer.State.{Run, returned, ◌>>=◌, Lexer, new_lexer, read_char, slice}
use pizzasql.Lexer.Readers.{
  read_while, block_comment_body, skip_block_comment, skip_whitespace, read_line_comment,
  string_body, read_string, quoted_token, read_quoted, read_identifier, read_fraction,
  read_exponent, read_number,
}
use pizzasql.Lexer.Blob.{decode_string, blob_body, read_blob}
use pizzasql.Lexer.Operators.{next_less, next_minus, next_operator}
use pizzasql.Lexer.Next.{
  next_word, next_single, next_bracket, next_quote, next_switch, next_token, tokenize_loop,
  tokenize,
}
use pizzasql.Lexer.Moves.{Ensures, new_lexer-IsValid}
use pizzasql.Lexer.Stream.{IsScanned, next_token_scans, Stream, tokenize_ends}
use pizzasql.Lexer.Names.{string_of-lookup}
use pizzasql.Lexer.Quoting.{IsString, next_token-quote}

-- No run of a test reaches an error of encoding/hex.
abbrev no_error : Bytes → Bytes
no_error _ = []

abbrev types : Run (List Token) → Run (List TokenType)
types r = r >>= λ ts. returned (map (λ t. t.type) ts)

abbrev statement : Bytes
statement = bytes "select 'it''s', a->>2, x'0aF0' /* b */ , b[1] -- end"

tokenized :
    types (tokenize no_error statement)
    ≡ returned (
        token_select ∷ token_string ∷ token_comma ∷ token_ident ∷ token_arrow_text ∷ token_number
        ∷ token_comma ∷ token_blob ∷ token_comma ∷ token_ident ∷ token_l_bracket ∷ token_number
        ∷ token_r_bracket ∷ token_comment ∷ token_eof ∷ [])
unfolding tokenize tokenize_loop next_token next_switch next_single next_quote next_bracket
    next_word next_operator next_minus next_less new_lexer read_char slice read_while
    block_comment_body skip_block_comment skip_whitespace read_line_comment string_body read_string
    quoted_token read_quoted read_identifier read_fraction read_exponent read_number decode_string
    blob_body read_blob lookup_keyword lookup
tokenized = refl

tokenize_ends_example : Ensures (Stream statement 0) (tokenize no_error statement)
tokenize_ends_example = tokenize_ends no_error statement

next_token_scans_example :
    Ensures (IsScanned (new_lexer statement)) (next_token no_error (new_lexer statement))
next_token_scans_example =
    next_token_scans no_error (new_lexer statement) (new_lexer-IsValid statement)

string_of-lookup_example : string_of keywords token_select ≡ bytes "SELECT"
unfolding lookup
string_of-lookup_example = string_of-lookup (bytes "SELECT") token_select refl

abbrev quoted : Lexer
quoted = new_lexer (bytes "'it''s' x")

next_token-quote_example :
    Ensures (IsString (bytes "it's") (bytes " x")) (next_token no_error quoted)
unfolding new_lexer
next_token-quote_example =
    next_token-quote no_error quoted (bytes "it's") (bytes " x")
      (new_lexer-IsValid (bytes "'it''s' x")) refl refl refl
