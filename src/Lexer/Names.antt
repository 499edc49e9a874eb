-- ===== src/Lexer/Names.antt =====
-- pkg/lexer/token.go: the keywords and their printed form.
use pizzasql.Prelude.{Bool, true, ◌&&◌, some, [], ◌∷◌, ◌≡◌, refl, arith}
use pizzasql.Prelude.Bytes.{Bytes, bytes_eq, bytes_equal, bytes_equal_iff}
use pizzasql.Prelude.Map.{Map, lookup}
use pizzasql.Lexer.Token.{TokenType}
use pizzasql.Lexer.Keywords.{keywords, string_of}

all_printed : Map Bytes TokenType → Bool
all_printed [] = true
all_printed ((k, t) ∷ m) = bytes_equal (string_of keywords t) k && all_printed m

all_printed_lem :
    (m : Map Bytes TokenType) (kw : Bytes) (t : TokenType)
    → all_printed m ≡ true
    → lookup kw m ≡ some t
    → string_of keywords t ≡ kw
unfolding all_printed lookup
all_printed_lem [] kw t a h = absurd (cc)
all_printed_lem ((k, u) ∷ m) kw t a h =
    ground (
      arith,
      bytes_equal_iff (string_of keywords u) k,
      bytes_equal_iff k kw,
      all_printed_lem m kw t,
    )

keywords_printed : all_printed keywords ≡ true
unfolding all_printed string_of
keywords_printed = refl

-- A word that the keyword map holds is what the token type of the word prints as: no two keywords
-- share a type, and no keyword has the type of an operator.
pub string_of-lookup :
    (kw : Bytes) (t : TokenType) → lookup kw keywords ≡ some t → string_of keywords t ≡ kw
string_of-lookup kw t h = all_printed_lem keywords kw t keywords_printed h
