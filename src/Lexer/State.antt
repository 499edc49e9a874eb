-- ===== src/Lexer/State.antt =====
-- pkg/lexer/lexer.go: `Lexer`, `New`, `readChar`, `peekChar` and the classes of bytes.
use pizzasql.Prelude.{
  ℕ, ◌+◌, ◌-◌, ◌/◌, ◌%◌, Bool, ◌&&◌, ◌||◌, none, some, [], ◌∷◌, ◌==◌, leb, if◌then◌else◌, length,
  get_elem?, take, drop,
}
use pizzasql.Prelude.Bytes.{Bytes}
use pizzasql.Lexer.Token.{TokenType, token_eof}

-- What a call comes to: `panicked` is a slice out of range, `endless` a loop whose fuel is used up.
pub data Run {ℓ} (A : Type ℓ) : Type ℓ where
  returned : A → Run A
  panicked endless : Run A

infixl 5 ◌>>=◌
abbrev pub ◌>>=◌ {ℓ κ} : {A : Type ℓ} {B : Type κ} → Run A → (A → Run B) → Run B
returned a >>= f = f a
panicked >>= f = panicked
endless >>= f = endless

pub record Lexer : Type 0 where
  pub input : Bytes
  pub pos : ℕ
  pub read_pos : ℕ
  pub ch : ℕ
  pub line : ℕ
  pub column : ℕ
  pub prev : TokenType

-- `input[i]`, and 0 from the end on.
abbrev pub char_at : Bytes → ℕ → ℕ
char_at input i = elim (get_elem? input i) [ some c ↦ c | none ↦ 0 ]

unfoldable pub read_char : Lexer → Lexer
read_char l =
    let c = char_at l.input l.read_pos in
    let moved = record l { ch = c; pos = l.read_pos; read_pos = l.read_pos + 1 } in
    if c == b'\n'
    then record moved { line = l.line + 1; column = 0 }
    else record moved { column = l.column + 1 }

abbrev pub peek_char : Lexer → ℕ
peek_char l = char_at l.input l.read_pos

-- `New`
unfoldable pub new_lexer : Bytes → Lexer
unfolding read_char
new_lexer input = read_char (record {
  input = input;
  pos = 0;
  read_pos = 0;
  ch = 0;
  line = 1;
  column = 0;
  prev = token_eof;
})

-- `l.input[from:to]`
unfoldable pub slice : Bytes → ℕ → ℕ → Run Bytes
slice input from to =
    if leb from to && leb to (length input)
    then returned (take (to - from) (drop from input))
    else panicked

abbrev between : ℕ → ℕ → ℕ → Bool
between lo hi ch = leb lo ch && leb ch hi

-- `unicode.IsLetter` on the runes below 256.
abbrev pub is_letter : ℕ → Bool
is_letter ch =
    between b'A' b'Z' ch
    || between b'a' b'z' ch
    || ch == 0xaa
    || ch == 0xb5
    || ch == 0xba
    || between 0xc0 0xd6 ch
    || between 0xd8 0xf6 ch
    || between 0xf8 0xff ch

abbrev pub is_digit : ℕ → Bool
is_digit ch = between b'0' b'9' ch

abbrev pub is_hex_digit : ℕ → Bool
is_hex_digit ch = between b'0' b'9' ch || between b'a' b'f' ch || between b'A' b'F' ch

-- `string(ch)`: the UTF-8 form of the rune `ch`, which is below 256.
abbrev pub string_of_byte : ℕ → Bytes
string_of_byte ch = if leb ch 127 then ch ∷ [] else (0xc0 + ch / 64) ∷ (0x80 + ch % 64) ∷ []
