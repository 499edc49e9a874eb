-- ===== src/Lexer/Quoting.antt =====
-- pkg/lexer/lexer.go: `readString` against the way a text is quoted in SQL.
use pizzasql.Prelude.{
  ℕ, zero, suc, ◌+◌, Bool, true, false, not, ◌&&◌, Option, some, none, [], ◌∷◌, ◌++◌, ◌≡◌, refl,
  sym, ap, arith, ◌==◌, ==_iff, if◌then◌else◌, drop, Bool-cases, inl, inr,
}
use pizzasql.Prelude.Bytes.{Bytes}
use pizzasql.Lexer.Token.{Token, token_string}
use pizzasql.Lexer.State.{returned, ◌>>=◌, Lexer, char_at, read_char, peek_char}
use pizzasql.Lexer.Readers.{
  budget, string_body, string_token, read_string, skip_whitespace, read_while,
}
use pizzasql.Lexer.Operators.{next_operator}
use pizzasql.Lexer.Next.{next_switch, next_single, next_quote, next_token, remember, is_comment}
use pizzasql.Lexer.Moves.{Ensures, Ensures-bind, Ensures-map, IsValid, read_char-Forward}
use pizzasql.Lexer.Total.{IsFuel, IsFuel-left, no_fuel, read_twice}

-- Each quote is doubled.
abbrev pub escape : Bytes → Bytes
escape [] = []
escape (c ∷ s) = if c == b'\'' then b'\'' ∷ b'\'' ∷ escape s else c ∷ escape s

-- No byte is NUL, which the lexer takes for the end of the input.
abbrev pub has_no_nul : Bytes → Bool
has_no_nul [] = true
has_no_nul (c ∷ s) = not (c == 0) && has_no_nul s

-- The first byte, and 0 for none.
abbrev pub first : Bytes → ℕ
first [] = 0
first (c ∷ _) = c

-- What the lexer has not read, the byte it stands at included.
abbrev pub ahead : Lexer → Bytes
ahead l = drop l.pos l.input

char_at-drop : (s : Bytes) (i : ℕ) → char_at s i ≡ first (drop i s)
char_at-drop [] zero = refl
char_at-drop [] (suc i) = refl
char_at-drop (c ∷ s) zero = refl
char_at-drop (c ∷ s) (suc i) = char_at-drop s i

drop-suc : (s : Bytes) (i c : ℕ) (r : Bytes) → drop i s ≡ c ∷ r → drop (i + 1) s ≡ r
drop-suc [] zero c r h = absurd (cc)
drop-suc [] (suc i) c r h = absurd (cc)
drop-suc (x ∷ s) zero c r h = ground (arith, h)
drop-suc (x ∷ s) (suc i) c r h = ground (arith, drop-suc s i c r)

pub ch-ahead : (l : Lexer) (c : ℕ) (r : Bytes) → IsValid l → ahead l ≡ c ∷ r → l.ch ≡ c
ch-ahead l c r v h = ground (arith, v.2, char_at-drop l.input l.pos, h)

peek-ahead : (l : Lexer) (c : ℕ) (r : Bytes) → IsValid l → ahead l ≡ c ∷ r → peek_char l ≡ first r
peek-ahead l c r v h =
    ground (arith, v.0, char_at-drop l.input l.read_pos, drop-suc l.input l.pos c r h)

ahead-read_char :
    (l : Lexer) (c : ℕ) (r : Bytes) → IsValid l → ahead l ≡ c ∷ r → ahead (read_char l) ≡ r
unfolding read_char
ahead-read_char l c r v h = ground (arith, v.0, drop-suc l.input l.pos c r h)

append_one : (s : Bytes) (c : ℕ) (t : Bytes) → (s ++ c ∷ []) ++ t ≡ s ++ c ∷ t
append_one [] c t = refl
append_one (x ∷ s) c t = ap (λ r. x ∷ r) (append_one s c t)

append-nil : (s : Bytes) → s ++ [] ≡ s
append-nil [] = refl
append-nil (x ∷ s) = ap (λ r. x ∷ r) (append-nil s)

-- The loop has read `text` behind `sb`, and `rest` is left.
record Body (sb text rest : Bytes) (r : Option Bytes × Lexer) : Type 0 where
  read : r.0 ≡ some (sb ++ text)
  valid : IsValid r.1
  left : ahead r.1 ≡ rest

cons-Body :
    (sb : Bytes) (c : ℕ) (text rest : Bytes) (r : Option Bytes × Lexer)
    → Body (sb ++ c ∷ []) text rest r
    → Body sb (c ∷ text) rest r
cons-Body sb c text rest r b = record {
  read = rw (append_one sb c text) at b.read;
  valid = b.valid;
  left = b.left;
}

module _ (rest : Bytes) (stop : (first rest == b'\'') ≡ false) where
  string_body_reads :
      (text : Bytes) (fuel : ℕ) (l : Lexer) (sb : Bytes)
      → has_no_nul text ≡ true
      → IsValid l
      → IsFuel fuel l
      → ahead l ≡ escape text ++ b'\'' ∷ rest
      → Ensures (Body sb text rest) (string_body fuel l sb)
  unfolding string_body
  string_body_reads text zero l sb n v h a = no_fuel l v h
  string_body_reads [] (suc fuel) l sb n v h a =
      let ch = ch-ahead l b'\'' rest v a in
      let peek = peek-ahead l b'\'' rest v a in
      let zero_test : (l.ch == 0) ≡ false = ground (arith, ch) in
      let quote_test : (l.ch == b'\'') ≡ true = ground (arith, ch) in
      let peek_test : (peek_char l == b'\'') ≡ false = ground (arith, peek, stop) in
      let f = read_char-Forward l v (ground (arith, ch)) in
      rw (zero_test, quote_test, peek_test)
        (record {
          read = ap some (sym (append-nil sb));
          valid = f.0;
          left = ahead-read_char l b'\'' rest v a;
        })
  string_body_reads (c ∷ text) (suc fuel) l sb n v h a = elim (Bool-cases (c == b'\'')) [
    | inl q ↦
        let tail = b'\'' ∷ (escape text ++ b'\'' ∷ rest) in
        let a' : ahead l ≡ b'\'' ∷ tail = rw q at a in
        let next = read_char l in
        let after = read_char next in
        let ch = ch-ahead l b'\'' tail v a' in
        let peek = peek-ahead l b'\'' tail v a' in
        let f = read_char-Forward l v (ground (arith, ch)) in
        let g = read_twice l v (ground (arith, ch)) (ground (arith, peek)) in
        let zero_test : (l.ch == 0) ≡ false = ground (arith, ch) in
        let quote_test : (l.ch == b'\'') ≡ true = ground (arith, ch) in
        let peek_test : (peek_char l == b'\'') ≡ true = ground (arith, peek) in
        let b = ahead-read_char l b'\'' tail v a' in
        rw (zero_test, quote_test, peek_test)
          (Ensures-map (Body (sb ++ b'\'' ∷ []) text rest) (Body sb (c ∷ text) rest)
            (string_body fuel after (sb ++ b'\'' ∷ []))
            (string_body_reads text fuel after (sb ++ b'\'' ∷ []) (ground (arith, n)) g.0
              (IsFuel-left fuel l after g h)
              (ahead-read_char next b'\'' (escape text ++ b'\'' ∷ rest) f.0 b))
            (λ r d. rw (← (==_iff c b'\'').0 q) at (cons-Body sb b'\'' text rest r d)))
    | inr q ↦
        let tail = escape text ++ b'\'' ∷ rest in
        let a' : ahead l ≡ c ∷ tail = rw q at a in
        let next = read_char l in
        let ch = ch-ahead l c tail v a' in
        let zero_test : (l.ch == 0) ≡ false = ground (arith, ch, n) in
        let quote_test : (l.ch == b'\'') ≡ false = ground (arith, ch, q) in
        let f = read_char-Forward l v (ground (arith, zero_test)) in
        rw (zero_test, quote_test)
          (Ensures-map (Body (sb ++ l.ch ∷ []) text rest) (Body sb (c ∷ text) rest)
            (string_body fuel next (sb ++ l.ch ∷ []))
            (string_body_reads text fuel next (sb ++ l.ch ∷ []) (ground (arith, n)) f.0
              (IsFuel-left fuel l next f h) (ahead-read_char l c tail v a'))
            (λ r d. cons-Body sb c text rest r (rw ch at d)))
  ]

skip_nothing : (l : Lexer) → l.ch ≡ b'\'' → skip_whitespace (budget l) l ≡ returned l
unfolding skip_whitespace read_while
skip_nothing l ch = ground (arith, ch)

switch_string :
    (hex_error : Bytes → Bytes) (l : Lexer) → l.ch ≡ b'\'' → next_switch hex_error l ≡ read_string l
unfolding next_switch next_single next_operator next_quote
switch_string hex_error l ch = ground (arith, ch)

abbrev pub quote : Bytes → Bytes
quote text = b'\'' ∷ (escape text ++ b'\'' ∷ [])

-- The token of a string literal, and the lexer behind it.
pub record IsString (text rest : Bytes) (r : Token × Lexer) : Type 0 where
  pub type : r.0.type ≡ token_string
  pub literal : r.0.literal ≡ text
  pub left : ahead r.1 ≡ rest

remember-IsString :
    (text rest : Bytes) (r : Token × Lexer) → IsString text rest r → IsString text rest (remember r)
remember-IsString text rest (t, e) s = elim (Bool-cases (is_comment t.type)) [
  | inl h ↦ rw h s
  | inr h ↦ rw h (record { type = s.type; literal = s.literal; left = s.left })
]

string_token-IsString :
    (l : Lexer) (text rest : Bytes) (r : Option Bytes × Lexer)
    → Body [] text rest r
    → IsString text rest (string_token l r)
string_token-IsString l text rest (none, e) b = absurd (cc (b.read))
string_token-IsString l text rest (some s, e) b = record {
  type = refl;
  literal = cc (b.read);
  left = b.left;
}

-- Where the input goes on with a text in quotes, each quote in it doubled, `NextToken` returns the
-- text as the literal of a string token and stands behind the closing quote. The text holds no NUL,
-- and no further quote follows.
pub next_token-quote :
    (hex_error : Bytes → Bytes) (l : Lexer) (text rest : Bytes)
    → IsValid l
    → has_no_nul text ≡ true
    → (first rest == b'\'') ≡ false
    → ahead l ≡ quote text ++ rest
    → Ensures (IsString text rest) (next_token hex_error l)
unfolding next_token read_string
next_token-quote hex_error l text rest v n stop a =
    let tail = escape text ++ b'\'' ∷ rest in
    let a' : ahead l ≡ b'\'' ∷ tail = ground (arith, a, append_one (escape text) b'\'' rest) in
    let ch = ch-ahead l b'\'' tail v a' in
    let next = read_char l in
    let f = read_char-Forward l v (ground (arith, ch)) in
    rw (skip_nothing l ch, switch_string hex_error l ch)
      (Ensures-bind (IsString text rest) (IsString text rest)
        (string_body (budget l) next [] >>= λ r. returned (string_token l r))
        (λ r. returned (remember r))
        (Ensures-bind (Body [] text rest) (IsString text rest) (string_body (budget l) next []) _
          (string_body_reads rest stop text (budget l) next [] n f.0 (ground (arith, f.1))
            (ahead-read_char l b'\'' tail v a'))
          (λ r b. string_token-IsString l text rest r b))
        (λ r s. remember-IsString text rest r s))
