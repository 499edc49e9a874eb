-- ===== src/Lexer/Switch.antt =====
-- pkg/lexer/lexer.go: `NextToken` returns, and `Tokenize` ends.
use pizzasql.Prelude.{
  ℕ, Bool, true, false, ◌&&◌, ◌||◌, Option, some, none, [], ◌≡◌, ◌≢◌, refl, arith, ◌==◌,
  if◌then◌else◌, inl, inr, ◌⊎◌, ◌⊎◌,
}
use pizzasql.Prelude.Bytes.{Bytes, bytes}
use pizzasql.Prelude.Eq.{nat_eq}
use pizzasql.Prelude.Map.{lookup}
use pizzasql.Lexer.Token.{
  Token, TokenType, token_eof, token_neq, token_concat, token_bit_or, token_colon_colon,
}
use pizzasql.Lexer.State.{Run, returned, Lexer, read_char, peek_char, is_letter}
use pizzasql.Lexer.Readers.{token}
use pizzasql.Lexer.Operators.{
  one, two, unexpected, next_less, next_greater, next_hash, next_at, next_question, next_minus,
  next_double, next_operator,
}
use pizzasql.Lexer.Next.{
  next_word, next_single, single_case, single_tokens, next_quote, next_bracket, next_switch,
  after_expression,
}
use pizzasql.Lexer.Moves.{
  Ensures, Ensures-map, Ensures-if, IsValid, Onward, Forward, read_char-Forward, Onward-refl,
  Forward-Onward, onward,
}
use pizzasql.Lexer.Total.{read_twice}
use pizzasql.Lexer.Blobs.{read_blob-Ensures}
use pizzasql.Lexer.Progress.{
  IsNext, read_string-Ensures, read_identifier-Ensures, read_number-Ensures, read_quoted-Ensures,
  read_line_comment-Ensures,
}

third : (l : Lexer) → peek_char l ≢ 0 → (read_char l).ch ≢ 0
unfolding read_char
third l h = ground (arith, h)

-- The call returns the next token.
record Returns (l : Lexer) (r : Run (Token × Lexer)) : Type 0 where
  ensured : Ensures (IsNext l) r

module _ (l : Lexer) (v : IsValid l) (ne : l.ch ≢ 0) where
  one-IsNext : (type : TokenType) (literal : Bytes) → IsNext l (one l type literal)
  one-IsNext type literal = record {
    ahead = read_char-Forward l v ne;
    at_line = refl;
    at_column = refl;
  }

  two-IsNext :
      (c : ℕ) (type : TokenType) (literal : Bytes)
      → c ≢ 0
      → (peek_char l == c) ≡ true
      → IsNext l (two l type literal)
  two-IsNext c type literal nc h = record {
    ahead = read_twice l v ne (ground (arith, h));
    at_line = refl;
    at_column = refl;
  }

  IsNext-if :
      (b : Bool) (x y : Token × Lexer)
      → (b ≡ true → IsNext l x)
      → IsNext l y
      → IsNext l (if b then x else y)
  IsNext-if true x y h k = h refl
  IsNext-if false x y h k = k

  next_less-IsNext : IsNext l (next_less l)
  unfolding next_less
  next_less-IsNext = IsNext-if _ _ _ (two-IsNext b'=' _ _ (omega arith)) (
      IsNext-if _ _ _ (two-IsNext b'>' _ _ (omega arith)) (
        IsNext-if _ _ _ (two-IsNext b'<' _ _ (omega arith))
          (IsNext-if _ _ _ (two-IsNext b'@' _ _ (omega arith)) (one-IsNext _ _))))

  next_greater-IsNext : IsNext l (next_greater l)
  unfolding next_greater
  next_greater-IsNext =
      IsNext-if _ _ _ (two-IsNext b'=' _ _ (omega arith))
        (IsNext-if _ _ _ (two-IsNext b'>' _ _ (omega arith)) (one-IsNext _ _))

  next_at-IsNext : IsNext l (next_at l)
  unfolding next_at
  next_at-IsNext = IsNext-if _ _ _ (two-IsNext b'>' _ _ (omega arith)) (
      IsNext-if _ _ _ (two-IsNext b'@' _ _ (omega arith))
        (IsNext-if _ _ _ (two-IsNext b'?' _ _ (omega arith)) (one-IsNext _ _)))

  next_question-IsNext : IsNext l (next_question l)
  unfolding next_question
  next_question-IsNext =
      IsNext-if _ _ _ (two-IsNext b'|' _ _ (omega arith))
        (IsNext-if _ _ _ (two-IsNext b'&' _ _ (omega arith)) (one-IsNext _ _))

  -- Two bytes, and a third one where it is `c`.
  two_or_three :
      (b c : ℕ) (three two : TokenType) (x y : Bytes)
      → b ≢ 0
      → c ≢ 0
      → (peek_char l == b) ≡ true
      → IsNext l (
          let l' = read_char l in
          if peek_char l' == c
          then (token l three x, read_char (read_char l'))
          else (token l two y, read_char l'))
  two_or_three b c three two x y nb nc h =
      let l' = read_char l in
      let f = read_char-Forward l v ne in
      let g = read_twice l v ne (ground (arith, h)) in
      IsNext-if (peek_char l' == c) _ _
        (λ h'.
          let k = read_char-Forward (read_char l') g.0 (third l' (ground (arith, h'))) in
          record {
            ahead =
                Forward-Onward l (read_char l') (read_char (read_char l')) g
                  (onward (read_char l') (read_char (read_char l')) k);
            at_line = refl;
            at_column = refl;
          })
        (record { ahead = g; at_line = refl; at_column = refl })

  next_hash-IsNext : IsNext l (next_hash l)
  unfolding next_hash
  next_hash-IsNext =
      IsNext-if _ _ _ (two_or_three b'>' b'>' _ _ _ _ (omega arith) (omega arith))
        (IsNext-if _ _ _ (two-IsNext b'-' _ _ (omega arith)) (one-IsNext _ _))

  next_double-IsNext :
      (c : ℕ) (x y : Token × Lexer)
      → ((peek_char l == c) ≡ true → IsNext l x)
      → IsNext l y
      → IsNext l (next_double c x y l)
  next_double-IsNext c x y h k = IsNext-if _ _ _ h k

  run_if :
      (b : Bool) (x y : Run (Token × Lexer))
      → (b ≡ true → Returns l x)
      → Returns l y
      → Returns l (if b then x else y)
  run_if true x y h k = h refl
  run_if false x y h k = k

  by : (r : Token × Lexer) → IsNext l r → Returns l (returned r)
  by r h = record { ensured = h }

  three_run :
      (b : Bool) (x y : Token × Lexer)
      → IsNext l (if b then x else y)
      → Returns l (if b then returned x else returned y)
  three_run true x y h = record { ensured = h }
  three_run false x y h = record { ensured = h }

  next_minus-Ensures : (l.ch == b'-') ≡ true → Returns l (next_minus l)
  unfolding next_minus
  next_minus-Ensures h =
      run_if _ _ _ (λ _. record { ensured = read_line_comment-Ensures l v (ground (arith, h)) })
        (run_if (peek_char l == b'>') _ _
          (λ g. three_run _ _ _ (two_or_three b'>' b'>' _ _ _ _ (omega arith) (omega arith) g))
          (by _ (one-IsNext _ _)))

  next_word-Ensures : (hex_error : Bytes → Bytes) → Returns l (next_word hex_error l)
  unfolding next_word
  next_word-Ensures hex_error =
      run_if ((l.ch == b'x' || l.ch == b'X') && peek_char l == b'\'') _ _
        (λ h. record { ensured = read_blob-Ensures hex_error l v ne (ground (arith, h)) })
        (run_if (is_letter l.ch || l.ch == b'_') _ _
          (λ h. record { ensured = read_identifier-Ensures l v (ground (arith, h)) })
          (run_if _ _ _ (λ h. record { ensured = read_number-Ensures l v h })
            (by _ (one-IsNext _ _))))

  next_bracket-Ensures : Returns l (next_bracket l)
  unfolding next_bracket
  next_bracket-Ensures =
      run_if (after_expression l) _ _ (λ _. by _ (one-IsNext _ _))
        (record { ensured = read_quoted-Ensures true b']' l v ne })

  next_quote-Ensures :
      (other : Run (Token × Lexer)) → Returns l other → Returns l (next_quote l other)
  unfolding next_quote
  next_quote-Ensures other k =
      run_if _ _ _ (λ _. record { ensured = read_string-Ensures l v ne })
        (run_if _ _ _ (λ _. record { ensured = read_quoted-Ensures false b'"' l v ne })
          (run_if _ _ _ (λ _. record { ensured = read_quoted-Ensures false b'`' l v ne })
            (run_if _ _ _ (λ _. next_bracket-Ensures) k)))

  next_operator-Ensures :
      (other : Run (Token × Lexer)) → Returns l other → Returns l (next_operator l other)
  unfolding next_operator
  next_operator-Ensures other k =
      run_if (l.ch == b'<') _ _ (λ _. by _ next_less-IsNext)
        (run_if (l.ch == b'>') _ _ (λ _. by _ next_greater-IsNext)
          (run_if (l.ch == b'!') _ _
            (λ _. by _ (
              next_double-IsNext b'=' (two l token_neq (bytes "!=")) (unexpected l)
                (two-IsNext b'=' _ _ (omega arith)) (one-IsNext _ _)))
            (run_if (l.ch == b'|') _ _
              (λ _. by _ (
                next_double-IsNext b'|' (two l token_concat (bytes "||"))
                  (one l token_bit_or (bytes "|")) (two-IsNext b'|' _ _ (omega arith))
                  (one-IsNext _ _)))
              (run_if (l.ch == b'#') _ _ (λ _. by _ next_hash-IsNext)
                (run_if (l.ch == b'@') _ _ (λ _. by _ next_at-IsNext)
                  (run_if (l.ch == b'?') _ _ (λ _. by _ next_question-IsNext)
                    (run_if (l.ch == b'-') _ _ next_minus-Ensures (
                      run_if (l.ch == b':') _ _
                        (λ _. by _ (
                          next_double-IsNext b':' (two l token_colon_colon (bytes "::"))
                            (unexpected l) (two-IsNext b':' _ _ (omega arith)) (one-IsNext _ _)))
                        k))))))))

  single_case-Ensures :
      (other : Run (Token × Lexer)) (o : Option TokenType)
      → Returns l other
      → Returns l (single_case l other o)
  single_case-Ensures other (some type) k = by _ (one-IsNext type _)
  single_case-Ensures other none k = k

  next_single-Ensures :
      (other : Run (Token × Lexer)) → Returns l other → Returns l (next_single l other)
  unfolding next_single
  next_single-Ensures other k = single_case-Ensures other (lookup l.ch single_tokens) k

-- What `NextToken` returns behind the white space.
pub record Placed (l : Lexer) (r : Token × Lexer) : Type 0 where
  pub onto : Onward l r.1
  pub moves : (r.0.type ≡ token_eof) ⊎ Forward l r.1
  pub on_line : r.0.line ≡ l.line
  pub on_column : r.0.column ≡ l.column

pub next_switch-Ensures :
    (hex_error : Bytes → Bytes) (l : Lexer)
    → IsValid l
    → Ensures (Placed l) (next_switch hex_error l)
unfolding next_switch
next_switch-Ensures hex_error l v =
    Ensures-if (Placed l) (l.ch == 0) (returned (token l token_eof [], l))
      (next_single l (next_operator l (next_quote l (next_word hex_error l))))
      (λ e. record { onto = Onward-refl l v; moves = inl refl; on_line = refl; on_column = refl })
      (λ h.
        let ne = λ (z : l.ch ≡ 0). absurd (ground (arith, h, z)) in
        Ensures-map (IsNext l) (Placed l)
          (next_single l (next_operator l (next_quote l (next_word hex_error l))))
          (next_single-Ensures l v ne _ (
            next_operator-Ensures l v ne _
              (next_quote-Ensures l v ne _ (next_word-Ensures l v ne hex_error)))).ensured
          (λ r n. record {
            onto = onward l r.1 n.ahead;
            moves = inr n.ahead;
            on_line = n.at_line;
            on_column = n.at_column;
          }))
