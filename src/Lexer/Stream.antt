-- ===== src/Lexer/Stream.antt =====
-- pkg/lexer/lexer.go: `NextToken` and `Tokenize` over a whole input.
use pizzasql.Prelude.{
  ℕ, zero, suc, ◌+◌, ◌≤◌, ◌<◌, true, false, List, [], ◌∷◌, ◌≡◌, ◌⊎◌, ap, arith, length, Bool-cases,
  inl, inr,
}
use pizzasql.Prelude.Bytes.{Bytes}
use pizzasql.Lexer.Token.{Token, token_eof}
use pizzasql.Lexer.State.{returned, Lexer, new_lexer}
use pizzasql.Lexer.Readers.{budget, skip_whitespace}
use pizzasql.Lexer.Next.{
  next_switch, remember, is_comment, is_last, next_token, tokenize, tokenize_loop, cons_token,
}
use pizzasql.Lexer.Moves.{
  Ensures, Ensures-bind, Ensures-map, Ensures-if, IsValid, Onward, newlines, columns,
  new_lexer-IsValid,
}
use pizzasql.Lexer.Total.{budget-IsFuel, IsFuel, no_fuel, skip_whitespace-Ensures}
use pizzasql.Lexer.Switch.{Placed, next_switch-Ensures}

-- The token stands at byte `i` of the input: its line is one more than the line breaks up to there,
-- and its column counts the bytes since the last of them.
pub record StartsAt (input : Bytes) (i : ℕ) (t : Token) : Type 0 where
  pub inside : i ≤ length input
  pub on_line : t.line ≡ 1 + newlines (suc i) input
  pub on_column : t.column ≡ columns 0 (suc i) input

-- A token that starts at `start`, and the lexer behind it, which has moved past the start unless
-- the input is at its end.
pub record IsScanned (l : Lexer) (r : Token × Lexer) : Type 0 where
  pub start : ℕ
  pub from : l.pos ≤ start
  pub starts : StartsAt l.input start r.0
  pub valid : IsValid r.1
  pub same : r.1.input ≡ l.input
  pub past : (r.0.type ≡ token_eof) ⊎ (start < r.1.pos)

remember-IsScanned : (l : Lexer) (r : Token × Lexer) → IsScanned l r → IsScanned l (remember r)
remember-IsScanned l (t, e) s = elim (Bool-cases (is_comment t.type)) [
  | inl h ↦ rw h s
  | inr h ↦ rw h (record {
    start = s.start;
    from = s.from;
    starts = s.starts;
    valid = s.valid;
    same = s.same;
    past = s.past;
  })
]

past_lem : (l : Lexer) (r : Token × Lexer) → Placed l r → (r.0.type ≡ token_eof) ⊎ (l.pos < r.1.pos)
past_lem l r p = elim p.moves [ inl h ↦ inl h | inr f ↦ inr f.2 ]

-- `NextToken`, from a lexer in any state that `New` and its own calls lead to, returns: no slice is
-- out of range and every loop ends within its budget. Its token has the line and the column of the
-- byte that it starts at, which is not before the lexer, and the lexer comes behind that byte
-- unless the token is the end of the input.
pub next_token_scans :
    (hex_error : Bytes → Bytes) (l : Lexer)
    → IsValid l
    → Ensures (IsScanned l) (next_token hex_error l)
unfolding next_token
next_token_scans hex_error l v =
    Ensures-bind (Onward l) (IsScanned l) (skip_whitespace (budget l) l) _
      (skip_whitespace-Ensures (budget l) l v (budget-IsFuel l))
      (λ e o.
        Ensures-bind (Placed e) (IsScanned l) (next_switch hex_error e) _
          (next_switch-Ensures hex_error e o.0)
          (λ r p. remember-IsScanned l r (record {
            start = e.pos;
            from = o.2;
            starts = record {
              inside = ground (arith, o.1, o.0.1);
              on_line = ground (arith, p.on_line, o.0.3, o.1);
              on_column = ground (arith, p.on_column, o.0.4, o.1);
            };
            valid = p.onto.0;
            same = ground (arith, p.onto.1, o.1);
            past = past_lem e r p;
          })))

-- The tokens of the input from byte `i` on: each starts behind the one before it, where its line
-- and column say, and the last one alone is an end of input or an error.
pub data Stream (input : Bytes) : ℕ → List Token → Type 0 where
  last :
      (i j : ℕ) (t : Token)
      → i ≤ j
      → StartsAt input j t
      → is_last t.type ≡ true
      → Stream input i (t ∷ [])
  next :
      (i j k : ℕ) (t : Token) (ts : List Token)
      → i ≤ j
      → StartsAt input j t
      → is_last t.type ≡ false
      → j < k
      → Stream input k ts
      → Stream input i (t ∷ ts)

end_last : (t : Token) → t.type ≡ token_eof → is_last t.type ≡ false → ⊥
end_last t h more = cc (ap is_last h, more)

moved :
    (t : Token) (i : ℕ) (e : Lexer)
    → is_last t.type ≡ false
    → ((t.type ≡ token_eof) ⊎ (i < e.pos))
    → i < e.pos
moved t i e more (inl h) = absurd (end_last t h more)
moved t i e more (inr h) = h

tokenize_loop-Ensures :
    (fuel : ℕ) (hex_error : Bytes → Bytes) (l : Lexer)
    → IsValid l
    → IsFuel fuel l
    → Ensures (Stream l.input l.pos) (tokenize_loop fuel hex_error l)
unfolding tokenize_loop
tokenize_loop-Ensures zero hex_error l v h = no_fuel l v h
tokenize_loop-Ensures (suc fuel) hex_error l v h =
    Ensures-bind (IsScanned l) (Stream l.input l.pos) (next_token hex_error l) _
      (next_token_scans hex_error l v)
      (λ r s.
        let (t, e) = r in
        let rest = tokenize_loop fuel hex_error e in
        Ensures-if (Stream l.input l.pos) (is_last t.type) (returned (t ∷ [])) (cons_token t rest)
          (λ end. last l.pos s.start t s.from s.starts end)
          (λ more.
            let lt = moved t s.start e more s.past in
            Ensures-bind (Stream e.input e.pos) (Stream l.input l.pos) rest _
              (tokenize_loop-Ensures fuel hex_error e s.valid (ground (arith, lt, s.from, s.same)))
              (λ ts q. next l.pos s.start e.pos t ts s.from s.starts more lt (rw s.same at q))))

new_lexer-start : (input : Bytes) → ((new_lexer input).input ≡ input) × ((new_lexer input).pos ≡ 0)
unfolding new_lexer
new_lexer-start input = (ground arith, ground arith)

-- `New(input).Tokenize()` ends, without a panic, for every input. Its tokens start one behind the
-- other, with the lines and columns of the bytes where they start, and only the last of them is the
-- end of the input or an error.
pub tokenize_ends :
    (hex_error : Bytes → Bytes) (input : Bytes)
    → Ensures (Stream input 0) (tokenize hex_error input)
unfolding tokenize
tokenize_ends hex_error input =
    let l = new_lexer input in
    let (same, start) = new_lexer-start input in
    Ensures-map (Stream l.input l.pos) (Stream input 0)
      (tokenize_loop (suc (length input)) hex_error l)
      (tokenize_loop-Ensures (suc (length input)) hex_error l (new_lexer-IsValid input)
        (ground (arith, same)))
      (λ ts q. rw (same, start) at q)
