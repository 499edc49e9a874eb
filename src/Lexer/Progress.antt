-- ===== src/Lexer/Progress.antt =====
-- pkg/lexer/lexer.go: every reader of a token returns, and leaves the lexer further on.
use pizzasql.Prelude.{
  ℕ, Bool, true, false, ◌&&◌, ◌||◌, Option, some, none, [], ◌≡◌, ◌≢◌, refl, arith, ◌==◌, length,
  Bool-cases, inl, inr,
}
use pizzasql.Prelude.Bytes.{Bytes}
use pizzasql.Lexer.Token.{Token}
use pizzasql.Lexer.State.{returned, ◌>>=◌, Lexer, read_char, peek_char, slice, is_digit}
use pizzasql.Lexer.Readers.{
  budget, read_while, read_line_comment, in_line, string_body, string_token, read_string, in_quotes,
  quoted_token, read_quoted, in_name, read_identifier, read_fraction, skip_sign, read_exponent,
  read_number,
}
use pizzasql.Lexer.Moves.{
  Ensures, Ensures-bind, Ensures-map, Ensures-if, IsValid, Onward, Forward, read_char-Forward,
  Onward-refl, Onward-trans, Forward-Onward, onward, slice_lem,
}
use pizzasql.Lexer.Total.{read_while-Ensures, string_body-Ensures}

-- The token starts where `l` stands, and the lexer comes behind it.
pub record IsNext (l : Lexer) (r : Token × Lexer) : Type 0 where
  pub ahead : Forward l r.1
  pub at_line : r.0.line ≡ l.line
  pub at_column : r.0.column ≡ l.column

-- The loop moves, since its test accepts the byte it starts at.
read_while_moves :
    (p : ℕ → Bool) (l : Lexer)
    → p 0 ≡ false
    → IsValid l
    → p l.ch ≡ true
    → Ensures (Forward l) (read_while (budget l) p l)
unfolding read_while
read_while_moves p l z v on =
    let next = read_char l in
    let f = read_char-Forward l v (λ e. cc (z, on, e)) in
    rw on (
      Ensures-map (λ e. Onward next e × (p e.ch ≡ false)) (Forward l)
        (read_while (length l.input) p next)
        (read_while-Ensures (length l.input) p next z f.0 (ground (arith, f.1, f.2)))
        (λ e o. Forward-Onward l next e f o.0))

sliced :
    (l e : Lexer) (f : Bytes → Token × Lexer)
    → Forward l e
    → ((b : Bytes) → IsNext l (f b))
    → Ensures (IsNext l) (slice e.input l.pos e.pos >>= λ b. returned (f b))
sliced l e f o h = rw (slice_lem e.input l.pos e.pos (omega (arith, o.2)) o.0.1) (h _)

pub read_line_comment-Ensures :
    (l : Lexer) → IsValid l → in_line l.ch ≡ true → Ensures (IsNext l) (read_line_comment l)
unfolding read_line_comment
read_line_comment-Ensures l v h =
    Ensures-bind (Forward l) (IsNext l) (read_while (budget l) in_line l) _
      (read_while_moves in_line l refl v h)
      (λ e f. sliced l e _ f (λ b. record { ahead = f; at_line = refl; at_column = refl }))

pub read_identifier-Ensures :
    (l : Lexer) → IsValid l → in_name l.ch ≡ true → Ensures (IsNext l) (read_identifier l)
unfolding read_identifier
read_identifier-Ensures l v h =
    Ensures-bind (Forward l) (IsNext l) (read_while (budget l) in_name l) _
      (read_while_moves in_name l refl v h)
      (λ e f. sliced l e _ f (λ b. record { ahead = f; at_line = refl; at_column = refl }))

string_token-IsNext :
    (l : Lexer) (r : Option Bytes × Lexer) → Forward l r.1 → IsNext l (string_token l r)
string_token-IsNext l (none, e) f = record { ahead = f; at_line = refl; at_column = refl }
string_token-IsNext l (some _, e) f = record { ahead = f; at_line = refl; at_column = refl }

pub read_string-Ensures : (l : Lexer) → IsValid l → l.ch ≢ 0 → Ensures (IsNext l) (read_string l)
unfolding read_string
read_string-Ensures l v ne =
    let next = read_char l in
    let f = read_char-Forward l v ne in
    Ensures-bind (λ r. Onward next r.1) (IsNext l) (string_body (budget l) next []) _
      (string_body-Ensures (budget l) next [] f.0 (ground (arith, f.1)))
      (λ r o. string_token-IsNext l r (Forward-Onward l next r.1 f o))

quoted_token-Ensures :
    (bracketed : Bool) (quote : ℕ) (l e : Lexer)
    → Forward l (read_char l)
    → Onward (read_char l) e
    → Ensures (IsNext l) (quoted_token bracketed l (read_char l) e)
unfolding quoted_token
quoted_token-Ensures bracketed quote l e f o =
    let g = Forward-Onward l (read_char l) e f o in
    Ensures-if (IsNext l) (e.ch == 0) _ _
      (λ _. record { ahead = g; at_line = refl; at_column = refl })
      (λ ne.
        let h = read_char-Forward e o.0 (ground (arith, ne)) in
        rw (slice_lem e.input (read_char l).pos e.pos o.2 o.0.1) (record {
          ahead = Forward-Onward l e (read_char e) g (onward e (read_char e) h);
          at_line = refl;
          at_column = refl;
        }))

pub read_quoted-Ensures :
    (bracketed : Bool) (quote : ℕ) (l : Lexer)
    → IsValid l
    → l.ch ≢ 0
    → Ensures (IsNext l) (read_quoted bracketed quote l)
unfolding read_quoted
read_quoted-Ensures bracketed quote l v ne =
    let next = read_char l in
    let f = read_char-Forward l v ne in
    Ensures-bind (λ e. Onward next e × (in_quotes quote e.ch ≡ false)) (IsNext l)
      (read_while (budget l) (in_quotes quote) next) (quoted_token bracketed l next)
      (read_while-Ensures (budget l) (in_quotes quote) next (ground arith) f.0
        (ground (arith, f.1)))
      (λ e o. quoted_token-Ensures bracketed quote l e f o.0)

read_fraction-Ensures : (l : Lexer) → IsValid l → Ensures (Onward l) (read_fraction l)
unfolding read_fraction
read_fraction-Ensures l v =
    let next = read_char l in
    let rest = read_while (budget l) is_digit next in
    Ensures-if (Onward l) (l.ch == b'.' && is_digit (peek_char l)) rest (returned l)
      (λ dot.
        let f = read_char-Forward l v (ground (arith, dot)) in
        Ensures-map (λ e. Onward next e × (is_digit e.ch ≡ false)) (Onward l) rest
          (read_while-Ensures (budget l) is_digit next refl f.0 (ground (arith, f.1)))
          (λ e o. Onward-trans l next e (onward l next f) o.0))
      (λ _. Onward-refl l v)

skip_sign-Onward : (l : Lexer) → IsValid l → Onward l (skip_sign l)
skip_sign-Onward l v = elim (Bool-cases (l.ch == b'+' || l.ch == b'-')) [
  | inl h ↦ rw h (onward l (read_char l) (read_char-Forward l v (ground (arith, h))))
  | inr h ↦ rw h (Onward-refl l v)
]

read_exponent-Ensures : (l : Lexer) → IsValid l → Ensures (Onward l) (read_exponent l)
unfolding read_exponent
read_exponent-Ensures l v =
    let next = skip_sign (read_char l) in
    let rest = read_while (budget l) is_digit next in
    Ensures-if (Onward l) (l.ch == b'e' || l.ch == b'E') rest (returned l)
      (λ e.
        let f = read_char-Forward l v (ground (arith, e)) in
        let o = Forward-Onward l (read_char l) next f (skip_sign-Onward (read_char l) f.0) in
        Ensures-map (λ e. Onward next e × (is_digit e.ch ≡ false)) (Onward l) rest
          (read_while-Ensures (budget l) is_digit next refl o.0 (ground (arith, o.1)))
          (λ e k. Onward-trans l next e (onward l next o) k.0))
      (λ _. Onward-refl l v)

pub read_number-Ensures :
    (l : Lexer) → IsValid l → is_digit l.ch ≡ true → Ensures (IsNext l) (read_number l)
unfolding read_number
read_number-Ensures l v h =
    Ensures-bind (Forward l) (IsNext l) (read_while (budget l) is_digit l) _
      (read_while_moves is_digit l refl v h)
      (λ whole f.
        Ensures-bind (Onward whole) (IsNext l) (read_fraction whole) _
          (read_fraction-Ensures whole f.0)
          (λ part g.
            Ensures-bind (Onward part) (IsNext l) (read_exponent part) _
              (read_exponent-Ensures part g.0)
              (λ e k.
                let o = Forward-Onward l part e (Forward-Onward l whole part f g) k in
                sliced l e _ o (λ b. record { ahead = o; at_line = refl; at_column = refl }))))
