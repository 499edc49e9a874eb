-- ===== src/Lexer/Total.antt =====
-- pkg/lexer/lexer.go: the loops of the lexer end within their budget, and no slice is out of range.
use pizzasql.Prelude.{
  ℕ, zero, suc, ◌+◌, ◌≤◌, Bool, true, false, Option, some, none, [], ◌∷◌, ◌++◌, ◌≡◌, ◌≢◌, refl,
  arith, ◌==◌, if◌then◌else◌, length,
}
use pizzasql.Prelude.Bytes.{Bytes}
use pizzasql.Lexer.State.{returned, ◌>>=◌, Lexer, read_char, peek_char}
use pizzasql.Lexer.Readers.{
  budget, read_while, is_space, ends_comment, block_comment_body, skip_block_comment,
  starts_comment, skip_whitespace, string_body,
}
use pizzasql.Lexer.Moves.{
  Ensures, Ensures-bind, Ensures-map, Ensures-if, IsValid, Onward, Forward, read_char-Forward,
  Onward-refl, Onward-trans, Forward-Onward, Onward-Forward, onward,
}

read_char-ch : (l : Lexer) → (read_char l).ch ≡ peek_char l
unfolding read_char
read_char-ch l = ground arith

-- Two reads, where the second byte is not the end.
pub read_twice :
    (l : Lexer) → IsValid l → l.ch ≢ 0 → peek_char l ≢ 0 → Forward l (read_char (read_char l))
read_twice l v ne ne' =
    let f = read_char-Forward l v ne in
    Forward-Onward l (read_char l) (read_char (read_char l)) f (
      onward (read_char l) (read_char (read_char l))
        (read_char-Forward (read_char l) f.0 (λ h. ne' (rw (← read_char-ch l) h))))

-- The fuel reaches the end of the input.
abbrev pub IsFuel : ℕ → Lexer → Type 0
IsFuel fuel l = length l.input + 1 ≤ fuel + l.pos

pub budget-IsFuel : (l : Lexer) → IsFuel (budget l) l
budget-IsFuel l = omega arith

pub IsFuel-left : (fuel : ℕ) (l l' : Lexer) → Forward l l' → IsFuel (suc fuel) l → IsFuel fuel l'
IsFuel-left fuel l l' f h = ground (arith, f.1, f.2)

pub no_fuel : (l : Lexer) → IsValid l → IsFuel zero l → ⊥
no_fuel l v h = omega (arith, v.1)

pub read_while-Ensures :
    (fuel : ℕ) (p : ℕ → Bool) (l : Lexer)
    → p 0 ≡ false
    → IsValid l
    → IsFuel fuel l
    → Ensures (λ e. Onward l e × (p e.ch ≡ false)) (read_while fuel p l)
unfolding read_while
read_while-Ensures zero p l z v h = no_fuel l v h
read_while-Ensures (suc fuel) p l z v h =
    let next = read_char l in
    Ensures-if (λ e. Onward l e × (p e.ch ≡ false)) (p l.ch) (read_while fuel p next) (returned l)
      (λ on.
        let f = read_char-Forward l v (λ e. cc (z, on, e)) in
        Ensures-map (λ e. Onward next e × (p e.ch ≡ false)) _ (read_while fuel p next)
          (read_while-Ensures fuel p next z f.0 (IsFuel-left fuel l next f h))
          (λ e o. (Onward-trans l next e (onward l next f) o.0, o.1)))
      (λ stop. (Onward-refl l v, stop))

block_comment_body-Ensures :
    (fuel : ℕ) (l : Lexer)
    → IsValid l
    → IsFuel fuel l
    → Ensures (Onward l) (block_comment_body fuel l)
unfolding block_comment_body
block_comment_body-Ensures zero l v h = no_fuel l v h
block_comment_body-Ensures (suc fuel) l v h =
    let next = read_char l in
    let rest = block_comment_body fuel next in
    let found = read_char next in
    Ensures-if (Onward l) (l.ch == 0) (returned l) (if ends_comment l then returned found else rest)
      (λ _. Onward-refl l v)
      (λ ne.
        let f = read_char-Forward l v (ground (arith, ne)) in
        Ensures-if (Onward l) (ends_comment l) (returned found) rest
          (λ end. onward l found (read_twice l v (ground (arith, ne)) (ground (arith, end))))
          (λ _.
            Ensures-map (Onward next) _ rest
              (block_comment_body-Ensures fuel next f.0 (IsFuel-left fuel l next f h))
              (λ e o. Onward-trans l next e (onward l next f) o)))

pub skip_block_comment-Ensures :
    (l : Lexer) → IsValid l → starts_comment l ≡ true → Ensures (Forward l) (skip_block_comment l)
unfolding skip_block_comment
skip_block_comment-Ensures l v s =
    let inside = read_char (read_char l) in
    let f = read_twice l v (ground (arith, s)) (ground (arith, s)) in
    Ensures-map (Onward inside) _ (block_comment_body (budget l) inside)
      (block_comment_body-Ensures (budget l) inside f.0 (ground (arith, f.1)))
      (λ e o. Forward-Onward l inside e f o)

pub skip_whitespace-Ensures :
    (fuel : ℕ) (l : Lexer) → IsValid l → IsFuel fuel l → Ensures (Onward l) (skip_whitespace fuel l)
unfolding skip_whitespace
skip_whitespace-Ensures zero l v h = no_fuel l v h
skip_whitespace-Ensures (suc fuel) l v h =
    Ensures-bind (λ e. Onward l e × (is_space e.ch ≡ false)) (Onward l)
      (read_while (budget l) is_space l) _
      (read_while-Ensures (budget l) is_space l refl v (budget-IsFuel l))
      (λ e o.
        Ensures-if (Onward l) (starts_comment e) (skip_block_comment e >>= skip_whitespace fuel)
          (returned e)
          (λ s.
            Ensures-bind (Forward e) (Onward l) (skip_block_comment e) (skip_whitespace fuel)
              (skip_block_comment-Ensures e o.0.0 s)
              (λ d f.
                let g = Onward-Forward l e d o.0 f in
                Ensures-map (Onward d) _ (skip_whitespace fuel d)
                  (skip_whitespace-Ensures fuel d f.0 (IsFuel-left fuel l d g h))
                  (λ c k. Onward-trans l d c (onward l d g) k)))
          (λ _. o.0))

pub string_body-Ensures :
    (fuel : ℕ) (l : Lexer) (sb : Bytes)
    → IsValid l
    → IsFuel fuel l
    → Ensures (λ r. Onward l r.1) (string_body fuel l sb)
unfolding string_body
string_body-Ensures zero l sb v h = no_fuel l v h
string_body-Ensures (suc fuel) l sb v h =
    let next = read_char l in
    let P = λ (r : Option Bytes × Lexer). Onward l r.1 in
    let plain = string_body fuel next (sb ++ l.ch ∷ []) in
    let after = read_char next in
    let escaped = string_body fuel after (sb ++ b'\'' ∷ []) in
    let closed = returned (some sb, next) in
    let quote = if peek_char l == b'\'' then escaped else closed in
    Ensures-if P (l.ch == 0) (returned (none, l)) (if l.ch == b'\'' then quote else plain)
      (λ _. Onward-refl l v)
      (λ ne.
        let f = read_char-Forward l v (ground (arith, ne)) in
        Ensures-if P (l.ch == b'\'') quote plain
          (λ _.
            Ensures-if P (peek_char l == b'\'') escaped closed
              (λ twice.
                let g = read_twice l v (ground (arith, ne)) (ground (arith, twice)) in
                Ensures-map (λ r. Onward after r.1) P escaped
                  (string_body-Ensures fuel after (sb ++ b'\'' ∷ []) g.0
                    (IsFuel-left fuel l after g h))
                  (λ r o. Onward-trans l after r.1 (onward l after g) o))
              (λ _. onward l next f))
          (λ _.
            Ensures-map (λ r. Onward next r.1) P plain
              (string_body-Ensures fuel next (sb ++ l.ch ∷ []) f.0 (IsFuel-left fuel l next f h))
              (λ r o. Onward-trans l next r.1 (onward l next f) o)))
