-- ===== src/Lexer/Moves.antt =====
-- pkg/lexer/lexer.go: what holds of a lexer between two calls of `readChar`, and what it means that
-- one state of the lexer comes behind another.
use pizzasql.Prelude.{
  ℕ, zero, suc, ◌+◌, ◌-◌, ◌≤◌, ◌<◌, Bool, true, false, [], ◌∷◌, ◌≡◌, ◌≢◌, refl, arith, ◌==◌,
  if◌then◌else◌, length, take, drop,
}
use pizzasql.Prelude.Bytes.{Bytes}
use pizzasql.Lexer.State.{
  Run, returned, panicked, endless, ◌>>=◌, Lexer, char_at, read_char, new_lexer, slice,
}

-- A call returns, and its result has the property.
abbrev pub Ensures {ℓ} : {A : Type ℓ} → (A → Type 0) → Run A → Type 0
Ensures P (returned a) = P a
Ensures P panicked = ⊥
Ensures P endless = ⊥

pub Ensures-bind {ℓ κ} :
    {A : Type ℓ} {B : Type κ} (P : A → Type 0) (Q : B → Type 0) (r : Run A) (f : A → Run B)
    → Ensures P r
    → ((a : A) → P a → Ensures Q (f a))
    → Ensures Q (r >>= f)
Ensures-bind P Q (returned a) f h k = k a h
Ensures-bind P Q panicked f h k = absurd h
Ensures-bind P Q endless f h k = absurd h

pub Ensures-map {ℓ} :
    {A : Type ℓ} (P Q : A → Type 0) (r : Run A) → Ensures P r → ((a : A) → P a → Q a) → Ensures Q r
Ensures-map P Q (returned a) h k = k a h
Ensures-map P Q panicked h k = absurd h
Ensures-map P Q endless h k = absurd h

pub Ensures-if {ℓ} :
    {A : Type ℓ} (P : A → Type 0) (b : Bool) (x y : Run A)
    → (b ≡ true → Ensures P x)
    → (b ≡ false → Ensures P y)
    → Ensures P (if b then x else y)
Ensures-if P true x y h k = h refl
Ensures-if P false x y h k = k refl

-- The line breaks among the first `n` bytes.
abbrev pub newlines : ℕ → Bytes → ℕ
newlines zero s = 0
newlines (suc n) [] = 0
newlines (suc n) (c ∷ s) = (if c == b'\n' then 1 else 0) + newlines n s

-- How many of the first `n` reads come behind the last line break; `k` come before `s`.
abbrev pub columns : ℕ → ℕ → Bytes → ℕ
columns k zero s = k
columns k (suc n) [] = columns (k + 1) n []
columns k (suc n) (c ∷ s) = columns (if c == b'\n' then 0 else k + 1) n s

-- Where the lexer stands, and that `line` and `column` are those of the byte there.
abbrev pub IsValid : Lexer → Type 0
IsValid l =
    (l.read_pos ≡ l.pos + 1)
    × (l.pos ≤ length l.input)
    × (l.ch ≡ char_at l.input l.pos)
    × (l.line ≡ 1 + newlines (suc l.pos) l.input)
    × (l.column ≡ columns 0 (suc l.pos) l.input)

abbrev pub Onward : Lexer → Lexer → Type 0
Onward l l' = IsValid l' × (l'.input ≡ l.input) × (l.pos ≤ l'.pos)

abbrev pub Forward : Lexer → Lexer → Type 0
Forward l l' = IsValid l' × (l'.input ≡ l.input) × (l.pos < l'.pos)

newlines-suc :
    (n : ℕ) (s : Bytes)
    → newlines (suc n) s ≡ newlines n s + (if char_at s n == b'\n' then 1 else 0)
newlines-suc zero [] = ground arith
newlines-suc zero (c ∷ s) = ground arith
newlines-suc (suc n) [] = ground arith
newlines-suc (suc n) (c ∷ s) = ground (arith, newlines-suc n s)

columns-suc :
    (k n : ℕ) (s : Bytes)
    → columns k (suc n) s ≡ (if char_at s n == b'\n' then 0 else columns k n s + 1)
columns-suc k zero [] = ground arith
columns-suc k zero (c ∷ s) = ground arith
columns-suc k (suc n) [] = columns-suc (k + 1) n []
columns-suc k (suc n) (c ∷ s) = columns-suc (if c == b'\n' then 0 else k + 1) n s

pub char_at-lt : (s : Bytes) (i : ℕ) → char_at s i ≢ 0 → i < length s
char_at-lt [] i h = absurd (h refl)
char_at-lt (c ∷ s) zero h = omega arith
char_at-lt (c ∷ s) (suc i) h = omega (arith, char_at-lt s i h)

pub read_char-Forward : (l : Lexer) → IsValid l → l.ch ≢ 0 → Forward l (read_char l)
unfolding read_char
read_char-Forward l v ne = ground (
  arith,
  char_at-lt l.input l.pos,
  newlines-suc (suc l.pos) l.input,
  columns-suc 0 (suc l.pos) l.input,
)

pub Onward-refl : (l : Lexer) → IsValid l → Onward l l
Onward-refl l v = (v, refl, omega arith)

pub Onward-trans : (a b c : Lexer) → Onward a b → Onward b c → Onward a c
Onward-trans a b c f g = (g.0, ground (arith, f.1, g.1), ground (arith, f.2, g.2))

pub Forward-Onward : (a b c : Lexer) → Forward a b → Onward b c → Forward a c
Forward-Onward a b c f g = (g.0, ground (arith, f.1, g.1), ground (arith, f.2, g.2))

pub Onward-Forward : (a b c : Lexer) → Onward a b → Forward b c → Forward a c
Onward-Forward a b c f g = (g.0, ground (arith, f.1, g.1), ground (arith, f.2, g.2))

pub onward : (a b : Lexer) → Forward a b → Onward a b
onward a b f = (f.0, f.1, omega (arith, f.2))

pub slice_lem :
    (s : Bytes) (i j : ℕ) → i ≤ j → j ≤ length s → slice s i j ≡ returned (take (j - i) (drop i s))
unfolding slice
slice_lem s i j h k = ground arith

pub new_lexer-IsValid : (s : Bytes) → IsValid (new_lexer s)
unfolding new_lexer
new_lexer-IsValid s = ground (arith, newlines-suc 0 s, columns-suc 0 0 s)
