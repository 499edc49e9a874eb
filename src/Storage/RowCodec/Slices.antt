-- ===== src/Storage/RowCodec/Slices.antt =====
-- What a Go function on slices does: it returns a value or an error, or it panics.
use pizzasql.Prelude.{
  ℕ, zero, suc, ◌-◌, ◌≤◌, ◌<◌, Bool, true, false, ◌&&◌, Option, none, some, [], ◌∷◌, ◌≡◌, ◌≢◌, refl,
  arith, leb, if◌then◌else◌, length, get_elem?, take, drop, length-drop, length-take,
}
use pizzasql.Prelude.Bytes.{Bytes}

pub data RowError : Type 0 where
  malformed json_error too_many_fields name_too_long : RowError
  unsupported_version unknown_tag : ℕ → RowError

pub data Outcome {ℓ} (A : Type ℓ) : Type ℓ where
  ok : A → Outcome A
  fail : RowError → Outcome A
  panic : Outcome A

infixl 5 ◌>>=◌ ◌>>◌
abbrev pub ◌>>=◌ {ℓ κ} : {A : Type ℓ} {B : Type κ} → Outcome A → (A → Outcome B) → Outcome B
ok a >>= f = f a
fail e >>= f = fail e
panic >>= f = panic

abbrev pub ◌>>◌ {ℓ} : {B : Type ℓ} → Outcome (Unit {0}) → Outcome B → Outcome B
m >> k = m >>= λ _. k

-- `if test { return err }`
abbrev pub reject_if : Bool → RowError → Outcome (Unit {0})
reject_if true e = fail e
reject_if false e = ok tt

-- `data[lo:hi]`, which panics out of range.
unfoldable pub slice : ℕ → ℕ → Bytes → Outcome Bytes
slice lo hi content =
    if leb lo hi && leb hi (length content) then ok (take (hi - lo) (drop lo content)) else panic

abbrev some_or_panic : Option ℕ → Outcome ℕ
some_or_panic none = panic
some_or_panic (some b) = ok b

-- `data[i]`
unfoldable pub index : ℕ → Bytes → Outcome ℕ
index i content = some_or_panic (get_elem? content i)

pub slice_in_range :
    (lo hi : ℕ) (content : Bytes)
    → lo ≤ hi
    → hi ≤ length content
    → slice lo hi content ≡ ok (take (hi - lo) (drop lo content))
unfolding slice
slice_in_range lo hi content h k = ground arith

-- The outcome is a value with `P`, or an error: there is no panic.
abbrev pub Ensures : {A : Type 0} → (A → Type 0) → Outcome A → Type 0
Ensures P (ok a) = P a
Ensures P (fail _) = Unit
Ensures P panic = ⊥

pub Ensures-bind :
    {A B : Type 0} (P : A → Type 0) (Q : B → Type 0) (m : Outcome A) (f : A → Outcome B)
    → Ensures P m
    → ((a : A) → P a → Ensures Q (f a))
    → Ensures Q (m >>= f)
Ensures-bind P Q (ok a) f h k = k a h
Ensures-bind P Q (fail e) f h k = tt
Ensures-bind P Q panic f h k = absurd h

pub Ensures-reject_if :
    {B : Type 0} (Q : B → Type 0) (b : Bool) (e : RowError) (m : Outcome B)
    → (b ≡ false → Ensures Q m)
    → Ensures Q (reject_if b e >> m)
Ensures-reject_if Q true e m h = tt
Ensures-reject_if Q false e m h = h refl

pub Ensures-ne-panic : {A : Type 0} (P : A → Type 0) (m : Outcome A) → Ensures P m → m ≢ panic
Ensures-ne-panic P (ok a) h e = cc
Ensures-ne-panic P (fail x) h e = cc
Ensures-ne-panic P panic h e = h

pub Ensures-slice :
    (lo hi : ℕ) (content : Bytes)
    → lo ≤ hi
    → hi ≤ length content
    → Ensures (λ s. length s ≡ hi - lo) (slice lo hi content)
Ensures-slice lo hi content h k =
    rw (slice_in_range lo hi content h k)
      (length-take (hi - lo) (drop lo content) (omega (arith, length-drop {0} lo content)))

pub Ensures-index :
    (i : ℕ) (content : Bytes) → i < length content → Ensures (λ _. Unit {0}) (index i content)
unfolding index
Ensures-index i [] h = absurd (omega arith)
Ensures-index zero (b ∷ content) h = tt
Ensures-index (suc i) (b ∷ content) h = Ensures-index i content (omega arith)
