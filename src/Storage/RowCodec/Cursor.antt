-- ===== src/Storage/RowCodec/Cursor.antt =====
-- A position in the input and the bytes that lie from there on.
use native.Mathlib.Nat.{zero-add}
use pizzasql.Prelude.{
  ℕ, zero, suc, ◌+◌, ◌-◌, [], ◌∷◌, ◌++◌, ◌≡◌, refl, ap, ◌∙◌, sym, arith, length, take, drop,
  length-append, take-length-append, drop-length-append, take-length,
}
use pizzasql.Prelude.Bytes.{Bytes}
use pizzasql.Storage.RowCodec.Slices.{ok, slice, index, slice_in_range}

pub record At (content : Bytes) (at : ℕ) (rest : Bytes) : Type 0 where
  pub dropped : drop at content ≡ rest
  pub total : at + length rest ≡ length content

pub At-start : (content : Bytes) → At content 0 content
At-start content = record { dropped = refl; total = omega arith }

suc-add : (j k : ℕ) → suc j + k ≡ suc (j + k)
suc-add j k = omega arith

drop-nil : (k : ℕ) → drop {A = ℕ} k [] ≡ []
drop-nil zero = refl
drop-nil (suc k) = refl

drop-drop : (m n : ℕ) (xs : Bytes) → drop (m + n) xs ≡ drop n (drop m xs)
drop-drop zero n xs = rw zero-add
drop-drop (suc m) n [] = drop-nil (suc m + n) ∙ sym (drop-nil n)
drop-drop (suc m) n (x ∷ xs) = rw suc-add (drop-drop m n xs)

plus-minus : (m n : ℕ) → m + n - m ≡ n
plus-minus m n = omega arith

module _ {content : Bytes} {at : ℕ} (n : ℕ) (xs ys : Bytes) (a : At content at (xs ++ ys)) where
  -- The next `n` bytes are a slice, and the cursor moves behind them.
  pub At-slice : length xs ≡ n → slice at (at + n) content ≡ ok xs
  At-slice e =
      slice_in_range at (at + n) content (omega arith)
        (omega (arith, a.total, length-append {0} xs ys))
      ∙ rw (plus-minus, a.dropped) (rw (← e) (ap ok (take-length-append xs ys)))

  pub At-move : length xs ≡ n → At content (at + n) ys
  At-move e = record {
    dropped = drop-drop at n content ∙ rw a.dropped (rw (← e) (drop-length-append xs ys));
    total = omega (arith, a.total, length-append {0} xs ys);
  }

index-drop :
    (at : ℕ) (content : Bytes) (b : ℕ) (ys : Bytes)
    → drop at content ≡ b ∷ ys
    → index at content ≡ ok b
unfolding index
index-drop zero [] b ys h = cc
index-drop zero (x ∷ content) b ys h = ground arith
index-drop (suc at) [] b ys h = cc
index-drop (suc at) (x ∷ content) b ys h = index-drop at content b ys h

pub At-index :
    {content : Bytes} {at : ℕ} (b : ℕ) (ys : Bytes)
    → At content at (b ∷ ys)
    → index at content ≡ ok b
At-index {content} {at} b ys a = index-drop at content b ys a.dropped

-- All that is left, as `data[pos:]`.
pub At-rest :
    {content : Bytes} {at : ℕ} (ys : Bytes)
    → At content at ys
    → slice at (length content) content ≡ ok ys
At-rest {content} {at} ys a =
    slice_in_range at (length content) content (omega (arith, a.total)) (omega arith)
    ∙ rw a.dropped (ap (λ (k : ℕ). ok (take k ys)) left ∙ ap ok (take-length ys))
  where
    left : length content - at ≡ length ys
    left = omega (arith, a.total)
