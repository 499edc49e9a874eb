-- ===== src/Storage/Store/Versions.antt =====
-- pkg/testkv/testkv.go: a number that the store gives to a value is never given to another one.
use pizzasql.Prelude.{ℕ, ◌+◌, ◌≤◌, ◌<◌, none, some, List, [], ◌∷◌, ◌≡◌, refl, arith}
use pizzasql.Prelude.Bytes.{Bytes, bytes_eq}
use pizzasql.Prelude.Map.{lookup, lookup-insert, lookup-remove}
use pizzasql.Storage.Store.{
  Kv, new_kv, BatchOp, batch_put, batch_delete, apply_op, apply_ops, batch_write, delete_key,
}

-- The values have numbers, which are positive and were given before.
pub record IsNumbered (s : Kv) : Type 0 where
  pub bounded : (k : Bytes) (n : ℕ) → lookup k s.lsns ≡ some n → (1 ≤ n) × (n ≤ s.next_lsn)
  pub absent : (k : Bytes) → lookup k s.contents ≡ none → lookup k s.lsns ≡ none
  pub present : (k : Bytes) → lookup k s.lsns ≡ none → lookup k s.contents ≡ none

pub new_kv-IsNumbered : IsNumbered new_kv
unfolding lookup
new_kv-IsNumbered = record {
  bounded = λ k n h. absurd (cc h);
  absent = λ k h. refl;
  present = λ k h. refl;
}

-- What a client of the store may do in one step.
pub data Write : Kv → Kv → Type 0 where
  batch : (s : Kv) (ops : List BatchOp) → Write s (batch_write s ops)
  delete : (s : Kv) (key : Bytes) → Write s (delete_key s key)

-- The later store holds, under a number that the earlier one had given, what the earlier one held.
pub record IsLater (s t : Kv) : Type 0 where
  pub grows : s.next_lsn ≤ t.next_lsn
  pub keeps :
      (k : Bytes) (n : ℕ)
      → lookup k t.lsns ≡ some n
      → n ≤ s.next_lsn
      → (lookup k s.lsns ≡ some n) × (lookup k t.contents ≡ lookup k s.contents)

pub IsLater-refl : (s : Kv) → IsLater s s
IsLater-refl s = record { grows = omega arith; keeps = λ k n h le. (h, refl) }

pub IsLater-trans : (s t u : Kv) → IsLater s t → IsLater t u → IsLater s u
IsLater-trans s t u a b = record {
  grows = omega (arith, a.grows, b.grows);
  keeps = λ k n h le.
      let (e, f) = b.keeps k n h (omega (arith, a.grows, le)) in
      let (g, i) = a.keeps k n e le in (g, ground (arith, f, i));
}

-- The operations of a batch under the number `lsn`: the store `t`, as far as it has come from `s`.
record Batch (s : Kv) (lsn : ℕ) (t : Kv) : Type 0 where
  counter : t.next_lsn ≡ lsn
  numbered : IsNumbered t
  old :
      (k : Bytes) (n : ℕ)
      → lookup k t.lsns ≡ some n
      → n < lsn
      → (lookup k s.lsns ≡ some n) × (lookup k t.contents ≡ lookup k s.contents)

apply_op-Batch :
    (s : Kv) (lsn : ℕ) (t : Kv) (op : BatchOp)
    → 1 ≤ lsn
    → Batch s lsn t
    → Batch s lsn (apply_op t lsn op)
unfolding apply_op
apply_op-Batch s lsn t (batch_put key value) p b = record {
  counter = b.counter;
  numbered = record {
    bounded =
        λ k n h. ground (arith, b.counter, lookup-insert key k lsn t.lsns, b.numbered.bounded k n);
    absent = λ k h. ground (
      arith,
      lookup-insert key k lsn t.lsns,
      lookup-insert key k value t.contents,
      b.numbered.absent k,
    );
    present = λ k h. ground (
      arith,
      lookup-insert key k lsn t.lsns,
      lookup-insert key k value t.contents,
      b.numbered.present k,
    );
  };
  old = λ k n h lt.
      ground
        (arith, lookup-insert key k lsn t.lsns, lookup-insert key k value t.contents, b.old k n);
}
apply_op-Batch s lsn t (batch_delete key) p b = record {
  counter = b.counter;
  numbered = record {
    bounded =
        λ k n h. ground (arith, b.counter, lookup-remove key k t.lsns, b.numbered.bounded k n);
    absent = λ k h.
        ground
          (arith, lookup-remove key k t.lsns, lookup-remove key k t.contents, b.numbered.absent k);
    present = λ k h.
        ground
          (arith, lookup-remove key k t.lsns, lookup-remove key k t.contents, b.numbered.present k);
  };
  old = λ k n h lt.
      ground (arith, lookup-remove key k t.lsns, lookup-remove key k t.contents, b.old k n);
}

apply_ops-Batch :
    (s : Kv) (lsn : ℕ) (t : Kv) (ops : List BatchOp)
    → 1 ≤ lsn
    → Batch s lsn t
    → Batch s lsn (apply_ops t lsn ops)
unfolding apply_ops
apply_ops-Batch s lsn t [] p b = b
apply_ops-Batch s lsn t (op ∷ ops) p b =
    apply_ops-Batch s lsn (apply_op t lsn op) ops p (apply_op-Batch s lsn t op p b)

batch_write-Batch :
    (s : Kv) (ops : List BatchOp) → IsNumbered s → Batch s (s.next_lsn + 1) (batch_write s ops)
batch_write-Batch s ops w =
    apply_ops-Batch s (s.next_lsn + 1) (record s { next_lsn = s.next_lsn + 1 }) ops (omega arith)
      (record {
        counter = refl;
        numbered = record {
          bounded = λ k n h. ground (arith, w.bounded k n);
          absent = w.absent;
          present = w.present;
        };
        old = λ k n h lt. (h, refl);
      })

delete_key-IsNumbered : (s : Kv) (key : Bytes) → IsNumbered s → IsNumbered (delete_key s key)
unfolding apply_op
delete_key-IsNumbered s key w = record {
  bounded = λ k n h. ground (arith, lookup-remove key k s.lsns, w.bounded k n);
  absent =
      λ k h. ground (arith, lookup-remove key k s.lsns, lookup-remove key k s.contents, w.absent k);
  present = λ k h.
      ground (arith, lookup-remove key k s.lsns, lookup-remove key k s.contents, w.present k);
}

-- Every step of a client keeps the numbering, and leads to a later store.
pub Write-IsNumbered : (s t : Kv) → Write s t → IsNumbered s → IsNumbered t
Write-IsNumbered _ _ (batch s ops) w = (batch_write-Batch s ops w).numbered
Write-IsNumbered _ _ (delete s key) w = delete_key-IsNumbered s key w

pub Write-IsLater : (s t : Kv) → Write s t → IsNumbered s → IsLater s t
unfolding apply_op
Write-IsLater _ _ (batch s ops) w =
    let b = batch_write-Batch s ops w in
    record { grows = omega (arith, b.counter); keeps = λ k n h le. b.old k n h (omega (arith, le)) }
Write-IsLater _ _ (delete s key) w = record {
  grows = omega arith;
  keeps = λ k n h le. ground (arith, lookup-remove key k s.lsns, lookup-remove key k s.contents);
}
