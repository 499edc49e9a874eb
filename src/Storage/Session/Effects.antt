-- ===== src/Storage/Session/Effects.antt =====
-- pkg/storage/tx.go and pkg/testkv/testkv.go: what the sorted batch of a commit does to every key.
use pizzasql.Prelude.{
  ℕ, true, Option, none, some, List, [], ◌∷◌, ◌≡◌, ◌≢◌, refl, arith, if◌then◌else◌, Bool-cases, inl,
  inr, ◌∙◌,
}
use pizzasql.Prelude.Bytes.{Bytes, bytes_eq, bytes_equal, bytes_equal_iff}
use pizzasql.Prelude.Map.{lookup, lookup-insert, lookup-remove}
use pizzasql.Storage.RowCodec.Names.{bytes_le}
use pizzasql.Storage.Store.{
  Kv, BatchOp, batch_put, batch_delete, CompareCheck, apply_op, apply_ops, checks_hold,
}
use pizzasql.Storage.Session.Batch.{op_key, insert_by, sort_by}

bytes_le_refl : (a : Bytes) → bytes_le a a ≡ true
unfolding bytes_le
bytes_le_refl [] = refl
bytes_le_refl (x ∷ a) = ground (arith, bytes_le_refl a)

-- The last operation of a list on a key.
unfoldable pub last_op : Bytes → List BatchOp → Option BatchOp
last_op key [] = none
last_op key (op ∷ ops) = elim (last_op key ops) [
  | some later ↦ some later
  | none ↦ if bytes_equal (op_key op) key then some op else none
]

-- What an operation leaves under its key.
abbrev pub left_by : BatchOp → Option Bytes
left_by (batch_put _ value) = some value
left_by (batch_delete _) = none

-- What a key has after it.
abbrev pub after_op : Option BatchOp → Option Bytes → Option Bytes
after_op (some op) old = left_by op
after_op none old = old

contents-apply_op :
    (s : Kv) (lsn : ℕ) (op : BatchOp) (key : Bytes)
    → lookup key (apply_op s lsn op).contents
      ≡ (if bytes_equal (op_key op) key then left_by op else lookup key s.contents)
unfolding apply_op
contents-apply_op s lsn (batch_put k v) key = lookup-insert k key v s.contents
contents-apply_op s lsn (batch_delete k) key = lookup-remove k key s.contents

pub contents-apply_ops :
    (s : Kv) (lsn : ℕ) (ops : List BatchOp) (key : Bytes)
    → lookup key (apply_ops s lsn ops).contents ≡ after_op (last_op key ops) (lookup key s.contents)
unfolding apply_ops last_op
contents-apply_ops s lsn [] key = refl
contents-apply_ops s lsn (op ∷ ops) key =
    contents-apply_ops (apply_op s lsn op) lsn ops key
    ∙ ground (arith, contents-apply_op s lsn op key)

-- Sorting keeps the order of the operations on one key.
last_op-insert_by :
    (key : Bytes) (op : BatchOp) (ops : List BatchOp)
    → last_op key (insert_by op_key op ops) ≡ last_op key (op ∷ ops)
unfolding insert_by last_op
last_op-insert_by key op [] = refl
last_op-insert_by key op (q ∷ ops) = elim (Bool-cases (bytes_le (op_key op) (op_key q))) [
  | inl le ↦ rw le refl
  | inr gt ↦
      let apart : op_key op ≢ op_key q = λ e. cc (e, gt, bytes_le_refl (op_key op)) in
      rw gt (
        ground (
          arith,
          last_op-insert_by key op ops,
          bytes_equal_iff (op_key op) key,
          bytes_equal_iff (op_key q) key,
        ))
]

pub last_op-sort_by :
    (key : Bytes) (ops : List BatchOp) → last_op key (sort_by op_key ops) ≡ last_op key ops
unfolding sort_by last_op
last_op-sort_by key [] = refl
last_op-sort_by key (op ∷ ops) =
    last_op-insert_by key op (sort_by op_key ops) ∙ ground (arith, last_op-sort_by key ops)

-- Sorting keeps the compare set.
checks_hold-insert_by :
    (kv : Kv) (c : CompareCheck) (cs : List CompareCheck)
    → checks_hold kv (insert_by (λ (x : CompareCheck). x.key) c cs) ≡ checks_hold kv (c ∷ cs)
unfolding insert_by checks_hold
checks_hold-insert_by kv c [] = refl
checks_hold-insert_by kv c (d ∷ cs) = elim (Bool-cases (bytes_le c.key d.key)) [
  | inl le ↦ rw le refl
  | inr gt ↦ rw gt (ground (arith, checks_hold-insert_by kv c cs))
]

pub checks_hold-sort_by :
    (kv : Kv) (cs : List CompareCheck)
    → checks_hold kv (sort_by (λ (x : CompareCheck). x.key) cs) ≡ checks_hold kv cs
unfolding sort_by checks_hold
checks_hold-sort_by kv [] = refl
checks_hold-sort_by kv (c ∷ cs) =
    checks_hold-insert_by kv c (sort_by (λ (x : CompareCheck). x.key) cs)
    ∙ ground (arith, checks_hold-sort_by kv cs)
