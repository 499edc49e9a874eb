-- ===== src/Storage/Store.antt =====
-- pkg/testkv/testkv.go: the key-value store that the server of the tests keeps, by its operations. A
-- session of pkg/storage reads and writes a store of this kind over a connection.
pub mod Versions
use pizzasql.Prelude.{
  ℕ, ◌+◌, Bool, true, false, not, ◌&&◌, Option, none, some, List, [], ◌∷◌, ◌==◌, if◌then◌else◌,
}
use pizzasql.Prelude.Bytes.{Bytes, bytes_eq}
use pizzasql.Prelude.Map.{Map, lookup, insert, remove}

-- `nextLSN` has no wrap-around at 64 bits here.
pub record Kv : Type 0 where
  pub contents : Map Bytes Bytes
  pub lsns : Map Bytes ℕ
  pub next_lsn : ℕ

abbrev pub new_kv : Kv
new_kv = record { contents = []; lsns = []; next_lsn = 0 }

-- `storage.BatchOp`, by its opcode, and `storage.CompareCheck`.
pub data BatchOp : Type 0 where
  batch_put : Bytes → Bytes → BatchOp
  batch_delete : Bytes → BatchOp

pub record CompareCheck : Type 0 where
  pub key : Bytes
  pub lsn : ℕ

-- `s.lsns[key]`, which is 0 on a missing key.
abbrev pub lsn_of : Kv → Bytes → ℕ
lsn_of s key = elim (lookup key s.lsns) [ some n ↦ n | none ↦ 0 ]

-- `opGet`: the value and its number, or no value.
abbrev pub get : Kv → Bytes → Option (Bytes × ℕ)
get s key = elim (lookup key s.contents) [ some v ↦ some (v, lsn_of s key) | none ↦ none ]

-- One operation of `applyOps`.
unfoldable pub apply_op : Kv → ℕ → BatchOp → Kv
apply_op s lsn (batch_put key value) = record s {
  contents = insert key value s.contents;
  lsns = insert key lsn s.lsns;
}
apply_op s lsn (batch_delete key) = record s {
  contents = remove key s.contents;
  lsns = remove key s.lsns;
}

unfoldable pub apply_ops : Kv → ℕ → List BatchOp → Kv
unfolding apply_op
apply_ops s lsn [] = s
apply_ops s lsn (op ∷ ops) = apply_ops (apply_op s lsn op) lsn ops

-- `s.nextLSN++` and `applyOps`, as in `opPut` and `opBatchWrite`.
abbrev pub batch_write : Kv → List BatchOp → Kv
batch_write s ops = apply_ops (record s { next_lsn = s.next_lsn + 1 }) (s.next_lsn + 1) ops

-- `opDelete`
abbrev pub delete_key : Kv → Bytes → Kv
delete_key s key = apply_op s 0 (batch_delete key)

-- A check of `opCompareBatch`.
abbrev pub check_holds : Kv → CompareCheck → Bool
check_holds s c =
    if c.lsn == 0
    then (elim (lookup c.key s.contents) [ some _ ↦ false | none ↦ true ])
    else lsn_of s c.key == c.lsn

unfoldable pub checks_hold : Kv → List CompareCheck → Bool
checks_hold s [] = true
checks_hold s (c ∷ checks) = check_holds s c && checks_hold s checks

-- `opCompareBatch`: the store, whether it committed, and the number of the batch.
unfoldable pub compare_batch : Kv → List CompareCheck → List BatchOp → Kv × Bool × ℕ
unfolding checks_hold apply_ops
compare_batch s checks ops =
    if checks_hold s checks then (batch_write s ops, true, s.next_lsn + 1) else (s, false, 0)
