-- ===== src/Storage/Session/Batch.antt =====
-- pkg/storage/tx.go: the compare set and the batch of a commit, and their limits.
use pizzasql.Prelude.{ℕ, ◌+◌, ◌*◌, Option, none, some, List, [], ◌∷◌, ◌++◌, if◌then◌else◌, length}
use pizzasql.Prelude.Bytes.{Bytes}
use pizzasql.Prelude.Map.{Map}
use pizzasql.Storage.RowCodec.Names.{bytes_le}
use pizzasql.Storage.Store.{BatchOp, batch_put, batch_delete, CompareCheck}
use pizzasql.Storage.Session.{OverlayEntry, Overlay}
use pizzasql.Storage.Session.Manager.{RowFormat}

-- `maxTransactionSize` and `maxOperations`
abbrev pub max_transaction_size : ℕ
max_transaction_size = 64 * 1024 * 1024

abbrev pub max_operations : ℕ
max_operations = 65535

abbrev pub op_key : BatchOp → Bytes
op_key (batch_put key _) = key
op_key (batch_delete key) = key

-- `batchOpBytes`; a delete has no value.
abbrev pub batch_op_bytes : BatchOp → ℕ
batch_op_bytes (batch_put key value) = 12 + length key + length value
batch_op_bytes (batch_delete key) = 12 + length key

abbrev pub batch_bytes : List BatchOp → ℕ
batch_bytes [] = 0
batch_bytes (op ∷ ops) = batch_op_bytes op + batch_bytes ops

-- `sort.Slice` by the key.
module _ {A : Type 0} (key : A → Bytes) where
  unfoldable pub insert_by : A → List A → List A
  unfolding bytes_le
  insert_by x [] = x ∷ []
  insert_by x (y ∷ ys) =
      let rest = insert_by x ys in if bytes_le (key x) (key y) then x ∷ y ∷ ys else y ∷ rest

  unfoldable pub sort_by : List A → List A
  unfolding insert_by
  sort_by [] = []
  sort_by (x ∷ xs) = insert_by x (sort_by xs)

-- The loop over `s.reads`.
abbrev pub read_checks : Map Bytes ℕ → List CompareCheck
read_checks [] = []
read_checks ((key, lsn) ∷ reads) = record { key = key; lsn = lsn } ∷ read_checks reads

module _ {R : Type 0} where
  -- `writeKeys`
  abbrev pub entry_keys : Map Bytes (OverlayEntry R) → List Bytes
  entry_keys [] = []
  entry_keys ((key, _) ∷ entries) = key ∷ entry_keys entries

  abbrev pub write_keys : Overlay R → List Bytes
  write_keys [] = []
  write_keys ((_, entries) ∷ o) = entry_keys entries ++ write_keys o

  -- The two loops over the overlay; `none` is an error of `encodeRow`.
  unfoldable pub entry_ops : RowFormat R → Map Bytes (OverlayEntry R) → Option (List BatchOp)
  entry_ops format [] = some []
  entry_ops format ((key, e) ∷ entries) = elim (entry_ops format entries) [
    | none ↦ none
    | some ops ↦ if e.absent then some (batch_delete key ∷ ops) else (elim (format.encode e.row) [
      | none ↦ none
      | some value ↦ some (batch_put key value ∷ ops)
    ])
  ]

  unfoldable pub overlay_ops : RowFormat R → Overlay R → Option (List BatchOp)
  unfolding entry_ops
  overlay_ops format [] = some []
  overlay_ops format ((_, entries) ∷ o) = elim (entry_ops format entries) [
    | none ↦ none
    | some ops ↦ elim (overlay_ops format o) [ none ↦ none | some more ↦ some (ops ++ more) ]
  ]
