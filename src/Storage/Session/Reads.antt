-- ===== src/Storage/Session/Reads.antt =====
-- pkg/storage/tx.go: the reads of an open transaction, and its point writes, in which no schema
-- change is staged. What the code reads of a table's schema is a parameter.
use pizzasql.Prelude.{
  Bool, true, false, not, ◌&&◌, Option, none, some, List, [], ◌∷◌, ◌++◌, if◌then◌else◌, length,
  drop,
}
use pizzasql.Prelude.Bytes.{Bytes, bytes_eq, bytes_equal, has_prefix}
use pizzasql.Prelude.Map.{Map, lookup, insert}
use pizzasql.Storage.Store.{lsn_of}
use pizzasql.Storage.Session.{
  OverlayEntry, Session, to_lower, data_prefix, data_key, staged, staged_rows, stage_put,
  stage_delete, note_read,
}
use pizzasql.Storage.Session.Manager.{
  RowFormat, Manager, generation, key_found, key_not_found, row_unreadable, get_key_with_lsn,
}

-- What a point read returns: a row, `ErrKeyNotFound`, or another error.
pub data RowRead (R : Type 0) : Type 0 where
  row_found : R → RowRead R
  row_not_found : RowRead R
  read_failed : RowRead R

-- What a point write returns; `duplicate_key` is the violation of the primary key.
pub data WriteOutcome : Type 0 where
  written not_matched duplicate_key write_failed : WriteOutcome

-- `strings.TrimPrefix`
unfoldable pub trim_prefix : Bytes → Bytes → Bytes
trim_prefix s prefix = if has_prefix s prefix then drop (length prefix) s else s

module _ {R : Type 0} where
  -- `if _, ok := s.scanGens[tl]; !ok { s.scanGens[tl] = s.table.generation(tl) }`
  abbrev pub note_scan : Manager → Session R → Bytes → Session R
  note_scan m s table = elim (lookup table s.scan_gens) [
    | some _ ↦ s
    | none ↦ record s { scan_gens = insert table (generation m table) s.scan_gens }
  ]

  -- `lockingTableIs`
  abbrev pub locking_table_is : Session R → Bytes → Bool
  locking_table_is s table =
      s.locking_read && bytes_equal (to_lower table) (to_lower s.locking_table)

  -- What `selectLocked` notes before it scans.
  abbrev pub scan_start : Manager → Session R → Bytes → Session R
  scan_start m s table = if locking_table_is s table then s else note_scan m s (to_lower table)

module _ {R : Type 0} (format : RowFormat R) where
  -- `getByPK` inside a transaction; `getByPKLocked` is the case where the read is recorded.
  unfoldable pub get_by_pk : Bool → Manager → Session R → Bytes → Bytes → Session R × RowRead R
  get_by_pk record_read m s table pk =
      let key = data_key m.database table pk in
      elim (staged s.overlay (to_lower table) key) [
        | some e ↦ (s, if e.absent then row_not_found else row_found e.row)
        | none ↦ elim (get_key_with_lsn format m key) [
          | key_found row lsn ↦ (if record_read then note_read s key lsn else s, row_found row)
          | key_not_found ↦ (if record_read then note_read s key 0 else s, row_not_found)
          | row_unreadable ↦ (s, read_failed)
        ]
      ]

  -- `insertLocked`, once the row is prepared and has its key.
  unfoldable pub insert_prepared :
      Manager → Session R → Bytes → Bytes → R → Session R × WriteOutcome
  insert_prepared m s table key row =
      let pk = trim_prefix key (data_prefix m.database table) in
      let durable = data_key m.database table pk in
      elim (staged s.overlay (to_lower table) key) [
        | some e ↦ if not e.absent then (s, duplicate_key) else (stage_put s table key row, written)
        | none ↦ elim (get_key_with_lsn format m durable) [
          | key_found _ lsn ↦ (note_read s durable lsn, duplicate_key)
          | key_not_found ↦ (stage_put (note_read s durable 0) table key row, written)
          | row_unreadable ↦ (s, write_failed)
        ]
      ]

  -- `deleteByPKLocked` behind its read.
  unfoldable pub delete_read :
      Manager → Bytes → Bytes → Session R × RowRead R → Session R × WriteOutcome
  delete_read m table pk (s, row_found row) =
      (stage_delete s table (data_key m.database table pk) row, written)
  delete_read m table pk (s, row_not_found) = (s, not_matched)
  delete_read m table pk (s, read_failed) = (s, write_failed)

  -- `deleteByPKLocked` for a table that no constraint refers to.
  unfoldable pub delete_by_pk : Manager → Session R → Bytes → Bytes → Session R × WriteOutcome
  unfolding delete_read get_by_pk
  delete_by_pk m s table pk = delete_read m table pk (get_by_pk true m s table pk)

  -- `updateByPKLocked` behind its read.
  unfoldable pub update_read :
      (R → Option R) → Manager → Bytes → Bytes → Session R × RowRead R → Session R × WriteOutcome
  update_read change m table pk (s, row_found row) = elim (change row) [
    | some row' ↦ (stage_put s table (data_key m.database table pk) row', written)
    | none ↦ (s, write_failed)
  ]
  update_read change m table pk (s, row_not_found) = (s, not_matched)
  update_read change m table pk (s, read_failed) = (s, write_failed)

  -- `updateByPKLocked` where the new row has the key of the old one and no constraint refers to
  -- the table: `change` is the callback, the assignments and the validation of the row.
  unfoldable pub update_by_pk :
      (R → Option R) → Manager → Session R → Bytes → Bytes → Session R × WriteOutcome
  unfolding update_read get_by_pk
  update_by_pk change m s table pk = update_read change m table pk (get_by_pk true m s table pk)

  -- The callback of the scan in `selectLocked`, over the pairs of the store that are left; `pk_of`
  -- is the schema's `PrimaryKeyForRow`. `none` is an error.
  unfoldable pub scan_durable :
      (R → Option Bytes)
      → (R → Bool)
      → Manager
      → Bytes
      → Map Bytes Bytes
      → Session R
      → Option (Session R × List R)
  scan_durable pk_of keep m table [] s = some (s, [])
  scan_durable pk_of keep m table ((key, value) ∷ pairs) s =
      elim (has_prefix key (data_prefix m.database table)) [
        | false ↦ scan_durable pk_of keep m table pairs s
        | true ↦ elim (format.decode value) [
          | none ↦ none
          | some row ↦ elim (pk_of row) [
            | none ↦ none
            | some pk ↦ elim (staged s.overlay (to_lower table) (data_key m.database table pk)) [
              | some _ ↦ scan_durable pk_of keep m table pairs s
              | none ↦
                  let s' =
                    if locking_table_is s table then s else note_read s key (lsn_of m.kv key) in
                  elim (scan_durable pk_of keep m table pairs s') [
                    | none ↦ none
                    | some (t, rows) ↦ some (t, if keep row then row ∷ rows else rows)
                  ]
            ]
          ]
        ]
      ]

  -- The loop over the overlay at the end of `selectLocked`.
  unfoldable pub scan_staged : (R → Bool) → Map Bytes (OverlayEntry R) → List R
  scan_staged keep [] = []
  scan_staged keep ((_, e) ∷ entries) =
      let rest = scan_staged keep entries in
      if e.absent then rest else if keep e.row then e.row ∷ rest else rest

  -- `selectLocked`
  unfoldable pub select_locked :
      (R → Option Bytes) → (R → Bool) → Manager → Session R → Bytes → Option (Session R × List R)
  unfolding scan_durable scan_staged
  select_locked pk_of keep m s table =
      let s' = scan_start m s table in
      elim (scan_durable pk_of keep m table m.kv.contents s') [
        | none ↦ none
        | some (t, rows) ↦
            some (t, rows ++ scan_staged keep (staged_rows s.overlay (to_lower table)))
      ]
