-- ===== src/Storage/Session/Runs.antt =====
-- pkg/storage/tx.go: the runs of one transaction from its start, with what other clients write to
-- the store between its steps.
use pizzasql.Prelude.{
  ℕ, Bool, true, false, if◌then◌else◌, Option, none, some, List, [], ◌∷◌, ◌++◌, ◌≡◌,
}
use pizzasql.Prelude.Bytes.{Bytes, bytes_eq, has_prefix}
use pizzasql.Prelude.Map.{Map, lookup, insert}
use pizzasql.Storage.Store.{lsn_of}
use pizzasql.Storage.Store.Versions.{Write}
use pizzasql.Storage.Session.{
  Session, begin, to_lower, data_key, staged, rollback_to, abort, savepoint, rollback_to_savepoint,
  note_read, data_prefix,
}
use pizzasql.Storage.Session.Manager.{
  RowFormat, Manager, key_found, key_not_found, row_unreadable, get_key_with_lsn,
}
use pizzasql.Storage.Session.Reads.{
  scan_start, select_locked, locking_table_is, get_by_pk, insert_prepared, delete_by_pk,
  update_by_pk,
}
use pizzasql.Storage.Session.Keys.{has_colon}

-- What the transaction has last read of the store: a value under the key, or none.
abbrev pub Seen : Type 0
Seen = Map Bytes (Option Bytes)

-- What a savepoint keeps, with what the transaction had read when it was set.
pub record Saved (R : Type 0) : Type 0 where
  pub copy : Session R
  pub before : Seen

-- `seen` is what the transaction has read and not taken back by a rollback to a savepoint.
pub record World (R : Type 0) : Type 0 where
  pub manager : Manager
  pub session : Session R
  pub seen : Seen
  pub savepoints : List (Saved R)

module _ {R : Type 0} (format : RowFormat R) where
  -- What a point read of the row sees: nothing of the store if the row is staged.
  abbrev pub observe : World R → Bytes → Bytes → Seen
  observe w table pk =
      let key = data_key w.manager.database table pk in
      elim (staged w.session.overlay (to_lower table) key) [
        | some _ ↦ w.seen
        | none ↦ elim (get_key_with_lsn format w.manager key) [
          | row_unreadable ↦ w.seen
          | key_found _ _ ↦ insert key (lookup key w.manager.kv.contents) w.seen
          | key_not_found ↦ insert key (lookup key w.manager.kv.contents) w.seen
        ]
      ]

  -- What a scan sees: the pairs of the store that it returns or filters out. A scan that locks its
  -- rows does not count as a read.
  unfoldable pub observe_scan :
      (R → Option Bytes) → Manager → Bytes → Map Bytes Bytes → Session R → Seen → Seen
  observe_scan pk_of m table [] s seen = seen
  observe_scan pk_of m table ((key, value) ∷ pairs) s seen =
      elim (has_prefix key (data_prefix m.database table)) [
        | false ↦ observe_scan pk_of m table pairs s seen
        | true ↦ elim (format.decode value) [
          | none ↦ seen
          | some row ↦ elim (pk_of row) [
            | none ↦ seen
            | some pk ↦ elim (staged s.overlay (to_lower table) (data_key m.database table pk)) [
              | some _ ↦ observe_scan pk_of m table pairs s seen
              | none ↦
                  let locking = locking_table_is s table in
                  let s' = if locking then s else note_read s key (lsn_of m.kv key) in
                  let seen' =
                    if locking then seen else insert key (lookup key m.kv.contents) seen in
                  observe_scan pk_of m table pairs s' seen'
            ]
          ]
        ]
      ]

  -- The operations that write take tables whose names hold no colon.
  pub data TxRun (m : Manager) (s : Session R) : World R → Type 0 where
    begun :
        (t : Session R)
        → begin s ≡ some t
        → TxRun m s (record { manager = m; session = t; seen = []; savepoints = [] })
    others :
        (w : World R) (n : Manager)
        → n.database ≡ w.manager.database
        → Write w.manager.kv n.kv
        → TxRun m s w
        → TxRun m s (record w { manager = n })
    reading :
        (w : World R) (table pk : Bytes)
        → TxRun m s w
        → TxRun m s (record w {
          session = (get_by_pk format true w.manager w.session table pk).0;
          seen = observe w table pk;
        })
    scanning :
        (w : World R) (pk_of : R → Option Bytes) (keep : R → Bool) (table : Bytes) (t : Session R)
        (rows : List R)
        → select_locked format pk_of keep w.manager w.session table ≡ some (t, rows)
        → TxRun m s w
        → TxRun m s (record w {
          session = t;
          seen =
              observe_scan pk_of w.manager table w.manager.kv.contents
                (scan_start w.manager w.session table)
                w.seen;
        })
    inserting :
        (w : World R) (table pk : Bytes) (row : R)
        → has_colon table ≡ false
        → TxRun m s w
        → TxRun m s (record w {
          session =
              (insert_prepared format w.manager w.session table
                (data_key w.manager.database table pk)
                row).0;
          seen = observe w table pk;
        })
    deleting :
        (w : World R) (table pk : Bytes)
        → has_colon table ≡ false
        → TxRun m s w
        → TxRun m s (record w {
          session = (delete_by_pk format w.manager w.session table pk).0;
          seen = observe w table pk;
        })
    updating :
        (w : World R) (change : R → Option R) (table pk : Bytes)
        → has_colon table ≡ false
        → TxRun m s w
        → TxRun m s (record w {
          session = (update_by_pk format change w.manager w.session table pk).0;
          seen = observe w table pk;
        })
    undoing :
        (w : World R) (pos : ℕ)
        → TxRun m s w
        → TxRun m s (record w { session = rollback_to w.session pos })
    -- `GetByPKNoRead`, whose row does not count as read.
    peeking :
        (w : World R) (table pk : Bytes)
        → TxRun m s w
        → TxRun m s (record w { session = (get_by_pk format false w.manager w.session table pk).0 })
    saving :
        (w : World R)
        → TxRun m s w
        → TxRun m s (record w {
          savepoints = record { copy = savepoint w.session; before = w.seen } ∷ w.savepoints;
        })
    -- The reads after the savepoint are dropped, and the savepoint stays installed.
    restoring :
        (w : World R) (front back : List (Saved R)) (sp : Saved R)
        → w.savepoints ≡ front ++ sp ∷ back
        → TxRun m s w
        → TxRun m s
            (record w { session = rollback_to_savepoint w.session sp.copy; seen = sp.before })
    failing : (w : World R) → TxRun m s w → TxRun m s (record w { session = abort w.session })
