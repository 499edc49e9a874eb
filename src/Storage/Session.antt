-- ===== src/Storage/Session.antt =====
-- pkg/storage/tx.go: a session with its buffered transaction, in which no schema change is staged.
-- `R` is the type of the rows, which these operations copy and do not look into.
pub mod Overlay
pub mod Manager
pub mod Reads
pub mod Batch
pub mod Commit
pub mod Keys
pub mod Scans
pub mod Runs
pub mod Steps
pub mod Effects
pub mod Publication
pub mod Validation
pub mod Isolation
pub mod Images
pub mod Outcome
pub mod Interruption
pub mod Failures
mod Tests
use pizzasql.Prelude.{
  ℕ, ◌+◌, ◌-◌, Bool, true, false, not, ◌&&◌, Option, none, some, List, [], ◌∷◌, ◌++◌, ◌==◌, ltb,
  leb, if◌then◌else◌, length,
}
use pizzasql.Prelude.Bytes.{Bytes, bytes, bytes_eq}
use pizzasql.Prelude.Map.{Map, lookup, insert, remove}

-- `strings.ToLower` on ASCII.
abbrev pub to_lower : Bytes → Bytes
to_lower [] = []
to_lower (c ∷ cs) = (if leb b'A' c && leb c b'Z' then c + 32 else c) ∷ to_lower cs

-- pkg/storage/table.go: `dataPrefix` and `dataKey`; `database` is the manager's.
abbrev pub data_prefix : Bytes → Bytes → Bytes
data_prefix database table = database ++ (bytes ":_data:" ++ (to_lower table ++ bytes ":"))

abbrev pub data_key : Bytes → Bytes → Bytes → Bytes
data_key database table pk = database ++ (bytes ":_data:" ++ (to_lower table ++ (bytes ":" ++ pk)))

pub record PredicateRead : Type 0 where
  pub table : Bytes
  pub gen : ℕ

module _ (R : Type 0) where
  pub record OverlayEntry : Type 0 where
    pub row : R
    pub absent : Bool

  abbrev pub Overlay : Type 0
  Overlay = Map Bytes (Map Bytes OverlayEntry)

  pub record TxMutation : Type 0 where
    pub table : Bytes
    pub key : Bytes
    pub prev : Option OverlayEntry

  -- `log` has the newest mutation first.
  pub record Session : Type 0 where
    pub in_tx : Bool
    pub aborted : Bool
    pub auto_locks : Bool
    pub locking_read : Bool
    pub locking_table : Bytes
    pub overlay : Overlay
    pub log : List TxMutation
    pub reads : Map Bytes ℕ
    pub scan_gens : Map Bytes ℕ
    pub predicate_gens : Map Bytes PredicateRead

-- `if _, ok := s.reads[key]; !ok { s.reads[key] = 0 }`
abbrev pub note_key : Map Bytes ℕ → Bytes → Map Bytes ℕ
note_key reads key = elim (lookup key reads) [ some _ ↦ reads | none ↦ insert key 0 reads ]

module _ {R : Type 0} where
  -- `NewSession`, and what `resetLocked` leaves; it also releases the row locks.
  abbrev pub new_session : Session R
  new_session = record {
    in_tx = false;
    aborted = false;
    auto_locks = false;
    locking_read = false;
    locking_table = [];
    overlay = [];
    log = [];
    reads = [];
    scan_gens = [];
    predicate_gens = [];
  }

  -- `Begin`; none if a transaction is open.
  abbrev pub begin : Session R → Option (Session R)
  begin s =
      if s.in_tx
      then none
      else some (record s {
        in_tx = true;
        aborted = false;
        overlay = [];
        log = [];
        reads = [];
        scan_gens = [];
        predicate_gens = [];
      })

  -- `Abort`
  abbrev pub abort : Session R → Session R
  abort s = if s.in_tx then record s { aborted = true } else s

  -- `s.overlay[table]`, where a missing map is as good as an empty one.
  abbrev pub staged_rows : Overlay R → Bytes → Map Bytes (OverlayEntry R)
  staged_rows o table = elim (lookup table o) [ some entries ↦ entries | none ↦ [] ]

  -- `s.overlay[table][key]`
  abbrev pub staged : Overlay R → Bytes → Bytes → Option (OverlayEntry R)
  staged o table key = lookup key (staged_rows o table)

  -- `s.overlay[table][key] = entry`
  abbrev pub set_entry : Overlay R → Bytes → Bytes → OverlayEntry R → Overlay R
  set_entry o table key entry = insert table (insert key entry (staged_rows o table)) o

  -- What `stagePut` and `stageDelete` share.
  unfoldable pub stage : Session R → Bytes → Bytes → OverlayEntry R → Session R
  stage s table key entry =
      let tl = to_lower table in
      record s {
        overlay = set_entry s.overlay tl key entry;
        log = record { table = tl; key = key; prev = staged s.overlay tl key } ∷ s.log;
        reads = note_key s.reads key;
      }

  abbrev pub stage_put : Session R → Bytes → Bytes → R → Session R
  stage_put s table key row = stage s table key (record { row = row; absent = false })

  abbrev pub stage_delete : Session R → Bytes → Bytes → R → Session R
  stage_delete s table key row = stage s table key (record { row = row; absent = true })

  -- The body of the loop of `rollbackToLocked`.
  unfoldable pub undo : TxMutation R → Overlay R → Overlay R
  undo m o = elim m.prev [
    | some prev ↦ set_entry o m.table m.key prev
    | none ↦
        let entries = remove m.key (staged_rows o m.table) in
        if length entries == 0 then remove m.table o else insert m.table entries o
  ]

  -- The loop: the mutations at the positions from `pos` on, the newest first.
  unfoldable pub undo_from : ℕ → List (TxMutation R) → Overlay R → List (TxMutation R) × Overlay R
  unfolding undo
  undo_from pos [] o = ([], o)
  undo_from pos (m ∷ log) o =
      let rest = undo_from pos log (undo m o) in if leb pos (length log) then rest else (m ∷ log, o)

  -- `rollbackToLocked`
  unfoldable pub rollback_log : Session R → ℕ → Session R
  unfolding undo_from
  rollback_log s pos =
      let r = undo_from pos s.log s.overlay in record s { log = r.0; overlay = r.1 }

  -- `Snapshot` and `RollbackTo`
  abbrev pub snapshot : Session R → ℕ
  snapshot s = length s.log

  unfoldable pub rollback_to : Session R → ℕ → Session R
  unfolding rollback_log
  rollback_to s pos = record (rollback_log s pos) { aborted = false }

  -- `s.reads[key] = lsn`
  abbrev pub note_read : Session R → Bytes → ℕ → Session R
  note_read s key lsn = record s { reads = insert key lsn s.reads }

  -- `Savepoint` is a copy of the session's maps; `RollbackToSavepoint` copies them back.
  abbrev pub savepoint : Session R → Session R
  savepoint s = s

  unfoldable pub rollback_to_savepoint : Session R → Session R → Session R
  rollback_to_savepoint s sp = record s {
    overlay = sp.overlay;
    log = sp.log;
    reads = sp.reads;
    scan_gens = sp.scan_gens;
    predicate_gens = sp.predicate_gens;
    aborted = false;
  }
