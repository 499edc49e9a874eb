-- ===== src/Storage/Session/Commit.antt =====
-- pkg/storage/tx.go: `CommitWithLSN` and `Rollback`, in a transaction that stages no schema change.
use pizzasql.Prelude.{
  ℕ, Bool, true, false, not, ◌&&◌, Option, none, some, List, [], ◌∷◌, ◌==◌, ltb, if◌then◌else◌,
  length,
}
use pizzasql.Prelude.Bytes.{Bytes, bytes_eq}
use pizzasql.Prelude.Map.{Map}
use pizzasql.Storage.RowLock as Locks
use pizzasql.Storage.RowLock.Writes.{begin_write, end_write, begun, write_refused}
use pizzasql.Storage.Store.{BatchOp, CompareCheck, compare_batch}
use pizzasql.Storage.Session.{OverlayEntry, Overlay, PredicateRead, Session, new_session}
use pizzasql.Storage.Session.Manager.{
  RowFormat, Manager, generation, predicate_generation, bump_generation,
  bump_index_predicate_wildcard,
}
use pizzasql.Storage.Session.Reads.{note_scan}
use pizzasql.Storage.Session.Batch.{
  max_transaction_size, max_operations, op_key, batch_bytes, sort_by, read_checks, write_keys,
  overlay_ops,
}

pub data CommitError : Type 0 where
  no_transaction transaction_aborted serialization_failure : CommitError
  constraint_failed encode_failed : CommitError
  too_many_operations too_many_bytes transport_failed : CommitError

pub data CommitResult : Type 0 where
  committed : ℕ → CommitResult
  commit_failed : CommitError → CommitResult

-- What becomes of the request of `CompareBatchWrite`: the answer arrives, or it is lost after the
-- store has served the request, or the request is lost.
pub data Delivery : Type 0 where
  answered answer_lost request_lost : Delivery

-- What the schema asks of a commit. `closure` is `foreignKeyClosure`, with the errors of
-- `acquireCommitLocks`; `final_row` is what
-- `applyOverlaySchemaDefaults` does to one row of a table; `holds` stands for the foreign keys and
-- the UNIQUE indexes, which are checked on the final overlay. `none` and `false` are errors.
pub record Constraints (R : Type 0) : Type 0 where
  pub closure : Session R → Option (List Bytes)
  pub final_row : Bytes → R → Option R
  pub holds : Manager → Overlay R → Bool

-- `for t, gen := range s.scanGens { … }`
unfoldable pub scans_valid : Manager → Map Bytes ℕ → Bool
scans_valid m [] = true
scans_valid m ((table, gen) ∷ scans) = generation m table == gen && scans_valid m scans

unfoldable pub predicates_valid : Manager → Map Bytes PredicateRead → Bool
predicates_valid m [] = true
predicates_valid m ((key, p) ∷ predicates) =
    predicate_generation m key == p.gen && predicates_valid m predicates

-- `resetLocked`, and the release of the gate if the commit holds it.
abbrev pub leave : Manager → Locks.Session → Bool → Manager
leave m me gate =
    let l = Locks.release_all m.row_locks me in
    record m { row_locks = if gate then end_write l else l }

module _ {R : Type 0} where
  -- `applyOverlaySchemaDefaults`
  unfoldable pub final_entries :
      Constraints R → Bytes → Map Bytes (OverlayEntry R) → Option (Map Bytes (OverlayEntry R))
  final_entries c table [] = some []
  final_entries c table ((key, e) ∷ entries) = elim (final_entries c table entries) [
    | none ↦ none
    | some rest ↦ if e.absent then some ((key, e) ∷ rest) else (elim (c.final_row table e.row) [
      | none ↦ none
      | some row ↦ some ((key, record { row = row; absent = false }) ∷ rest)
    ])
  ]

  unfoldable pub final_overlay : Constraints R → Overlay R → Option (Overlay R)
  unfolding final_entries
  final_overlay c [] = some []
  final_overlay c ((table, entries) ∷ o) = elim (final_entries c table entries) [
    | none ↦ none
    | some es ↦ elim (final_overlay c o) [ none ↦ none | some p ↦ some ((table, es) ∷ p) ]
  ]

  -- `for table := range closure { … }`
  unfoldable pub note_scans : Manager → Session R → List Bytes → Session R
  note_scans m s [] = s
  note_scans m s (table ∷ tables) = note_scans m (note_scan m s table) tables

  -- What the loop after success does to the counters, and so the loop after failure, whose
  -- `invalidateWriteFailure` also drops the caches.
  unfoldable pub bump_tables : Manager → Overlay R → Manager
  bump_tables m [] = m
  bump_tables m ((table, _) ∷ o) =
      bump_tables (bump_generation (bump_index_predicate_wildcard m table) table) o

  abbrev pub fail_commit :
      Manager → Locks.Session → CommitError → Manager × Session R × CommitResult
  fail_commit m me e = (leave m me true, new_session, commit_failed e)

  -- From the request on.
  unfoldable pub send_batch :
      Delivery
      → Manager
      → Locks.Session
      → Overlay R
      → List CompareCheck
      → List BatchOp
      → Manager × Session R × CommitResult
  unfolding bump_tables
  send_batch delivery m me o checks ops =
      let (kv, ok, lsn) = compare_batch m.kv checks ops in
      let m' = record m { kv = kv } in
      elim delivery [
        | request_lost ↦ fail_commit (bump_tables m o) me transport_failed
        | answer_lost ↦ fail_commit (bump_tables m' o) me transport_failed
        | answered ↦
            if ok
            then (leave (bump_tables m' o) me true, new_session, committed lsn)
            else fail_commit (bump_tables m' o) me serialization_failure
      ]

  -- With the final overlay, from the validation of the scans on.
  unfoldable pub commit_final :
      RowFormat R
      → Constraints R
      → Delivery
      → Manager
      → Locks.Session
      → Session R
      → Overlay R
      → Manager × Session R × CommitResult
  unfolding scans_valid predicates_valid send_batch
  commit_final format c delivery m me s o =
      if not (scans_valid m s.scan_gens)
      then fail_commit m me serialization_failure
      else if not (predicates_valid m s.predicate_gens)
      then fail_commit m me serialization_failure
      else if not (c.holds m o)
      then fail_commit m me constraint_failed
      else (elim (overlay_ops format o) [
        | none ↦ fail_commit m me encode_failed
        | some unsorted ↦
            let checks = sort_by (λ (x : CompareCheck). x.key) (read_checks s.reads) in
            let ops = sort_by op_key unsorted in
            if length ops == 0
            then (leave m me true, new_session, committed 0)
            else if ltb max_operations (length ops)
            then fail_commit m me too_many_operations
            else if ltb max_transaction_size (batch_bytes ops)
            then fail_commit m me too_many_bytes
            else send_batch delivery m me o checks ops
      ])

  -- `CommitWithLSN`. The table gates keep every other commit that concerns the tables away until
  -- it is over, so that the commit is one step.
  unfoldable pub commit :
      RowFormat R
      → Constraints R
      → Delivery
      → Manager
      → Locks.Session
      → Session R
      → Manager × Session R × CommitResult
  unfolding note_scans final_overlay commit_final
  commit format c delivery m me s =
      if not s.in_tx
      then (m, s, commit_failed no_transaction)
      else if s.aborted
      then (leave m me false, new_session, commit_failed transaction_aborted)
      else (elim (begin_write m.row_locks me (write_keys s.overlay) []) [
        | write_refused _ ↦ (leave m me false, new_session, commit_failed serialization_failure)
        | begun l ↦
            let held = record m { row_locks = l } in
            elim (c.closure s) [
              | none ↦ fail_commit held me constraint_failed
              | some tables ↦ elim (final_overlay c s.overlay) [
                | none ↦ fail_commit held me constraint_failed
                | some o ↦ commit_final format c delivery held me (note_scans held s tables) o
              ]
            ]
      ])

  -- `Rollback`; none if no transaction is open.
  abbrev pub rollback : Manager → Locks.Session → Session R → Option (Manager × Session R)
  rollback m me s = if not s.in_tx then none else some (leave m me false, new_session)
