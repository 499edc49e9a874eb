-- ===== src/Storage/Session/Publication.antt =====
-- pkg/storage/tx.go: a commit that succeeds, and the rows that the store holds after it.
use pizzasql.Prelude.{
  ℕ, ◌+◌, ◌<◌, true, false, some, List, [], ◌∷◌, ◌≡◌, refl, ◌∙◌, arith, Bool-cases, Option-cases,
  inl, inr,
}
use pizzasql.Prelude.Bytes.{Bytes, bytes_eq}
use pizzasql.Storage.RowLock as Locks
use pizzasql.Storage.RowLock.{RowLockManager}
use pizzasql.Storage.RowLock.Writes.{WriteResult, begin_write, begun, write_refused}
use pizzasql.Storage.Store.{BatchOp, CompareCheck, batch_write, checks_hold, compare_batch}
use pizzasql.Storage.Session.{Overlay, Session, new_session}
use pizzasql.Storage.Session.Manager.{
  RowFormat, Manager, bump_generation, bump_index_predicate_wildcard,
}
use pizzasql.Storage.Session.Reads.{note_scan}
use pizzasql.Storage.Session.Batch.{op_key, sort_by, read_checks, write_keys, overlay_ops}
use pizzasql.Storage.Session.Commit.{
  committed, Delivery, answered, answer_lost, request_lost, Constraints, final_overlay, note_scans,
  bump_tables, send_batch, commit_final, commit,
}

module _ {R : Type 0} where
  pub bump_tables-kv : (m : Manager) (o : Overlay R) → (bump_tables m o).kv ≡ m.kv
  unfolding bump_tables
  bump_tables-kv m [] = refl
  bump_tables-kv m ((t, _) ∷ o) =
      bump_tables-kv (bump_generation (bump_index_predicate_wildcard m t) t) o

  note_scan-reads : (m : Manager) (s : Session R) (t : Bytes) → (note_scan m s t).reads ≡ s.reads
  note_scan-reads m s t = ground arith

  note_scans-reads :
      (m : Manager) (s : Session R) (ts : List Bytes) → (note_scans m s ts).reads ≡ s.reads
  unfolding note_scans
  note_scans-reads m s [] = refl
  note_scans-reads m s (t ∷ ts) = note_scans-reads m (note_scan m s t) ts ∙ note_scan-reads m s t

  send_batch-committed :
      (delivery : Delivery) (m m' : Manager) (me : Locks.Session) (o : Overlay R)
      (checks : List CompareCheck) (ops : List BatchOp) (s' : Session R) (n : ℕ)
      → send_batch delivery m me o checks ops ≡ (m', s', committed n)
      → (checks_hold m.kv checks ≡ true)
        × (m'.kv ≡ batch_write m.kv ops)
        × (n ≡ m.kv.next_lsn + 1)
        × (s' ≡ new_session)
  unfolding send_batch compare_batch
  send_batch-committed answered m m' me o checks ops s' n h =
      ground (arith, bump_tables-kv (record m { kv = batch_write m.kv ops }) o)
  send_batch-committed answer_lost m m' me o checks ops s' n h = absurd (ground arith)
  send_batch-committed request_lost m m' me o checks ops s' n h = absurd (ground arith)

  -- What a successful commit that wrote something has done. `held` is the manager at the gate.
  pub record IsPublished (format : RowFormat R) (c : Constraints R) (m m' : Manager) (s : Session R)
      (n : ℕ) : Type 0 where
    pub final : Overlay R
    pub ops : List BatchOp
    pub overlay : final_overlay c s.overlay ≡ some final
    pub encoded : overlay_ops format final ≡ some ops
    pub checked :
        checks_hold m.kv (sort_by (λ (x : CompareCheck). x.key) (read_checks s.reads)) ≡ true
    pub stored : m'.kv ≡ batch_write m.kv (sort_by op_key ops)
    pub lsn : n ≡ m.kv.next_lsn + 1

  commit_final-committed :
      (format : RowFormat R) (c : Constraints R) (delivery : Delivery) (m m' : Manager)
      (me : Locks.Session) (s s' : Session R) (o : Overlay R) (n : ℕ)
      → 0 < n
      → commit_final format c delivery m me s o ≡ (m', s', committed n)
      → (ops : List BatchOp) × (overlay_ops format o ≡ some ops)
        × (checks_hold m.kv (sort_by (λ (x : CompareCheck). x.key) (read_checks s.reads)) ≡ true)
        × (m'.kv ≡ batch_write m.kv (sort_by op_key ops))
        × (n ≡ m.kv.next_lsn + 1)
        × (s' ≡ new_session)
  unfolding commit_final
  commit_final-committed format c delivery m m' me s s' o n pos h =
      elim (Option-cases (overlay_ops format o)) [
        | inl (ops, e) ↦
            let checks = sort_by (λ (x : CompareCheck). x.key) (read_checks s.reads) in
            let sorted = sort_by op_key ops in
            (
              ops,
              e,
              ground (arith, e, send_batch-committed delivery m m' me o checks sorted s' n),
              ground (arith, e, send_batch-committed delivery m m' me o checks sorted s' n),
              ground (arith, e, send_batch-committed delivery m m' me o checks sorted s' n),
              ground (arith, e, send_batch-committed delivery m m' me o checks sorted s' n),
            )
        | inr e ↦ absurd (ground (arith, e))
      ]

  -- From the gate on.
  commit-begun :
      (format : RowFormat R) (c : Constraints R) (delivery : Delivery) (m m' : Manager)
      (me : Locks.Session) (s s' : Session R) (n : ℕ) (l : RowLockManager)
      → s.in_tx ≡ true
      → s.aborted ≡ false
      → begin_write m.row_locks me (write_keys s.overlay) [] ≡ begun l
      → 0 < n
      → commit format c delivery m me s ≡ (m', s', committed n)
      → IsPublished format c m m' s n × (s' ≡ new_session)
  unfolding commit
  commit-begun format c delivery m m' me s s' n l running fine b pos h =
      elim (Option-cases (c.closure s)) [
        | inr e ↦ absurd (ground (arith, b, e, running, fine))
        | inl (tables, e) ↦ elim (Option-cases (final_overlay c s.overlay)) [
          | inr f ↦ absurd (ground (arith, b, e, f, running, fine))
          | inl (o, f) ↦
              let held = record m { row_locks = l } in
              let t = note_scans held s tables in
              let run : commit_final format c delivery held me t o ≡ (m', s', committed n) =
                ground (arith, b, e, f, running, fine) in
              let (ops, enc, ch, st, num, new) =
                commit_final-committed format c delivery held m' me t s' o n pos run in
              (
                record {
                  final = o;
                  ops = ops;
                  overlay = f;
                  encoded = enc;
                  checked = rw note_scans-reads at ch;
                  stored = st;
                  lsn = num;
                },
                new,
              )
        ]
      ]

  commit_at_gate :
      (format : RowFormat R) (c : Constraints R) (delivery : Delivery) (m m' : Manager)
      (me : Locks.Session) (s s' : Session R) (n : ℕ)
      → s.in_tx ≡ true
      → s.aborted ≡ false
      → 0 < n
      → commit format c delivery m me s ≡ (m', s', committed n)
      → (w : WriteResult) → begin_write m.row_locks me (write_keys s.overlay) [] ≡ w
      → IsPublished format c m m' s n × (s' ≡ new_session)
  unfolding commit
  commit_at_gate format c delivery m m' me s s' n running fine pos h (begun l) b =
      commit-begun format c delivery m m' me s s' n l running fine b pos h
  commit_at_gate format c delivery m m' me s s' n running fine pos h (write_refused e) b =
      absurd (ground (arith, b, running, fine))

  pub commit-committed :
      (format : RowFormat R) (c : Constraints R) (delivery : Delivery) (m m' : Manager)
      (me : Locks.Session) (s s' : Session R) (n : ℕ)
      → 0 < n
      → commit format c delivery m me s ≡ (m', s', committed n)
      → IsPublished format c m m' s n × (s' ≡ new_session)
  commit-committed format c delivery m m' me s s' n pos h = elim (Bool-cases s.in_tx) [
    | inr idle ↦ absurd (unfold commit in ground (arith, idle))
    | inl running ↦ elim (Bool-cases s.aborted) [
      | inl stopped ↦ absurd (unfold commit in ground (arith, running, stopped))
      | inr fine ↦
          commit_at_gate format c delivery m m' me s s' n running fine pos h
            (begin_write m.row_locks me (write_keys s.overlay) []) refl
    ]
  ]
