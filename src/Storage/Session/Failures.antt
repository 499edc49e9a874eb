-- ===== src/Storage/Session/Failures.antt =====
-- pkg/storage/tx.go: what a commit leaves behind when it fails, and the gate of the row locks.
use pizzasql.Prelude.{
  ◌+◌, ◌<◌, true, false, none, List, [], ◌∷◌, ◌≡◌, ◌≢◌, ◌⊎◌, refl, ap, ◌∙◌, arith, ◌==◌,
  if◌then◌else◌, Bool-cases, Option-cases, inl, inr,
}
use pizzasql.Prelude.Bytes.{Bytes, bytes_eq}
use pizzasql.Prelude.Map.{lookup}
use pizzasql.Storage.RowLock as Locks
use pizzasql.Storage.RowLock.{RowLockManager, release_all}
use pizzasql.Storage.RowLock.Writes.{WriteResult, begin_write, end_write, begun, write_refused}
use pizzasql.Storage.RowLock.Invariant.{IsWf, holds}
use pizzasql.Storage.RowLock.Releases.{holds-release_all}
use pizzasql.Storage.RowLock.Gate.{readers-release_all, begun_lem, IsWf-readers}
use pizzasql.Storage.Store.{BatchOp, CompareCheck, compare_batch, checks_hold}
use pizzasql.Storage.Session.Interruption.{commit-counts}
use pizzasql.Storage.Session.Publication.{bump_tables-kv}
use pizzasql.Storage.Session.{Overlay, Session, new_session}
use pizzasql.Storage.Session.Manager.{
  RowFormat, Manager, generation, bump_generation, bump_index_predicate_wildcard,
}
use pizzasql.Storage.Session.Batch.{op_key, sort_by, read_checks, write_keys, overlay_ops}
use pizzasql.Storage.Session.Commit.{
  CommitError, commit_failed, transport_failed, Delivery, answered, answer_lost, request_lost,
  Constraints, final_overlay, note_scans, bump_tables, send_batch, commit_final, commit,
}

holds-end_write :
    (l : RowLockManager) (p : Locks.Session) (key : Bytes)
    → holds (end_write l) p key ≡ holds l p key
unfolding end_write
holds-end_write l p key = refl

gate_back :
    (l : RowLockManager) (me : Locks.Session)
    → (end_write (release_all (record l { readers = l.readers + 1 }) me)).readers ≡ l.readers
unfolding end_write
gate_back l me = omega (arith, readers-release_all (record l { readers = l.readers + 1 }) me)

module _ {R : Type 0} where
  send_batch-failed :
      (delivery : Delivery) (m m' : Manager) (me : Locks.Session) (o : Overlay R)
      (checks : List CompareCheck) (ops : List BatchOp) (s' : Session R) (e : CommitError)
      → delivery ≢ answer_lost
      → send_batch delivery m me o checks ops ≡ (m', s', commit_failed e)
      → (m'.kv ≡ m.kv) × (s' ≡ new_session)
  unfolding send_batch compare_batch
  send_batch-failed answered m m' me o checks ops s' e d h =
      elim (Bool-cases (checks_hold m.kv checks)) [
        | inl held ↦ absurd (ground (arith, held))
        | inr broken ↦ ground (arith, broken, bump_tables-kv m o)
      ]
  send_batch-failed answer_lost m m' me o checks ops s' e d h = absurd (d refl)
  send_batch-failed request_lost m m' me o checks ops s' e d h = ground (arith, bump_tables-kv m o)

  commit_final-failed :
      (format : RowFormat R) (c : Constraints R) (delivery : Delivery) (m m' : Manager)
      (me : Locks.Session) (s s' : Session R) (o : Overlay R) (e : CommitError)
      → delivery ≢ answer_lost
      → commit_final format c delivery m me s o ≡ (m', s', commit_failed e)
      → (m'.kv ≡ m.kv) × (s' ≡ new_session)
  unfolding commit_final
  commit_final-failed format c delivery m m' me s s' o e d h =
      elim (Option-cases (overlay_ops format o)) [
        | inl (ops, x) ↦
            let checks = sort_by (λ (x : CompareCheck). x.key) (read_checks s.reads) in
            let sorted = sort_by op_key ops in
            ground (arith, x, send_batch-failed delivery m m' me o checks sorted s' e)
        | inr x ↦ ground (arith, x)
      ]

  failed_at_gate :
      (format : RowFormat R) (c : Constraints R) (delivery : Delivery) (m m' : Manager)
      (me : Locks.Session) (s s' : Session R) (e : CommitError)
      → s.in_tx ≡ true
      → s.aborted ≡ false
      → delivery ≢ answer_lost
      → commit format c delivery m me s ≡ (m', s', commit_failed e)
      → (w : WriteResult) → begin_write m.row_locks me (write_keys s.overlay) [] ≡ w
      → (m'.kv ≡ m.kv) × (s' ≡ new_session)
  unfolding commit
  failed_at_gate format c delivery m m' me s s' e running fine d h (write_refused _) b =
      ground (arith, b, running, fine)
  failed_at_gate format c delivery m m' me s s' e running fine d h (begun l) b =
      elim (Option-cases (c.closure s)) [
        | inr x ↦ ground (arith, b, x, running, fine)
        | inl (tables, x) ↦ elim (Option-cases (final_overlay c s.overlay)) [
          | inr f ↦ ground (arith, b, x, f, running, fine)
          | inl (o, f) ↦
              let held = record m { row_locks = l } in
              let t = note_scans held s tables in
              commit_final-failed format c delivery held m' me t s' o e d
                (ground (arith, b, x, f, running, fine))
        ]
      ]

  failed_commit-store :
      (format : RowFormat R) (c : Constraints R) (delivery : Delivery) (m m' : Manager)
      (me : Locks.Session) (s s' : Session R) (e : CommitError)
      → delivery ≢ answer_lost
      → commit format c delivery m me s ≡ (m', s', commit_failed e)
      → (m'.kv ≡ m.kv) × (s' ≡ (if s.in_tx then new_session else s))
  failed_commit-store format c delivery m m' me s s' e d h = elim (Bool-cases s.in_tx) [
    | inr idle ↦ unfold commit in ground (arith, idle)
    | inl running ↦ rw running (elim (Bool-cases s.aborted) [
      | inl stopped ↦ unfold commit in ground (arith, running, stopped)
      | inr fine ↦
          failed_at_gate format c delivery m m' me s s' e running fine d h
            (begin_write m.row_locks me (write_keys s.overlay) []) refl
    ])
  ]

  -- A commit that fails, for whatever reason, leaves the store as it was, unless the store served
  -- the request and the answer was lost. The transaction is over: the session is new, except that
  -- a session without a transaction stays as it is. If the request to the store was lost, every
  -- table of the overlay has a greater generation than before.
  pub commit_fails :
      (format : RowFormat R) (c : Constraints R) (delivery : Delivery) (m m' : Manager)
      (me : Locks.Session) (s s' : Session R) (e : CommitError)
      → delivery ≢ answer_lost
      → commit format c delivery m me s ≡ (m', s', commit_failed e)
      → (m'.kv ≡ m.kv)
        × (s' ≡ (if s.in_tx then new_session else s))
        × ((table : Bytes)
            → e ≡ transport_failed
            → lookup table s.overlay ≢ none
            → generation m table < generation m' table)
  commit_fails format c delivery m m' me s s' e d h =
      let (store, session) = failed_commit-store format c delivery m m' me s s' e d h in
      (
        store,
        session,
        λ table lost staged.
            commit-counts format c delivery m m' me s s' table (rw lost at h) staged,
      )

  bump_tables-row_locks : (m : Manager) (o : Overlay R) → (bump_tables m o).row_locks ≡ m.row_locks
  unfolding bump_tables
  bump_tables-row_locks m [] = refl
  bump_tables-row_locks m ((t, _) ∷ o) =
      bump_tables-row_locks (bump_generation (bump_index_predicate_wildcard m t) t) o

  send_batch-row_locks :
      (delivery : Delivery) (m : Manager) (me : Locks.Session) (o : Overlay R)
      (checks : List CompareCheck) (ops : List BatchOp)
      → (send_batch delivery m me o checks ops).0.row_locks ≡ end_write (release_all m.row_locks me)
  unfolding send_batch compare_batch
  send_batch-row_locks request_lost m me o checks ops =
      ap (λ (l : RowLockManager). end_write (release_all l me)) (bump_tables-row_locks m o)
  send_batch-row_locks answer_lost m me o checks ops =
      let m' = record m { kv = (compare_batch m.kv checks ops).0 } in
      ap (λ (l : RowLockManager). end_write (release_all l me)) (bump_tables-row_locks m' o)
  send_batch-row_locks answered m me o checks ops =
      let m' = record m { kv = (compare_batch m.kv checks ops).0 } in
      let same =
        ap (λ (l : RowLockManager). end_write (release_all l me)) (bump_tables-row_locks m' o) in
      elim (Bool-cases (checks_hold m.kv checks)) [
        | inl held ↦ rw held (rw held at same)
        | inr broken ↦ rw broken (rw broken at same)
      ]

  commit_final-row_locks :
      (format : RowFormat R) (c : Constraints R) (delivery : Delivery) (m : Manager)
      (me : Locks.Session) (s : Session R) (o : Overlay R)
      → (commit_final format c delivery m me s o).0.row_locks
        ≡ end_write (release_all m.row_locks me)
  unfolding commit_final
  commit_final-row_locks format c delivery m me s o = elim (Option-cases (overlay_ops format o)) [
    | inl (ops, x) ↦
        let checks = sort_by (λ (x : CompareCheck). x.key) (read_checks s.reads) in
        let sorted = sort_by op_key ops in
        ground (arith, x, send_batch-row_locks delivery m me o checks sorted)
    | inr x ↦ ground (arith, x)
  ]

  commit-row_locks :
      (format : RowFormat R) (c : Constraints R) (delivery : Delivery) (m : Manager)
      (me : Locks.Session) (s : Session R) (w : WriteResult)
      → s.in_tx ≡ true
      → begin_write m.row_locks me (write_keys s.overlay) [] ≡ w
      → ((commit format c delivery m me s).0.row_locks ≡ release_all m.row_locks me)
        ⊎ ((l : RowLockManager) × (w ≡ begun l)
            × ((commit format c delivery m me s).0.row_locks ≡ end_write (release_all l me)))
  unfolding commit
  commit-row_locks format c delivery m me s (write_refused _) running b =
      inl (ground (arith, b, running))
  commit-row_locks format c delivery m me s (begun l) running b = elim (Bool-cases s.aborted) [
    | inl stopped ↦ inl (ground (arith, running, stopped))
    | inr fine ↦
        let held = record m { row_locks = l } in
        inr (
          l,
          refl,
          elim (Option-cases (c.closure s)) [
            | inr x ↦ ground (arith, b, x, running, fine)
            | inl (tables, x) ↦ elim (Option-cases (final_overlay c s.overlay)) [
              | inr f ↦ ground (arith, b, x, f, running, fine)
              | inl (o, f) ↦ ground (
                arith,
                b,
                x,
                f,
                running,
                fine,
                commit_final-row_locks format c delivery held me (note_scans held s tables) o,
              )
            ]
          ],
        )
  ]

  -- A commit of an open transaction, whatever comes of it, gives the gate of the row locks back
  -- and releases every row lock that its session holds; it takes none from another session.
  pub commit_unlocks :
      (format : RowFormat R) (c : Constraints R) (delivery : Delivery) (m : Manager)
      (me : Locks.Session) (s : Session R)
      → IsWf m.row_locks
      → s.in_tx ≡ true
      → ((commit format c delivery m me s).0.row_locks.readers ≡ m.row_locks.readers)
        × ((p : Locks.Session) (key : Bytes)
            → holds (commit format c delivery m me s).0.row_locks p key
              ≡ (if me == p then none else holds m.row_locks p key))
  commit_unlocks format c delivery m me s wf running =
      elim (commit-row_locks format c delivery m me s
        (begin_write m.row_locks me (write_keys s.overlay) []) running refl) [
          | inl e ↦ (
            ap (λ (l : RowLockManager). l.readers) e ∙ readers-release_all m.row_locks me,
            λ p key.
                ap (λ (l : RowLockManager). holds l p key) e
                ∙ holds-release_all me m.row_locks wf p key,
          )
          | inr (l, b, e) ↦
              let x = begun_lem m.row_locks l me (write_keys s.overlay) [] b in
              let wl = IsWf-readers m.row_locks (m.row_locks.readers + 1) wf in
              (
                ap (λ (k : RowLockManager). k.readers) e ∙ rw x (gate_back m.row_locks me),
                λ p key.
                    ap (λ (k : RowLockManager). holds k p key) e
                    ∙ holds-end_write (release_all l me) p key
                    ∙ rw x (
                        holds-release_all me
                          (record m.row_locks { readers = m.row_locks.readers + 1 }) wl p key),
              )
        ]
