-- ===== src/Storage/Session/Interruption.antt =====
-- pkg/storage/tx.go: a commit whose request or answer was lost tells the other sessions that its
-- tables may have changed.
use pizzasql.Prelude.{
  ◌+◌, ◌≤◌, ◌<◌, some, none, [], List, ◌∷◌, ◌≡◌, ◌≢◌, refl, arith, if◌then◌else◌, Bool-cases,
  Option-cases, inl, inr,
}
use pizzasql.Prelude.Bytes.{Bytes, bytes_eq, bytes_equal, bytes_equal_iff}
use pizzasql.Prelude.Map.{lookup, lookup-insert}
use pizzasql.Storage.RowLock as Locks
use pizzasql.Storage.RowLock.{RowLockManager}
use pizzasql.Storage.RowLock.Writes.{WriteResult, begin_write, begun, write_refused}
use pizzasql.Storage.Store.{BatchOp, CompareCheck, checks_hold, compare_batch}
use pizzasql.Storage.Session.{Overlay, Session, to_lower}
use pizzasql.Storage.Session.Manager.{
  RowFormat, Manager, generation, bump_generation, bump_index_predicate_wildcard,
}
use pizzasql.Storage.Session.Batch.{op_key, sort_by, read_checks, write_keys, overlay_ops}
use pizzasql.Storage.Session.Commit.{
  commit_failed, transport_failed, Delivery, answered, answer_lost, request_lost, Constraints,
  final_entries, final_overlay, note_scans, bump_tables, send_batch, commit_final, commit,
}

generation-bump :
    (m : Manager) (t u : Bytes)
    → generation (bump_generation (bump_index_predicate_wildcard m u) u) t
      ≡ generation m t + (if bytes_equal (to_lower u) (to_lower t) then 1 else 0)
generation-bump m t u = ground (
  arith,
  lookup-insert (to_lower u) (to_lower t) (generation m u + 1) m.generations,
  bytes_equal_iff (to_lower u) (to_lower t),
)

module _ {R : Type 0} where
  generation-bump_tables :
      (m : Manager) (o : Overlay R) (t : Bytes) → generation m t ≤ generation (bump_tables m o) t
  unfolding bump_tables
  generation-bump_tables m [] t = omega arith
  generation-bump_tables m ((u, _) ∷ o) t =
      let m' = bump_generation (bump_index_predicate_wildcard m u) u in
      ground (arith, generation-bump_tables m' o t, generation-bump m t u)

  -- The tables of the overlay are counted up.
  bump_tables-staged :
      (m : Manager) (o : Overlay R) (t : Bytes)
      → lookup t o ≢ none
      → generation m t < generation (bump_tables m o) t
  unfolding bump_tables lookup
  bump_tables-staged m [] t h = absurd (h refl)
  bump_tables-staged m ((u, _) ∷ o) t h =
      let m' = bump_generation (bump_index_predicate_wildcard m u) u in
      elim (Bool-cases (bytes_equal u t)) [
        | inl same ↦ ground (
          arith,
          same,
          bytes_equal_iff u t,
          bytes_equal_iff (to_lower u) (to_lower t),
          generation-bump_tables m' o t,
          generation-bump m t u,
        )
        | inr other ↦ ground (
          arith,
          bump_tables-staged m' o t (λ e. h (ground (arith, other, e))),
          generation-bump m t u,
        )
      ]

  final_overlay-staged :
      (c : Constraints R) (o p : Overlay R) (t : Bytes)
      → final_overlay c o ≡ some p
      → lookup t o ≢ none
      → lookup t p ≢ none
  unfolding final_overlay lookup
  final_overlay-staged c [] p t e h = absurd (h refl)
  final_overlay-staged c ((u, es) ∷ o) p t e h = elim (Option-cases (final_entries c u es)) [
    | inr f ↦ absurd (ground (arith, f))
    | inl (fs, f) ↦ elim (Option-cases (final_overlay c o)) [
      | inr g ↦ absurd (ground (arith, f, g))
      | inl (q, g) ↦ elim (Bool-cases (bytes_equal u t)) [
        | inl same ↦ ground (arith, f, g, same)
        | inr other ↦
            ground (
              arith,
              f,
              g,
              other,
              final_overlay-staged c o q t g (λ x. h (ground (arith, other, x))),
            )
      ]
    ]
  ]

  send_batch-counts :
      (delivery : Delivery) (m m' : Manager) (me : Locks.Session) (o : Overlay R)
      (checks : List CompareCheck) (ops : List BatchOp) (s' : Session R) (t : Bytes)
      → send_batch delivery m me o checks ops ≡ (m', s', commit_failed transport_failed)
      → lookup t o ≢ none
      → generation m t < generation m' t
  unfolding send_batch compare_batch
  send_batch-counts answered m m' me o checks ops s' t e h =
      elim (Bool-cases (checks_hold m.kv checks)) [
        | inl held ↦ absurd (ground (arith, held))
        | inr broken ↦ absurd (ground (arith, broken))
      ]
  send_batch-counts answer_lost m m' me o checks ops s' t e h =
      let kv = (compare_batch m.kv checks ops).0 in
      let x : m'.generations ≡ (bump_tables (record m { kv = kv }) o).generations = ground arith in
      rw x (bump_tables-staged (record m { kv = kv }) o t h)
  send_batch-counts request_lost m m' me o checks ops s' t e h =
      let x : m'.generations ≡ (bump_tables m o).generations = ground arith in
      rw x (bump_tables-staged m o t h)

  commit_final-counts :
      (format : RowFormat R) (c : Constraints R) (delivery : Delivery) (m m' : Manager)
      (me : Locks.Session) (s s' : Session R) (o : Overlay R) (t : Bytes)
      → commit_final format c delivery m me s o ≡ (m', s', commit_failed transport_failed)
      → lookup t o ≢ none
      → generation m t < generation m' t
  unfolding commit_final
  commit_final-counts format c delivery m m' me s s' o t h st =
      elim (Option-cases (overlay_ops format o)) [
        | inr x ↦ absurd (ground (arith, x))
        | inl (ops, x) ↦
            let checks = sort_by (λ (x : CompareCheck). x.key) (read_checks s.reads) in
            let sorted = sort_by op_key ops in
            send_batch-counts delivery m m' me o checks sorted s' t (ground (arith, x)) st
      ]

  counts_at_gate :
      (format : RowFormat R) (c : Constraints R) (delivery : Delivery) (m m' : Manager)
      (me : Locks.Session) (s s' : Session R) (t : Bytes) (w : WriteResult)
      → commit format c delivery m me s ≡ (m', s', commit_failed transport_failed)
      → lookup t s.overlay ≢ none
      → begin_write m.row_locks me (write_keys s.overlay) [] ≡ w
      → generation m t < generation m' t
  unfolding commit
  counts_at_gate format c delivery m m' me s s' t (write_refused _) h st b =
      absurd (ground (arith, b))
  counts_at_gate format c delivery m m' me s s' t (begun l) h st b =
      elim (Option-cases (c.closure s)) [
        | inr x ↦ absurd (ground (arith, b, x))
        | inl (tables, x) ↦ elim (Option-cases (final_overlay c s.overlay)) [
          | inr f ↦ absurd (ground (arith, b, x, f))
          | inl (o, f) ↦
              let held = record m { row_locks = l } in
              let q = note_scans held s tables in
              commit_final-counts format c delivery held m' me q s' o t (ground (arith, b, x, f))
                (final_overlay-staged c s.overlay o t f st)
        ]
      ]

  -- After a commit whose request or answer was lost each table with staged rows has a new
  -- generation.
  pub commit-counts :
      (format : RowFormat R) (c : Constraints R) (delivery : Delivery) (m m' : Manager)
      (me : Locks.Session) (s s' : Session R) (t : Bytes)
      → commit format c delivery m me s ≡ (m', s', commit_failed transport_failed)
      → lookup t s.overlay ≢ none
      → generation m t < generation m' t
  commit-counts format c delivery m m' me s s' t h st =
      counts_at_gate format c delivery m m' me s s' t
        (begin_write m.row_locks me (write_keys s.overlay) []) h st refl
