-- ===== src/Storage/RowLock/Races.antt =====
-- Where the locks fall short of what the comments of rowlock.go promise.
use pizzasql.Prelude.{
  ℕ, true, false, none, some, List, [], ◌∷◌, ◌≡◌, ◌≢◌, arith, length, Option-cases, inl, inr,
}
use pizzasql.Prelude.Eq.{nat_eq}
use pizzasql.Prelude.Bytes.{Bytes, bytes_eq, bytes_equal_iff}
use pizzasql.Prelude.Int.{negsuc, ◌+ℤ◌}
use pizzasql.Prelude.Map.{Map, lookup, remove, lookup-remove}
use pizzasql.Storage.RowLock.{
  Session, LockMode, lock_update, lock_share, wait_block, err_deadlock_detected, RowLockManager,
  entry, try_lock, release_at, release, any_owner,
}
use pizzasql.Storage.RowLock.Invariant.{IsWf, holds}
use pizzasql.Storage.RowLock.Writes.{begin_write, has_begun}
use pizzasql.Storage.RowLock.Waiting.{failed, acquire_round}
use pizzasql.Storage.RowLock.Cycles.{self_cycle}

-- `ReleaseAll` loads an entry and locks it afterwards. If that entry `r` was closed in between,
-- and another session has since taken the row in a fresh entry, the visit removes the fresh entry
-- from the map and counts one lock less: the other session holds nothing any more.
pub stale_release_drops_lock :
    (l : RowLockManager) (o p : Session) (k : Bytes) (r : ℕ)
    → IsWf l
    → (l.heap r).closed ≡ true
    → (l.heap r).owners ≡ []
    → holds l p k ≡ some lock_update
    → (holds (release_at l o k r) p k ≡ none)
      × ((release_at l o k r).active ≡ l.active +ℤ negsuc 0)
      × ((q : Session) → (try_lock (release_at l o k r) q k lock_update).1 ≡ true)
unfolding release_at lookup remove try_lock
stale_release_drops_lock l o p k r w c e h = (
  ground (arith, lookup-remove k k l.entries, bytes_equal_iff k k),
  ground arith,
  λ q. ground (arith, lookup-remove k k l.entries, bytes_equal_iff k k),
)

-- Where the map holds the entry of one row alone, which `p` has locked, a stale release of another
-- row that nobody holds counts one lock less. `BeginWrite` then skips its check and lets every
-- session write, also the locked row, while `p` still holds its lock.
pub stale_release_admits_writes :
    (l : RowLockManager) (o p q : Session) (k j : Bytes) (r : ℕ) (m : LockMode)
    (keys prefixes : List Bytes)
    → IsWf l
    → (l.heap r).closed ≡ true
    → (l.heap r).owners ≡ []
    → entry l k ≡ none
    → length l.entries ≡ 1
    → holds l p j ≡ some m
    → (has_begun (begin_write (release_at l o k r) q keys prefixes) ≡ true)
      × (holds (release_at l o k r) p j ≡ some m)
unfolding release_at lookup remove begin_write ◌+ℤ◌
stale_release_admits_writes l o p q k j r m keys prefixes w c e gone one h = (
  ground (arith, w.counted),
  elim (Option-cases (entry l j)) [
    | inr none_there ↦ absurd (ground arith)
    | inl (x, at) ↦
        ground
          (arith, at, (w.mapped j x at).is_open, lookup-remove k j l.entries, bytes_equal_iff k j)
  ],
)

-- Waiters are woken only when the last owner leaves. Where two sessions share a row and the first
-- waits to upgrade, the release by the second closes no channel, although the upgrade would now be
-- granted.
pub upgrade_not_woken :
    (l : RowLockManager) (a b : Session) (k : Bytes) (r : ℕ)
    → IsWf l
    → entry l k ≡ some r
    → a ≢ b
    → (l.heap r).owners ≡ (a, lock_share) ∷ (b, lock_share) ∷ []
    → ((try_lock l a k lock_update).1 ≡ false)
      × ((release l b k).signalled ≡ l.signalled)
      × ((try_lock (release l b k) a k lock_update).1 ≡ true)
unfolding release lookup remove try_lock
upgrade_not_woken l a b k r w at ne e =
    let v = w.mapped k r at in
    (ground (arith, v.is_open), ground (arith, v.is_open), ground (arith, v.is_open))

-- `tryLock` may name the requester itself as the session in the way of its upgrade: it does where
-- the loop over the owners meets the requester first. `Acquire` then reports a deadlock, whoever
-- else waits for whatever.
pub upgrade_reports_deadlock :
    (l : RowLockManager) (a b : Session) (m : LockMode) (k : Bytes) (r : ℕ)
    (rest : Map Session LockMode)
    → IsWf l
    → entry l k ≡ some r
    → (l.heap r).owners ≡ (a, lock_share) ∷ (b, m) ∷ rest
    → (acquire_round l a k lock_update wait_block).1 ≡ failed err_deadlock_detected
unfolding acquire_round lookup any_owner
upgrade_reports_deadlock l a b m k r rest w at e =
    let v = w.mapped k r at in ground (arith, v.is_open, self_cycle l.waits a, bytes_equal_iff k k)
