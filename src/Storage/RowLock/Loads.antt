-- ===== src/Storage/RowLock/Loads.antt =====
-- What is known of an entry that was loaded, while no release has been stale.
use pizzasql.Prelude.{
  ℕ, ◌<◌, false, none, some, ◌≡◌, refl, arith, ◌==◌, Option-cases, Bool-cases, inl, inr, length,
}
use pizzasql.Prelude.Eq.{nat_eq}
use pizzasql.Prelude.Bytes.{Bytes, bytes_eq, bytes_equal_iff}
use pizzasql.Prelude.Map.{remove, lookup-remove, lookup-insert}
use pizzasql.Storage.RowLock.{
  Session, LockMode, Verdict, granted, refused, lock_verdict, apply_verdict, RowLockManager, entry,
  try_lock, try_lock_loaded, store_fresh, release_at,
}
use pizzasql.Storage.RowLock.Invariant.{IsWf}
use pizzasql.Storage.RowLock.Steps.{Load}

-- The entry was allocated, and it is in the map under its key unless it is closed.
pub record IsLoaded (l : RowLockManager) (v : Load) : Type 0 where
  pub old : v.loaded < l.next
  pub current : (l.heap v.loaded).closed ≡ false → entry l v.key ≡ some v.loaded

store_fresh-IsLoaded :
    (l : RowLockManager) (o : Session) (k : Bytes) (m : LockMode) (v : Load)
    → entry l k ≡ none
    → IsLoaded l v
    → IsLoaded (store_fresh l o k m) v
unfolding store_fresh
store_fresh-IsLoaded l o k m v e i = record {
  old = omega (arith, i.old);
  current = λ c.
      ground
        (arith, i.old, i.current, lookup-insert k v.key l.next l.entries, bytes_equal_iff k v.key);
}

verdict-IsLoaded :
    (l : RowLockManager) (r : ℕ) (w : Verdict) (v : Load)
    → IsLoaded l v
    → IsLoaded (apply_verdict l r w).0 v
verdict-IsLoaded l r (refused p) v i = i
verdict-IsLoaded l r (granted owners') v i = record {
  old = i.old;
  current = λ c. ground (arith, i.current);
}

pub try_lock-IsLoaded :
    (l : RowLockManager) (o : Session) (k : Bytes) (m : LockMode)
    → IsWf l
    → (v : Load) → IsLoaded l v
    → IsLoaded (try_lock l o k m).0 v
unfolding try_lock
try_lock-IsLoaded l o k m w v i = elim (Option-cases (entry l k)) [
  | inr h ↦ rw h (store_fresh-IsLoaded l o k m v h i)
  | inl (r, h) ↦
      rw (h, (w.mapped k r h).is_open)
        (verdict-IsLoaded l r (lock_verdict o m (l.heap r).owners) v i)
]

-- An entry that has left the map is closed, and `tryLock` starts afresh.
pub try_lock_late :
    (l : RowLockManager) (v : Load) (m : LockMode)
    → IsLoaded l v
    → entry l v.key ≡ none
    → try_lock_loaded (some v.loaded) l v.owner v.key m ≡ try_lock l v.owner v.key m
unfolding try_lock try_lock_loaded
try_lock_late l v m i e = elim (Bool-cases (l.heap v.loaded).closed) [
  | inl c ↦ rw (e, c) refl
  | inr c ↦ absurd (ground (arith, i.current c))
]

pub release_at-IsLoaded :
    (l : RowLockManager) (o : Session) (k : Bytes) (r : ℕ)
    → IsWf l
    → entry l k ≡ some r
    → (v : Load) → IsLoaded l v
    → IsLoaded (release_at l o k r) v
unfolding release_at
release_at-IsLoaded l o k r w h v i = elim (Bool-cases (length (remove o (l.heap r).owners) == 0)) [
  | inl e ↦ rw e (record {
    old = i.old;
    current =
        λ c. ground (arith, i.current, lookup-remove k v.key l.entries, bytes_equal_iff k v.key);
  })
  | inr e ↦ rw e (record { old = i.old; current = λ c. ground (arith, i.current) })
]
