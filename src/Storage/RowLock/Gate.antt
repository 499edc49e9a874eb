-- ===== src/Storage/RowLock/Gate.antt =====
-- The gate of the row locks, which only `BeginWrite` and the function that it returns move.
use pizzasql.Prelude.{ℕ, ◌+◌, List, [], ◌∷◌, ◌≡◌, refl, ◌∙◌, arith}
use pizzasql.Prelude.Eq.{nat_eq}
use pizzasql.Prelude.Bytes.{Bytes, bytes_eq}
use pizzasql.Prelude.Map.{Map}
use pizzasql.Storage.RowLock.{
  Session, LockMode, RowLockManager, try_lock, release_at, release_range, release_all,
}
use pizzasql.Storage.RowLock.Invariant.{IsWf}
use pizzasql.Storage.RowLock.Writes.{begun, begin_write}

pub readers-try_lock :
    (l : RowLockManager) (o : Session) (k : Bytes) (m : LockMode)
    → (try_lock l o k m).0.readers ≡ l.readers
unfolding try_lock
readers-try_lock l o k m = ground arith

pub readers-release_at :
    (l : RowLockManager) (o : Session) (k : Bytes) (r : ℕ)
    → (release_at l o k r).readers ≡ l.readers
unfolding release_at
readers-release_at l o k r = ground arith

readers-release_range :
    (l : RowLockManager) (o : Session) (rest : Map Bytes ℕ)
    → (release_range l o rest).readers ≡ l.readers
unfolding release_range
readers-release_range l o [] = refl
readers-release_range l o ((k, r) ∷ rest) =
    readers-release_range (release_at l o k r) o rest ∙ readers-release_at l o k r

pub readers-release_all : (l : RowLockManager) (o : Session) → (release_all l o).readers ≡ l.readers
unfolding release_all
readers-release_all l o = readers-release_range l o l.entries

pub begun_lem :
    (l l' : RowLockManager) (owner : Session) (keys prefixes : List Bytes)
    → begin_write l owner keys prefixes ≡ begun l'
    → l' ≡ record l { readers = l.readers + 1 }
unfolding begin_write
begun_lem l l' owner keys prefixes h = ground arith

-- A change of the gate alone.
pub IsWf-readers : (l : RowLockManager) (n : ℕ) → IsWf l → IsWf (record l { readers = n })
IsWf-readers l n w = record {
  distinct = w.distinct;
  counted = w.counted;
  allocated = w.allocated;
  mapped = w.mapped;
  separate = w.separate;
}
