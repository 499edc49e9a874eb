-- ===== src/Storage/RowLock/Steps.antt =====
-- The row locks under any interleaving of their steps. `Release`, `ReleaseAll` and `tryLock` load an
-- entry first and lock its mutex later: the loads that are under way stand in the state, and any
-- other step may come in between. Only `tryLock` and `BeginWrite` hold the gate; `BeginWrite` is one
-- step, at its end, since in the meantime locks only go. Waiting moves no owner and is left out.
use pizzasql.Prelude.{ℕ, ◌+◌, none, some, List, [], ◌∷◌, ◌++◌, ◌≡◌, if◌then◌else◌}
use pizzasql.Prelude.Bytes.{Bytes, bytes_eq}
use pizzasql.Prelude.Eq.{nat_eq}
use pizzasql.Prelude.Map.{remove}
use pizzasql.Storage.RowLock.{
  Session, LockMode, RowLockManager, new_manager, entry, try_lock, try_lock_loaded, release_at,
}
use pizzasql.Storage.RowLock.Writes.{begun, begin_write, end_write}

-- A write between `BeginWrite` and the call of the function that it returned.
pub record Write : Type 0 where
  pub owner : Session
  pub keys : List Bytes
  pub prefixes : List Bytes

-- An entry that was loaded under a key, whose mutex is still to be locked.
pub record Load : Type 0 where
  pub owner : Session
  pub key : Bytes
  pub loaded : ℕ

-- `stale` counts the releases so far that met an entry which was closed after they had loaded it.
pub record System : Type 0 where
  pub manager : RowLockManager
  pub writes : List Write
  pub loads : List Load
  pub stale : ℕ

-- `gate.Lock` waits for the readers of the gate: a lock is only tried when no write is in flight.
pub data Step : System → System → Type 0 where
  load :
      (s : System) (v : Load)
      → entry s.manager v.key ≡ some v.loaded
      → Step s (record s { loads = v ∷ s.loads })
  -- `tryLock` whose entry is still in the map when it locks it, or is found missing at once.
  lock :
      (s : System) (o : Session) (k : Bytes) (m : LockMode)
      → s.manager.readers ≡ 0
      → Step s (record s { manager = (try_lock s.manager o k m).0 })
  -- `tryLock` whose entry has left the map in between.
  lock_late :
      (s : System) (before after : List Load) (v : Load) (m : LockMode)
      → s.manager.readers ≡ 0
      → s.loads ≡ before ++ v ∷ after
      → entry s.manager v.key ≡ none
      → Step s (record s {
        manager = (try_lock_loaded (some v.loaded) s.manager v.owner v.key m).0;
        loads = before ++ after;
      })
  -- The rest of `Release`, or of one call of the callback of `ReleaseAll`.
  visit :
      (s : System) (before after : List Load) (v : Load)
      → s.loads ≡ before ++ v ∷ after
      → Step s (record s {
        manager = release_at s.manager v.owner v.key v.loaded;
        loads = before ++ after;
        stale = s.stale + (if (s.manager.heap v.loaded).closed then 1 else 0);
      })
  -- The end of `ReleaseAll`.
  forget :
      (s : System) (o : Session)
      → Step s (record s { manager = record s.manager { waits = remove o s.manager.waits } })
  begin :
      (s : System) (w : Write) (l' : RowLockManager)
      → begin_write s.manager w.owner w.keys w.prefixes ≡ begun l'
      → Step s (record s { manager = l'; writes = w ∷ s.writes })
  finish :
      (s : System) (before after : List Write) (w : Write)
      → s.writes ≡ before ++ w ∷ after
      → Step s (record s { manager = end_write s.manager; writes = before ++ after })

abbrev pub idle : System
idle = record { manager = new_manager; writes = []; loads = []; stale = 0 }

pub data Reach : System → Type 0 where
  start : Reach idle
  next : {s t : System} → Reach s → Step s t → Reach t
