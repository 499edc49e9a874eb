-- ===== src/Storage/RowLock.antt =====
-- pkg/storage/rowlock.go: the in-process row locks. A session is the number of its object. The
-- entries are objects on a heap, because `Release` may reach one that the map no longer holds.
-- A session that is suspended on its channel waits for that channel in `signalled`.
pub mod Owners
pub mod Invariant
pub mod Grants
pub mod Releases
pub mod Waiting
pub mod Cycles
pub mod Writes
pub mod Gate
pub mod Steps
pub mod Agreement
pub mod Loads
pub mod Reach
pub mod Races
mod Tests
use pizzasql.Prelude.{
  ℕ, ◌+◌, Bool, true, false, ◌||◌, not, Option, none, some, List, [], ◌∷◌, ◌++◌, ◌==◌,
  if◌then◌else◌, length,
}
use pizzasql.Prelude.Eq.{nat_eq}
use pizzasql.Prelude.Bytes.{Bytes, bytes_eq}
use pizzasql.Prelude.Map.{Map, lookup, insert, remove}
use pizzasql.Prelude.Int.{ℤ, pos, negsuc, ◌+ℤ◌}

abbrev pub Session : Type 0
Session = ℕ

pub data LockMode : Type 0 where
  lock_update lock_share : LockMode

pub data LockWait : Type 0 where
  wait_block wait_no_wait wait_skip : LockWait

pub data LockError : Type 0 where
  err_row_locked err_lock_not_available err_deadlock_detected : LockError

-- `waiters` holds the channels; a channel is a number.
pub record RowLockEntry : Type 0 where
  pub closed : Bool
  pub owners : Map Session LockMode
  pub waiters : List ℕ

-- `heap` is the memory of the entries, allocated below `next`; `entries` maps a data key to its
-- entry. `readers` counts who holds `gate` for reading. `signalled` are the channels closed so far.
pub record RowLockManager : Type 0 where
  pub heap : ℕ → RowLockEntry
  pub next : ℕ
  pub entries : Map Bytes ℕ
  pub active : ℤ
  pub waits : Map Session (Option Session)
  pub readers : ℕ
  pub next_channel : ℕ
  pub signalled : List ℕ

-- What a word of memory that was never allocated holds.
abbrev pub no_entry : RowLockEntry
no_entry = record { closed = true; owners = []; waiters = [] }

-- `NewRowLockManager`
abbrev pub new_manager : RowLockManager
new_manager = record {
  heap = λ _. no_entry;
  next = 0;
  entries = [];
  active = pos 0;
  waits = [];
  readers = 0;
  next_channel = 0;
  signalled = [];
}

abbrev pub write_entry : (ℕ → RowLockEntry) → ℕ → RowLockEntry → ℕ → RowLockEntry
write_entry heap r e x = if x == r then e else heap x

abbrev pub entry : RowLockManager → Bytes → Option ℕ
entry l key = lookup key l.entries

abbrev pub is_update : LockMode → Bool
is_update lock_update = true
is_update lock_share = false

-- `for other := range e.owners { return false, other }`
unfoldable pub any_owner : Map Session LockMode → Option Session
any_owner [] = none
any_owner ((o, _) ∷ _) = some o

-- The first holder FOR UPDATE that the loop of the shared case meets.
unfoldable pub update_holder : Map Session LockMode → Option Session
update_holder [] = none
update_holder ((o, m) ∷ rest) = if is_update m then some o else update_holder rest

pub data Verdict : Type 0 where
  granted : Map Session LockMode → Verdict
  refused : Option Session → Verdict

-- `tryLock` where the owner holds the entry with strength `current`.
unfoldable pub held_verdict : Session → LockMode → LockMode → Map Session LockMode → Verdict
unfolding any_owner
held_verdict owner mode current owners =
    if is_update current || not (is_update mode)
    then granted owners
    else if length owners == 1
    then granted (insert owner lock_update owners)
    else refused (any_owner owners)

-- `tryLock` where it does not, from `if len(e.owners) == 0` on.
unfoldable pub new_verdict : Session → LockMode → Map Session LockMode → Verdict
unfolding any_owner update_holder
new_verdict owner mode owners =
    if length owners == 0
    then granted (insert owner mode owners)
    else if not (is_update mode)
    then (elim (update_holder owners) [
      | none ↦ granted (insert owner lock_share owners)
      | some other ↦ refused (some other)
    ])
    else refused (any_owner owners)

-- `tryLock` from `current, held := e.owners[owner]` on: the owners after a grant, or the session
-- that stands in the way.
unfoldable pub lock_verdict : Session → LockMode → Map Session LockMode → Verdict
unfolding held_verdict new_verdict
lock_verdict owner mode owners = elim (lookup owner owners) [
  | some current ↦ held_verdict owner mode current owners
  | none ↦ new_verdict owner mode owners
]

-- `e = &rowLockEntry{…}; e.owners[owner] = mode; l.entries.Store(key, e); l.active.Add(1)`
unfoldable pub store_fresh : RowLockManager → Session → Bytes → LockMode → RowLockManager
store_fresh l owner key mode = record l {
  heap =
      write_entry l.heap l.next
        (record { closed = false; owners = (owner, mode) ∷ []; waiters = [] });
  next = l.next + 1;
  entries = insert key l.next l.entries;
  active = l.active +ℤ pos 1;
}

abbrev pub apply_verdict : RowLockManager → ℕ → Verdict → RowLockManager × Bool × Option Session
apply_verdict l r (granted owners) =
    (record l { heap = write_entry l.heap r (record (l.heap r) { owners = owners }) }, true, none)
apply_verdict l r (refused other) = (l, false, other)

-- `tryLock` behind the load of the entry; `loaded` is what `l.entry(key)` returned.
unfoldable pub try_lock_loaded :
    Option ℕ → RowLockManager → Session → Bytes → LockMode → RowLockManager × Bool × Option Session
unfolding store_fresh lock_verdict
try_lock_loaded none l owner key mode = (store_fresh l owner key mode, true, none)
try_lock_loaded (some r) l owner key mode =
    if (l.heap r).closed
    then (store_fresh l owner key mode, true, none)
    else apply_verdict l r (lock_verdict owner mode (l.heap r).owners)

unfoldable pub try_lock :
    RowLockManager → Session → Bytes → LockMode → RowLockManager × Bool × Option Session
unfolding try_lock_loaded
try_lock l owner key mode = try_lock_loaded (entry l key) l owner key mode

-- The body of `Release` under the lock of entry `r`, and the callback of `ReleaseAll`: the owner
-- goes; an entry with no owner left is closed, leaves the map and wakes its waiters.
unfoldable pub release_at : RowLockManager → Session → Bytes → ℕ → RowLockManager
release_at l owner key r =
    let e = l.heap r in
    let owners' = remove owner e.owners in
    if length owners' == 0
    then record l {
      heap = write_entry l.heap r (record { closed = true; owners = owners'; waiters = [] });
      entries = remove key l.entries;
      active = l.active +ℤ negsuc 0;
      signalled = e.waiters ++ l.signalled;
    }
    else record l { heap = write_entry l.heap r (record e { owners = owners' }) }

-- `Release`
unfoldable pub release : RowLockManager → Session → Bytes → RowLockManager
unfolding release_at
release l owner key = elim (entry l key) [ none ↦ l | some r ↦ release_at l owner key r ]

-- The `Range` of `ReleaseAll` over the pairs that it loads.
unfoldable pub release_range : RowLockManager → Session → Map Bytes ℕ → RowLockManager
release_range l owner [] = l
release_range l owner ((key, r) ∷ rest) = release_range (release_at l owner key r) owner rest

-- `ReleaseAll`, run with no other operation in between.
unfoldable pub release_all : RowLockManager → Session → RowLockManager
unfolding release_range
release_all l owner =
    let l' = release_range l owner l.entries in record l' { waits = remove owner l'.waits }
