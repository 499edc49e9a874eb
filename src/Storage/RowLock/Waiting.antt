-- ===== src/Storage/RowLock/Waiting.antt =====
-- pkg/storage/rowlock.go: `waitFor`, the wait-for graph and `Acquire`. A session that has to wait
-- is suspended on a fresh channel; what happens next is a call of `end_wait` or `time_out`.
use pizzasql.Prelude.{
  ℕ, zero, suc, ◌+◌, Bool, true, false, ◌||◌, not, Option, none, some, List, [], ◌∷◌, ◌==◌,
  if◌then◌else◌, length,
}
use pizzasql.Prelude.Eq.{nat_eq}
use pizzasql.Prelude.Bytes.{Bytes}
use pizzasql.Prelude.Map.{Map, lookup, insert, remove}
use pizzasql.Storage.RowLock.{
  Session, LockMode, LockWait, wait_block, wait_no_wait, wait_skip, LockError, err_row_locked,
  err_lock_not_available, err_deadlock_detected, RowLockManager, write_entry, entry, try_lock,
}

-- `l.waits[cur]`, which is nil for a session that is not in the map.
abbrev pub waits_for : Map Session (Option Session) → Session → Option Session
waits_for waits cur = elim (lookup cur waits) [ none ↦ none | some other ↦ other ]

unfoldable pub contains : ℕ → List ℕ → Bool
contains x [] = false
contains x (y ∷ ys) = y == x || contains x ys

-- The loop of `hasCycleLocked`, with fuel; `none` means that the fuel ran out.
unfoldable pub cycle_loop :
    ℕ → Map Session (Option Session) → Session → Option Session → List Session → Option Bool
unfolding contains
cycle_loop zero waits start cur seen = none
cycle_loop (suc fuel) waits start none seen = some false
cycle_loop (suc fuel) waits start (some cur) seen =
    let rest = cycle_loop fuel waits start (waits_for waits cur) (cur ∷ seen) in
    if contains cur seen then some (cur == start) else rest

abbrev pub is_some_true : Option Bool → Bool
is_some_true none = false
is_some_true (some b) = b

-- `hasCycleLocked`
unfoldable pub has_cycle : Map Session (Option Session) → Session → Bool
unfolding cycle_loop
has_cycle waits start = is_some_true (cycle_loop (length waits + 2) waits start (some start) [])

unfoldable pub remove_channel : ℕ → List ℕ → List ℕ
remove_channel ch [] = []
remove_channel ch (c ∷ cs) = let rest = remove_channel ch cs in if c == ch then rest else c ∷ rest

-- `delete(e.waiters, ch)`
abbrev pub drop_waiter : RowLockManager → ℕ → ℕ → RowLockManager
drop_waiter l r ch = record l {
  heap =
      write_entry l.heap r (record (l.heap r) { waiters = remove_channel ch (l.heap r).waiters });
}

pub data WaitOutcome : Type 0 where
  wait_retry wait_deadlock : WaitOutcome
  waiting : ℕ → WaitOutcome

-- `waitFor` once the entry is known to be current and owned: the channel is enqueued, the edge is
-- drawn, and both are taken back if the edge closes a cycle.
unfoldable pub enqueue :
    RowLockManager → ℕ → Session → Option Session → RowLockManager × WaitOutcome
unfolding has_cycle remove_channel
enqueue l r owner other =
    let ch = l.next_channel in
    let waits' = insert owner other l.waits in
    let queued = record l {
      heap = write_entry l.heap r (record (l.heap r) { waiters = ch ∷ (l.heap r).waiters });
      next_channel = ch + 1;
      waits = waits';
    } in
    if has_cycle waits' owner
    then (drop_waiter (record queued { waits = remove owner waits' }) r ch, wait_deadlock)
    else (queued, waiting ch)

-- `present && current == e`
abbrev pub is_current : Option ℕ → ℕ → Bool
is_current none r = false
is_current (some q) r = q == r

-- `waitFor` up to the `select`, behind the load of the entry.
unfoldable pub wait_for_loaded :
    Option ℕ → RowLockManager → Session → Bytes → Option Session → RowLockManager × WaitOutcome
unfolding enqueue
wait_for_loaded none l owner key other = (l, wait_retry)
wait_for_loaded (some r) l owner key other =
    if not (is_current (entry l key) r) || length (l.heap r).owners == 0
    then (l, wait_retry)
    else enqueue l r owner other

abbrev pub same_session : Option Session → Option Session → Bool
same_session none none = true
same_session (some a) (some b) = a == b
same_session _ _ = false

-- The deferred part of `waitFor`, on return by the closed channel.
unfoldable pub end_wait : RowLockManager → Session → Option Session → RowLockManager
end_wait l owner other =
    if same_session (waits_for l.waits owner) other
    then record l { waits = remove owner l.waits }
    else l

-- The case of the timer, with the deferred part behind it; `Acquire` then fails.
unfoldable pub time_out :
    RowLockManager → ℕ → ℕ → Session → Option Session → RowLockManager × LockError
unfolding end_wait remove_channel
time_out l r ch owner other = (end_wait (drop_waiter l r ch) owner other, err_deadlock_detected)

pub data Round : Type 0 where
  acquired again : Round
  failed : LockError → Round
  suspended : ℕ → Round

abbrev pub after_wait : RowLockManager × WaitOutcome → RowLockManager × Round
after_wait (l, wait_retry) = (l, again)
after_wait (l, wait_deadlock) = (l, failed err_deadlock_detected)
after_wait (l, waiting ch) = (l, suspended ch)

abbrev contended :
    LockWait → Session → Bytes → RowLockManager × Bool × Option Session → RowLockManager × Round
contended wait owner key (l, true, other) = (l, acquired)
contended wait_no_wait owner key (l, false, other) = (l, failed err_lock_not_available)
contended wait_skip owner key (l, false, other) = (l, failed err_row_locked)
contended wait_block owner key (l, false, other) =
    after_wait (wait_for_loaded (entry l key) l owner key other)

-- One round of the loop of `Acquire`. `again` means that the loop goes round at once; a suspended
-- session goes round when its channel is closed.
unfoldable pub acquire_round :
    RowLockManager → Session → Bytes → LockMode → LockWait → RowLockManager × Round
unfolding try_lock wait_for_loaded
acquire_round l owner key mode wait = contended wait owner key (try_lock l owner key mode)
