-- ===== src/Storage/RowLock/Tests.antt =====
-- Runs of the row locks, and the theorems about them at concrete states.
use pizzasql.Prelude.{
  ◌+◌, Bool, true, Option, none, some, List, [], ◌∷◌, ◌≡◌, ◌≢◌, ◌↔◌, refl, arith, if◌then◌else◌,
  ◌&&◌, ◌==◌, length,
}
use pizzasql.Prelude.Eq.{nat_eq}
use pizzasql.Prelude.Bytes.{Bytes, bytes, bytes_eq, bytes_equal}
use pizzasql.Prelude.Int.{negsuc, ◌+ℤ◌}
use pizzasql.Prelude.Map.{lookup, insert, remove}
use pizzasql.Storage.RowLock.{
  Session, lock_update, lock_share, wait_block, err_deadlock_detected, RowLockManager, new_manager,
  entry, try_lock, release, release_all, release_at,
}
use pizzasql.Storage.RowLock.Owners.{Compatible, granted_mode}
use pizzasql.Storage.RowLock.Invariant.{IsWf, owners_at, holds, new_manager-IsWf, try_lock-IsWf}
use pizzasql.Storage.RowLock.Grants.{is_granted, try_lock-granted_iff, holds-try_lock}
use pizzasql.Storage.RowLock.Releases.{holds-release, holds-release_all, release-IsWf}
use pizzasql.Storage.RowLock.Waiting.{acquire_round, failed, has_cycle, cycle_loop}
use pizzasql.Storage.RowLock.Cycles.{IsDeadlocked, has_cycle_iff, has_cycle_terminates}
use pizzasql.Storage.RowLock.Writes.{
  begin_write, begun, has_begun, IsClear, begin_write_iff, covers, contains_key,
}
use pizzasql.Storage.RowLock.Gate.{readers-try_lock}
use pizzasql.Storage.RowLock.Steps.{
  System, Write, Load, load, lock, visit, begin, idle, Reach, start, next,
}
use pizzasql.Storage.RowLock.Reach.{update_lock_exclusive, write_excludes_locks}
use pizzasql.Storage.RowLock.Races.{
  stale_release_drops_lock, stale_release_admits_writes, upgrade_not_woken,
  upgrade_reports_deadlock,
}

abbrev key : Bytes
key = bytes "k"

-- Session 1 holds the row FOR UPDATE.
abbrev updated : RowLockManager
updated = (try_lock new_manager 1 key lock_update).0

-- Sessions 1 and 2 hold it FOR SHARE.
abbrev shared_by_one : RowLockManager
shared_by_one = (try_lock new_manager 1 key lock_share).0

abbrev shared : RowLockManager
shared = (try_lock shared_by_one 2 key lock_share).0

updated-IsWf : IsWf updated
updated-IsWf = try_lock-IsWf new_manager 1 key new_manager-IsWf lock_update

shared_by_one-IsWf : IsWf shared_by_one
shared_by_one-IsWf = try_lock-IsWf new_manager 1 key new_manager-IsWf lock_share

shared-IsWf : IsWf shared
shared-IsWf = try_lock-IsWf shared_by_one 2 key shared_by_one-IsWf lock_share

updated-holds : holds updated 1 key ≡ some lock_update
unfolding try_lock lookup insert
updated-holds = refl

refused_to_others : is_granted (try_lock updated 2 key lock_share) ≡ Bool.false
unfolding try_lock lookup insert
refused_to_others = refl

try_lock-granted_iff_example :
    (is_granted (try_lock shared 3 key lock_share) ≡ true)
    ↔ Compatible 3 lock_share (owners_at shared (entry shared key))
try_lock-granted_iff_example = try_lock-granted_iff shared 3 key lock_share shared-IsWf

granted_to_sharer : is_granted (try_lock shared_by_one 2 key lock_share) ≡ true
unfolding try_lock lookup insert
granted_to_sharer = refl

holds-try_lock_example : holds (try_lock shared_by_one 2 key lock_share).0 1 key ≡ (
    if bytes_equal key key && 2 == 1
    then some (granted_mode lock_share (holds shared_by_one 2 key))
    else holds shared_by_one 1 key)
holds-try_lock_example =
    holds-try_lock shared_by_one 2 key lock_share shared_by_one-IsWf 1 key granted_to_sharer

holds-release_example :
    holds (release shared 1 key) 2 key
    ≡ (if bytes_equal key key && 1 == 2 then none else holds shared 2 key)
holds-release_example = holds-release 1 shared key shared-IsWf 2 key

holds-release_all_example :
    holds (release_all shared 1) 2 key ≡ (if 1 == 2 then none else holds shared 2 key)
holds-release_all_example = holds-release_all 1 shared shared-IsWf 2 key

abbrev two_cycle : List (Session × Option Session)
two_cycle = (1, some 2) ∷ (2, some 1) ∷ []

two_cycle_found : has_cycle two_cycle 1 ≡ true
unfolding has_cycle lookup
two_cycle_found = refl

has_cycle_iff_example : (has_cycle two_cycle 1 ≡ true) ↔ IsDeadlocked two_cycle 1
has_cycle_iff_example = has_cycle_iff two_cycle 1

has_cycle_terminates_example : cycle_loop 4 two_cycle 1 (some 1) [] ≢ none
has_cycle_terminates_example = has_cycle_terminates two_cycle 1

begin_write_iff_example :
    (has_begun (begin_write updated 1 (key ∷ []) (key ∷ [])) ≡ true)
    ↔ IsClear updated 1 (key ∷ []) (key ∷ [])
begin_write_iff_example = begin_write_iff updated 1 (key ∷ []) (key ∷ []) updated-IsWf

abbrev with_loads : RowLockManager → List Load → System
with_loads l loads = record { manager = l; writes = []; loads = loads; stale = 0 }

-- Session 1 locks the row FOR SHARE and then FOR UPDATE; in between session 3 loads the entry.
abbrev loaded_by_three : Load
loaded_by_three = record { owner = 3; key = key; loaded = 0 }

abbrev upgraded : RowLockManager
upgraded = (try_lock shared_by_one 1 key lock_update).0

loads_entry : entry shared_by_one key ≡ some 0
unfolding try_lock lookup insert
loads_entry = refl

reached : Reach (with_loads upgraded (loaded_by_three ∷ []))
reached =
    next
      (next (next start (lock idle 1 key lock_share refl))
        (load (with_loads shared_by_one []) loaded_by_three loads_entry))
      (lock (with_loads shared_by_one (loaded_by_three ∷ [])) 1 key lock_update
        (readers-try_lock new_manager 1 key lock_share))

upgraded-holds : holds upgraded 1 key ≡ some lock_update
unfolding try_lock lookup insert
upgraded-holds = refl

update_lock_exclusive_example : ◌≡◌ {A = Session} 1 1
update_lock_exclusive_example =
    update_lock_exclusive 1 1 key lock_update reached upgraded-holds upgraded-holds

abbrev write : Write
write = record { owner = 1; keys = key ∷ []; prefixes = [] }

abbrev writing : RowLockManager
writing = record upgraded { readers = upgraded.readers + 1 }

write_begun : begin_write upgraded 1 (key ∷ []) [] ≡ begun writing
unfolding begin_write try_lock lookup insert ◌+ℤ◌
write_begun = refl

-- While session 1 writes, the release of session 3 visits the entry.
abbrev visited : System
visited = record {
  manager = release_at writing 3 key 0;
  writes = write ∷ [];
  loads = [];
  stale = if (writing.heap 0).closed then 1 else 0;
}

reached_visited : Reach visited
unfolding try_lock lookup insert
reached_visited =
    next
      (next reached (begin (with_loads upgraded (loaded_by_three ∷ [])) write writing write_begun))
      (visit
        (record { manager = writing; writes = write ∷ []; loads = loaded_by_three ∷ []; stale = 0 })
        [] [] loaded_by_three refl)

not_stale : visited.stale ≡ 0
unfolding try_lock lookup insert
not_stale = refl

visited-holds : holds visited.manager 1 key ≡ some lock_update
unfolding try_lock release_at lookup insert remove
visited-holds = refl

key_covered : covers (key ∷ []) [] key ≡ true
unfolding contains_key
key_covered = refl

write_excludes_locks_example : ◌≡◌ {A = Session} 1 1
write_excludes_locks_example =
    write_excludes_locks write [] [] key 1 lock_update reached_visited not_stale refl key_covered
      visited-holds

-- `ReleaseAll` of session 3 has loaded the entry of session 1. Session 1 releases it, and session 2
-- takes the row in a fresh entry, before session 3 locks the entry that it has loaded.
abbrev retaken : RowLockManager
retaken = (try_lock (release updated 1 key) 2 key lock_update).0

retaken-IsWf : IsWf retaken
retaken-IsWf =
    try_lock-IsWf (release updated 1 key) 2 key (release-IsWf 1 updated key updated-IsWf)
      lock_update

retaken_closed : (retaken.heap 0).closed ≡ true
unfolding try_lock release lookup insert remove
retaken_closed = refl

retaken_owners : (retaken.heap 0).owners ≡ []
unfolding try_lock release lookup insert remove
retaken_owners = refl

retaken-holds : holds retaken 2 key ≡ some lock_update
unfolding try_lock release lookup insert remove
retaken-holds = refl

stale_release_drops_lock_example :
    (holds (release_at retaken 3 key 0) 2 key ≡ none)
    × ((release_at retaken 3 key 0).active ≡ retaken.active +ℤ negsuc 0)
    × ((q : Session) → (try_lock (release_at retaken 3 key 0) q key lock_update).1 ≡ true)
stale_release_drops_lock_example =
    stale_release_drops_lock retaken 3 2 key 0 retaken-IsWf retaken_closed retaken_owners
      retaken-holds

-- Session 1 has released the row, and session 2 has locked another one, before session 3 locks the
-- entry of the first.
abbrev moved_on : RowLockManager
moved_on = (try_lock (release updated 1 key) 2 (bytes "j") lock_update).0

moved_on-IsWf : IsWf moved_on
moved_on-IsWf =
    try_lock-IsWf (release updated 1 key) 2 (bytes "j") (release-IsWf 1 updated key updated-IsWf)
      lock_update

moved_on_closed : (moved_on.heap 0).closed ≡ true
unfolding try_lock release lookup insert remove
moved_on_closed = refl

moved_on_owners : (moved_on.heap 0).owners ≡ []
unfolding try_lock release lookup insert remove
moved_on_owners = refl

moved_on_entries :
    (entry moved_on key ≡ none)
    × (length moved_on.entries ≡ 1)
    × (holds moved_on 2 (bytes "j") ≡ some lock_update)
unfolding try_lock release lookup insert remove
moved_on_entries = (refl, refl, refl)

stale_release_admits_writes_example :
    (has_begun (begin_write (release_at moved_on 3 key 0) 1 (bytes "j" ∷ []) []) ≡ true)
    × (holds (release_at moved_on 3 key 0) 2 (bytes "j") ≡ some lock_update)
stale_release_admits_writes_example =
    stale_release_admits_writes moved_on 3 2 1 key (bytes "j") 0 lock_update (bytes "j" ∷ []) []
      moved_on-IsWf moved_on_closed moved_on_owners moved_on_entries.0 moved_on_entries.1
      moved_on_entries.2

shared-entry : entry shared key ≡ some 0
unfolding try_lock lookup insert
shared-entry = refl

shared_owners : (shared.heap 0).owners ≡ (1, lock_share) ∷ (2, lock_share) ∷ []
unfolding try_lock lookup insert
shared_owners = refl

upgrade_not_woken_example :
    ((try_lock shared 1 key lock_update).1 ≡ Bool.false)
    × ((release shared 2 key).signalled ≡ shared.signalled)
    × ((try_lock (release shared 2 key) 1 key lock_update).1 ≡ true)
upgrade_not_woken_example =
    upgrade_not_woken shared 1 2 key 0 shared-IsWf shared-entry (omega arith) shared_owners

upgrade_reports_deadlock_example :
    (acquire_round shared 1 key lock_update wait_block).1 ≡ failed err_deadlock_detected
upgrade_reports_deadlock_example =
    upgrade_reports_deadlock shared 1 2 lock_share key 0 [] shared-IsWf shared-entry shared_owners
