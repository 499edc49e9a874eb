-- ===== src/Storage/Session/Tests.antt =====
-- pkg/storage/tx.go: runs of one transaction, and the theorems at them. A row is its encoding.
use pizzasql.Prelude.{
  Option, inl, Bool, true, false, none, some, [], ◌∷◌, ◌≡◌, ◌≢◌, ◌<◌, refl, arith, ◌==◌,
  if◌then◌else◌,
}
use pizzasql.Prelude.Bytes.{Bytes, bytes, bytes_eq}
use pizzasql.Prelude.Map.{lookup, insert, remove}
use pizzasql.Storage.RowLock as Locks
use pizzasql.Storage.RowLock.{new_manager}
use pizzasql.Storage.RowLock.Invariant.{holds, new_manager-IsWf}
use pizzasql.Storage.Store.{
  new_kv, batch_put, batch_write, apply_op, apply_ops, compare_batch, checks_hold,
}
use pizzasql.Storage.Store.Versions.{IsNumbered, batch, Write-IsNumbered, new_kv-IsNumbered}
use pizzasql.Storage.Session.{
  OverlayEntry, Session, new_session, stage, staged, data_key, rollback_to, snapshot, note_read,
  rollback_to_savepoint,
}
use pizzasql.Storage.Session.Manager.{RowFormat, Manager, generation, get_key_with_lsn}
use pizzasql.Storage.Session.Reads.{
  scan_start, select_locked, scan_durable, scan_staged, get_by_pk, insert_prepared, delete_by_pk,
  delete_read, trim_prefix,
}
use pizzasql.Storage.RowLock.Writes.{begin_write}
use pizzasql.Storage.RowCodec.Names.{bytes_le}
use pizzasql.Storage.Session.Batch.{overlay_ops, entry_ops, sort_by, insert_by}
use pizzasql.Storage.Session.Commit.{
  CommitError, CommitResult, committed, commit_failed, transport_failed, answered, request_lost,
  Constraints, note_scans, final_overlay, final_entries, commit_final, scans_valid,
  predicates_valid, send_batch, bump_tables, commit,
}
use pizzasql.Storage.Session.Overlay.{start, staging, rollback_to-snapshot}
use pizzasql.Storage.Session.Runs.{
  World, observe_scan, TxRun, Saved, saving, restoring, begun, others, reading, scanning, inserting,
  deleting,
}
use pizzasql.Storage.Session.Outcome.{commit-publishes, commit-reads}
use pizzasql.Storage.Session.Failures.{commit_fails, commit_unlocks}
use pizzasql.Storage.Session.Scans.{IsVisible, select_locked-IsVisible}
use pizzasql.Storage.Session.Keys.{data_key_inj, data_key_shared}

abbrev text_format : RowFormat Bytes
text_format = record { encode = λ row. some row; decode = λ value. some value }

abbrev no_constraints : Constraints Bytes
no_constraints = record {
  closure = λ _. some [];
  final_row = λ _ row. some row;
  holds = λ _ _. true;
}

abbrev shop : Manager
shop = record {
  database = bytes "shop";
  kv = new_kv;
  row_locks = new_manager;
  generations = [];
  predicate_generations = [];
}

abbrev pizza_key : Bytes
pizza_key = data_key (bytes "shop") (bytes "Pizza") (bytes "1")

abbrev new_key : Bytes
new_key = data_key (bytes "shop") (bytes "Pizza") (bytes "2")

-- The store after another client has put in one pizza.
abbrev stocked : Manager
stocked = record shop { kv = batch_write new_kv (batch_put pizza_key (bytes "Margherita") ∷ []) }

stocked-IsNumbered : IsNumbered stocked.kv
stocked-IsNumbered =
    Write-IsNumbered new_kv stocked.kv
      (batch new_kv (batch_put pizza_key (bytes "Margherita") ∷ [])) new_kv-IsNumbered

-- The transaction reads the pizza, sets a savepoint, reads a pizza that is not there, rolls back to
-- the savepoint, scans the pizzas, another client puts in a drink, and the
-- transaction deletes the pizza and inserts a new one.
abbrev w0 : World Bytes
w0 = record {
  manager = stocked;
  session = record new_session { in_tx = true };
  seen = [];
  savepoints = [];
}

abbrev w1 : World Bytes
w1 = record w0 {
  session = (get_by_pk text_format true stocked w0.session (bytes "Pizza") (bytes "1")).0;
  seen = (pizza_key, some (bytes "Margherita")) ∷ [];
}

abbrev drink : Manager
drink = record stocked {
  kv =
      batch_write stocked.kv
        (batch_put (data_key (bytes "shop") (bytes "Drink") (bytes "1")) (bytes "Cola") ∷ []);
}

abbrev first_savepoint : Saved Bytes
first_savepoint = record { copy = w1.session; before = w1.seen }

abbrev read_missing : World Bytes
read_missing = record w1 {
  session = (get_by_pk text_format true stocked w1.session (bytes "Pizza") (bytes "2")).0;
  seen = (pizza_key, some (bytes "Margherita")) ∷ (new_key, none) ∷ [];
  savepoints = first_savepoint ∷ [];
}

abbrev restored : World Bytes
restored = record read_missing {
  session = rollback_to_savepoint read_missing.session first_savepoint.copy;
  seen = first_savepoint.before;
}

-- After the scan, whose generation and whose row the session notes.
abbrev after_scan : World Bytes
after_scan = record restored {
  session = note_read (scan_start stocked restored.session (bytes "Pizza")) pizza_key 1;
}

abbrev w2 : World Bytes
w2 = record after_scan { manager = drink }

abbrev w3 : World Bytes
w3 = record w2 {
  session = (delete_by_pk text_format drink w2.session (bytes "Pizza") (bytes "1")).0;
}

abbrev w4 : World Bytes
w4 = record w3 {
  session =
      (insert_prepared text_format drink w3.session (bytes "Pizza") new_key (bytes "Funghi")).0;
  seen = (pizza_key, some (bytes "Margherita")) ∷ (new_key, none) ∷ [];
}

run_restored : TxRun text_format stocked new_session restored
unfolding get_by_pk get_key_with_lsn lookup insert apply_ops apply_op
run_restored = restoring read_missing [] [] first_savepoint refl (
    reading (record w1 { savepoints = first_savepoint ∷ [] }) (bytes "Pizza") (bytes "2")
      (saving w1 (
        reading w0 (bytes "Pizza") (bytes "1") (begun (record new_session { in_tx = true }) refl))))

run : TxRun text_format stocked new_session w4
unfolding select_locked scan_durable scan_staged observe_scan get_by_pk delete_by_pk delete_read
    insert_prepared trim_prefix get_key_with_lsn stage lookup insert apply_ops apply_op
    rollback_to_savepoint
run = inserting w3 (bytes "Pizza") (bytes "2") (bytes "Funghi") refl (
    deleting w2 (bytes "Pizza") (bytes "1") refl (
      others after_scan drink refl
        (batch stocked.kv
          (batch_put (data_key (bytes "shop") (bytes "Drink") (bytes "1")) (bytes "Cola") ∷ []))
        (scanning restored (λ _. some (bytes "1")) (λ _. true) (bytes "Pizza") after_scan.session
          (bytes "Margherita" ∷ []) refl run_restored)))

running : w4.session.in_tx ≡ true
unfolding rollback_to_savepoint get_by_pk delete_by_pk delete_read insert_prepared trim_prefix
    get_key_with_lsn stage lookup insert apply_ops apply_op
running = refl

abbrev outcome : Manager × Session Bytes × CommitResult
outcome = commit text_format no_constraints answered drink 7 w4.session

commits : outcome ≡ (outcome.0, outcome.1, committed 3)
unfolding commit begin_write note_scans final_overlay final_entries commit_final scans_valid
    predicates_valid overlay_ops entry_ops sort_by insert_by bytes_le send_batch compare_batch
    checks_hold bump_tables rollback_to_savepoint get_by_pk delete_by_pk delete_read insert_prepared
    trim_prefix get_key_with_lsn stage lookup insert remove apply_ops apply_op
commits = refl

-- The deleted pizza is gone, and the new one is there.
commit-publishes_example :
    (lookup new_key outcome.0.kv.contents ≡ some (bytes "Funghi"))
    × (◌≡◌ {A = Bool} false false → lookup new_key outcome.0.kv.contents ≢ none)
unfolding stage rollback_to_savepoint get_by_pk delete_by_pk delete_read insert_prepared trim_prefix
    get_key_with_lsn lookup insert apply_ops apply_op
commit-publishes_example =
    (commit-publishes text_format no_constraints answered stocked outcome.0 7 new_session outcome.1
        w4 3 stocked-IsNumbered run (omega arith) commits).0
      (bytes "pizza") new_key (record { row = bytes "Funghi"; absent = false }) refl

commit-reads_example : lookup pizza_key drink.kv.contents ≡ some (bytes "Margherita")
unfolding lookup
commit-reads_example =
    commit-reads text_format no_constraints answered stocked outcome.0 7 new_session outcome.1 w4 3
      stocked-IsNumbered run (omega arith) commits pizza_key (some (bytes "Margherita")) refl

abbrev unsent : Manager × Session Bytes × CommitResult
unsent = commit text_format no_constraints request_lost drink 7 w4.session

request_fails : unsent ≡ (unsent.0, unsent.1, commit_failed transport_failed)
unfolding commit begin_write note_scans final_overlay final_entries commit_final scans_valid
    predicates_valid overlay_ops entry_ops sort_by insert_by bytes_le send_batch compare_batch
    checks_hold bump_tables rollback_to_savepoint get_by_pk delete_by_pk delete_read insert_prepared
    trim_prefix get_key_with_lsn stage lookup insert remove apply_ops apply_op
request_fails = refl

commit_fails_example :
    (unsent.0.kv ≡ drink.kv)
    × (unsent.1 ≡ (if w4.session.in_tx then new_session else w4.session))
    × ((table : Bytes)
        → ◌≡◌ {A = CommitError} transport_failed transport_failed
        → lookup table w4.session.overlay ≢ none
        → generation drink table < generation unsent.0 table)
commit_fails_example =
    commit_fails text_format no_constraints request_lost drink unsent.0 7 w4.session unsent.1
      transport_failed (cc) request_fails

commit_unlocks_example :
    (outcome.0.row_locks.readers ≡ drink.row_locks.readers)
    × ((p : Locks.Session) (key : Bytes)
        → holds outcome.0.row_locks p key ≡ (if 7 == p then none else holds drink.row_locks p key))
commit_unlocks_example =
    commit_unlocks text_format no_constraints answered drink 7 w4.session new_manager-IsWf running

abbrev margherita : OverlayEntry Bytes
margherita = record { row = bytes "Margherita"; absent = false }

-- A row is staged under a key, after a savepoint, and is gone after the rollback.
rollback_to-snapshot_example :
    ((rollback_to (stage w0.session (bytes "Pizza") pizza_key margherita) (snapshot w0.session)).log
      ≡ w0.session.log)
    × ((u j : Bytes)
        → staged
            (rollback_to
              (stage w0.session (bytes "Pizza") pizza_key margherita)
              (snapshot w0.session)).overlay
            u
            j
          ≡ staged w0.session.overlay u j)
rollback_to-snapshot_example =
    rollback_to-snapshot w0.session (stage w0.session (bytes "Pizza") pizza_key margherita)
      (staging w0.session (bytes "Pizza") pizza_key margherita start)

data_key_inj_example : (bytes "pizza" ≡ bytes "pizza") × (◌≡◌ {A = Bytes} (bytes "1") (bytes "1"))
data_key_inj_example =
    data_key_inj (bytes "shop") (bytes "Pizza") (bytes "PIZZA") (bytes "1") (bytes "1") refl refl
      refl

-- Row 2 of the table `a:b`, and row `b:2` of the table `a`.
data_key_shared_example :
    data_key (bytes "shop") (bytes "a:b") (bytes "2")
    ≡ data_key (bytes "shop") (bytes "a") (bytes "b:2")
data_key_shared_example = data_key_shared (bytes "shop") (bytes "a") (bytes "b") (bytes "2") refl

abbrev one_key : Bytes → Option Bytes
one_key _ = some (bytes "1")

abbrev keep_all : Bytes → Bool
keep_all _ = true

abbrev scanned : Session Bytes
scanned = record w0.session { scan_gens = (bytes "pizza", 0) ∷ []; reads = (pizza_key, 1) ∷ [] }

scans :
    select_locked text_format one_key keep_all stocked w0.session (bytes "Pizza")
    ≡ some (scanned, bytes "Margherita" ∷ [])
unfolding select_locked scan_durable scan_staged lookup insert apply_ops apply_op
scans = refl

select_locked-IsVisible_example :
    IsVisible text_format one_key keep_all stocked (bytes "Pizza") w0.session (bytes "Margherita")
    × (keep_all (bytes "Margherita") ≡ true)
select_locked-IsVisible_example =
    (select_locked-IsVisible text_format one_key keep_all stocked (bytes "Pizza") w0.session scanned
        (bytes "Margherita" ∷ []) scans (bytes "Margherita")).0
      (inl refl)
