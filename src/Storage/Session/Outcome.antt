-- ===== src/Storage/Session/Outcome.antt =====
-- pkg/storage/tx.go: what a transaction that commits has read and leaves behind.
use pizzasql.Prelude.{ℕ, ◌<◌, false, Option, none, some, ◌≡◌, ◌≢◌, refl, sym, ◌∙◌}
use pizzasql.Prelude.Bytes.{Bytes, bytes_eq}
use pizzasql.Prelude.Map.{lookup}
use pizzasql.Storage.RowLock as Locks
use pizzasql.Storage.Store.Versions.{IsNumbered}
use pizzasql.Storage.Session.{OverlayEntry, Session, staged}
use pizzasql.Storage.Session.Manager.{RowFormat, Manager}
use pizzasql.Storage.Session.Batch.{read_checks}
use pizzasql.Storage.Session.Commit.{committed, Delivery, Constraints, commit}
use pizzasql.Storage.Session.Effects.{checks_hold-sort_by}
use pizzasql.Storage.Session.Keys.{IsKeyed-unique}
use pizzasql.Storage.Session.Publication.{commit-committed}
use pizzasql.Storage.Session.Validation.{check-SpeaksFor, checks_hold-read_checks}
use pizzasql.Storage.Session.Runs.{World, TxRun}
use pizzasql.Storage.Session.Isolation.{TxRun-IsSound}
use pizzasql.Storage.Session.Images.{
  stored_row, last_op-overlay, last_op-overlay_none, op_for-overlay, left_by-op_for,
  contents-IsPublished,
}

-- A transaction that commits what it wrote publishes exactly what it staged. Its run has taken rows
-- of tables whose names hold no colon. After the commit, a staged row has its final image in the
-- store, encoded, and is absent from the store if it is staged as deleted; whatever is not staged
-- has the value that the store held before.
pub commit-publishes :
    {R : Type 0} (format : RowFormat R) (c : Constraints R) (delivery : Delivery) (m m' : Manager)
    (me : Locks.Session) (s s' : Session R) (w : World R) (n : ℕ)
    → IsNumbered m.kv
    → TxRun format m s w
    → 0 < n
    → commit format c delivery w.manager me w.session ≡ (m', s', committed n)
    → ((table key : Bytes) (e : OverlayEntry R)
        → staged w.session.overlay table key ≡ some e
        → (lookup key m'.kv.contents ≡ stored_row format c table e)
          × (e.absent ≡ false → lookup key m'.kv.contents ≢ none))
      × ((key : Bytes)
          → ((table : Bytes) → staged w.session.overlay table key ≡ none)
          → lookup key m'.kv.contents ≡ lookup key w.manager.kv.contents)
commit-publishes {R} format c delivery m m' me s s' w n num run pos h =
    let i = TxRun-IsSound format m s w num run in
    let (p, _) = commit-committed format c delivery w.manager m' me w.session s' n pos h in
    let k = i.keyed.overlay in
    (
      λ table key e st.
          let only =
            λ (u : Bytes) (x : OverlayEntry R) (hx : staged w.session.overlay u key ≡ some x).
              IsKeyed-unique w.manager.database w.session.overlay u table key x e k hx st in
          let op =
            last_op-overlay format c key table e w.session.overlay p.final p.ops k.tidy p.overlay
              p.encoded st only in
          let some_op =
            op_for-overlay format c table key e w.session.overlay p.final p.ops p.overlay p.encoded
              st in
          let at = contents-IsPublished format c w.manager m' w.session n p key in
          let (value, put) =
            left_by-op_for format c table key e (lookup key w.manager.kv.contents) some_op in
          let is : lookup key m'.kv.contents ≡ stored_row format c table e = at ∙ rw op value in
          (is, λ here. λ gone. put here (sym is ∙ gone)),
      λ key none_staged.
          let op =
            last_op-overlay_none format c key w.session.overlay p.final p.ops k.tidy p.overlay
              p.encoded none_staged in
          contents-IsPublished format c w.manager m' w.session n p key ∙ rw op refl,
    )

-- When a transaction that wrote something commits, everything that it has read and not taken back
-- is still so: each key has, in the store that the commit meets, the value that the transaction
-- last read under it (or none, if it found none), whatever other clients wrote in the meantime. A
-- rollback to a savepoint takes back what was read after the savepoint. A scan that locks its rows
-- and a read by `GetByPKNoRead` do not count as reads; every other scan counts for the rows that it
-- decoded.
pub commit-reads :
    {R : Type 0} (format : RowFormat R) (c : Constraints R) (delivery : Delivery) (m m' : Manager)
    (me : Locks.Session) (s s' : Session R) (w : World R) (n : ℕ)
    → IsNumbered m.kv
    → TxRun format m s w
    → 0 < n
    → commit format c delivery w.manager me w.session ≡ (m', s', committed n)
    → (key : Bytes) (v : Option Bytes) → lookup key w.seen ≡ some v
    → lookup key w.manager.kv.contents ≡ v
commit-reads format c delivery m m' me s s' w n num run pos h key v saw =
    let i = TxRun-IsSound format m s w num run in
    let (p, _) = commit-committed format c delivery w.manager m' me w.session s' n pos h in
    let (x, e, sp) = i.vouches key v saw in
    check-SpeaksFor w.manager.kv key x v sp (
      checks_hold-read_checks w.manager.kv w.session.reads key x
        (sym (checks_hold-sort_by w.manager.kv (read_checks w.session.reads)) ∙ p.checked) e)
