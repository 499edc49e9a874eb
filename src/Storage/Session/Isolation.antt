-- ===== src/Storage/Session/Isolation.antt =====
-- pkg/storage/tx.go: what a transaction has read and staged, at every point of its runs.
use pizzasql.Prelude.{
  true, false, some, [], ◌≡◌, refl, arith, inl, inr, Option-cases, All, All-map, All-at,
}
use pizzasql.Prelude.Bytes.{Bytes, bytes_eq}
use pizzasql.Prelude.Map.{lookup}
use pizzasql.Storage.Store.{Kv}
use pizzasql.Storage.Store.Versions.{IsNumbered, Write, Write-IsNumbered, Write-IsLater}
use pizzasql.Storage.Session.{
  Session, begin, data_key, staged, to_lower, stage, rollback_to, rollback_log,
  rollback_to_savepoint, abort,
}
use pizzasql.Storage.Session.Manager.{RowFormat, Manager, get_key_with_lsn, KeyRead-cases}
use pizzasql.Storage.Session.Reads.{get_by_pk}
use pizzasql.Storage.Session.Runs.{
  Seen, World, observe, TxRun, begun, others, reading, scanning, inserting, deleting, updating,
  undoing, peeking, saving, restoring, failing, Saved,
}
use pizzasql.Storage.Session.Keys.{
  has_colon, SessionIsKeyed, stage-SessionIsKeyed, rollback_to-SessionIsKeyed, IsKeyed-new_session,
}
use pizzasql.Storage.Session.Steps.{
  StagedFrom, insert_prepared-StagedFrom, delete_by_pk-StagedFrom, update_by_pk-StagedFrom,
}
use pizzasql.Storage.Session.Validation.{
  Vouches, Write-SpeaksFor, note_key-Vouches, get_by_pk-Vouches, select_locked-Vouches,
}

module _ {R : Type 0} (format : RowFormat R) where
  begin-SessionIsKeyed :
      (database : Bytes) (s t : Session R) → begin s ≡ some t → SessionIsKeyed database t
  begin-SessionIsKeyed database s t h =
      let (o, l) : (t.overlay ≡ []) × (t.log ≡ []) = ground arith in
      record { overlay = rw o (IsKeyed-new_session database); log = rw l tt }

  -- A read leaves what is staged.
  get_by_pk_rows :
      (m : Manager) (s : Session R) (table pk : Bytes)
      → ((get_by_pk format true m s table pk).0.overlay ≡ s.overlay)
        × ((get_by_pk format true m s table pk).0.log ≡ s.log)
  unfolding get_by_pk
  get_by_pk_rows m s table pk = ground arith

  -- A read that does not count leaves the session.
  get_by_pk-unread :
      (m : Manager) (s : Session R) (table pk : Bytes) → (get_by_pk format false m s table pk).0 ≡ s
  unfolding get_by_pk
  get_by_pk-unread m s table pk =
      let key = data_key m.database table pk in
      elim (Option-cases (staged s.overlay (to_lower table) key)) [
        | inl (e, st) ↦ rw (get_by_pk, st) refl
        | inr st ↦ elim (KeyRead-cases (get_key_with_lsn format m key)) [
          | inl (row, n, e) ↦ rw (get_by_pk, st, e) refl
          | inr (inl e) ↦ rw (get_by_pk, st, e) refl
          | inr (inr e) ↦ rw (get_by_pk, st, e) refl
        ]
      ]

  abort_rows :
      (s : Session R)
      → ((abort s).overlay ≡ s.overlay) × ((abort s).log ≡ s.log) × ((abort s).reads ≡ s.reads)
  abort_rows s = ground arith

  get_by_pk-SessionIsKeyed :
      (m : Manager) (s : Session R) (table pk : Bytes)
      → SessionIsKeyed m.database s
      → SessionIsKeyed m.database (get_by_pk format true m s table pk).0
  get_by_pk-SessionIsKeyed m s table pk w =
      let (o, l) = get_by_pk_rows m s table pk in
      record { overlay = rw o w.overlay; log = rw l w.log }

  StagedFrom-SessionIsKeyed :
      (database : Bytes) (s t : Session R) (table pk : Bytes)
      → has_colon table ≡ false
      → SessionIsKeyed database s
      → StagedFrom s table (data_key database table pk) t
      → SessionIsKeyed database t
  StagedFrom-SessionIsKeyed database s t table pk c w (inl e) = rw e w
  StagedFrom-SessionIsKeyed database s t table pk c w (inr (x, e)) =
      rw e (stage-SessionIsKeyed database s table pk x c w)

  StagedFrom-Vouches :
      (kv : Kv) (seen : Seen) (s t : Session R) (table key : Bytes)
      → Vouches kv s.reads seen
      → StagedFrom s table key t
      → Vouches kv t.reads seen
  unfolding stage
  StagedFrom-Vouches kv seen s t table key h (inl e) = rw e h
  StagedFrom-Vouches kv seen s t table key h (inr (x, e)) =
      rw e (note_key-Vouches kv s.reads seen key h)

  -- A savepoint is as sound as the session that it copied.
  pub record SavedIsSound (m : Manager) (sp : Saved R) : Type 0 where
    pub vouches : Vouches m.kv sp.copy.reads sp.before
    pub keyed : SessionIsKeyed m.database sp.copy

  -- What holds at every point of a run.
  pub record IsSound (w : World R) : Type 0 where
    pub numbered : IsNumbered w.manager.kv
    pub vouches : Vouches w.manager.kv w.session.reads w.seen
    pub keyed : SessionIsKeyed w.manager.database w.session
    pub saved : All (SavedIsSound w.manager) w.savepoints

  Write-Vouches :
      (kv kv' : Kv) (s : Session R) (seen : Seen)
      → IsNumbered kv
      → Write kv kv'
      → Vouches kv s.reads seen
      → Vouches kv' s.reads seen
  Write-Vouches kv kv' s seen num wr v key x h =
      let (n, e, sp) = v key x h in
      (n, e, Write-SpeaksFor kv kv' key n x (Write-IsLater kv kv' wr num) sp)

  -- A point write at the world, which first reads the row.
  write-IsSound :
      (w : World R) (t : Session R) (table pk : Bytes)
      → has_colon table ≡ false
      → IsSound w
      → StagedFrom
          (get_by_pk format true w.manager w.session table pk).0
          table
          (data_key w.manager.database table pk)
          t
      → IsSound (record w { session = t; seen = observe format w table pk })
  write-IsSound w t table pk c i f =
      let s = (get_by_pk format true w.manager w.session table pk).0 in
      record {
        numbered = i.numbered;
        vouches =
            StagedFrom-Vouches w.manager.kv (observe format w table pk) s t table
              (data_key w.manager.database table pk)
              (get_by_pk-Vouches format w table pk i.numbered i.vouches) f;
        keyed =
            StagedFrom-SessionIsKeyed w.manager.database s t table pk c
              (get_by_pk-SessionIsKeyed w.manager w.session table pk i.keyed) f;
        saved = i.saved;
      }

  pub TxRun-IsSound :
      (m : Manager) (s : Session R) (w : World R) → IsNumbered m.kv → TxRun format m s w → IsSound w
  unfolding rollback_to rollback_log rollback_to_savepoint lookup
  TxRun-IsSound m s _ num (begun t e) = record {
    numbered = num;
    vouches = λ k v h. absurd (cc h);
    keyed = begin-SessionIsKeyed m.database s t e;
    saved = tt;
  }
  TxRun-IsSound m s _ num (others w n d wr r) =
      let i = TxRun-IsSound m s w num r in
      record {
        numbered = Write-IsNumbered w.manager.kv n.kv wr i.numbered;
        vouches = Write-Vouches w.manager.kv n.kv w.session w.seen i.numbered wr i.vouches;
        keyed = rw d i.keyed;
        saved =
            All-map (SavedIsSound w.manager) (SavedIsSound n) w.savepoints
              (λ sp k. record {
                vouches = Write-Vouches w.manager.kv n.kv sp.copy sp.before i.numbered wr k.vouches;
                keyed = rw d k.keyed;
              })
              i.saved;
      }
  TxRun-IsSound m s _ num (reading w table pk r) =
      let i = TxRun-IsSound m s w num r in
      record {
        numbered = i.numbered;
        vouches = get_by_pk-Vouches format w table pk i.numbered i.vouches;
        keyed = get_by_pk-SessionIsKeyed w.manager w.session table pk i.keyed;
        saved = i.saved;
      }
  TxRun-IsSound m s _ num (scanning w pk_of keep table t rows h r) =
      let i = TxRun-IsSound m s w num r in
      let k =
        select_locked-Vouches format pk_of keep w.manager table w.session t rows w.seen i.numbered h
          i.vouches in
      record {
        numbered = i.numbered;
        vouches = k.vouches;
        keyed = record { overlay = rw k.overlay i.keyed.overlay; log = rw k.log i.keyed.log };
        saved = i.saved;
      }
  TxRun-IsSound m s _ num (inserting w table pk row c r) =
      write-IsSound w _ table pk c (TxRun-IsSound m s w num r)
        (insert_prepared-StagedFrom format w.manager w.session table pk row)
  TxRun-IsSound m s _ num (deleting w table pk c r) =
      write-IsSound w _ table pk c (TxRun-IsSound m s w num r)
        (delete_by_pk-StagedFrom format w.manager w.session table pk)
  TxRun-IsSound m s _ num (updating w change table pk c r) =
      write-IsSound w _ table pk c (TxRun-IsSound m s w num r)
        (update_by_pk-StagedFrom format change w.manager w.session table pk)
  TxRun-IsSound m s _ num (undoing w pos r) =
      let i = TxRun-IsSound m s w num r in
      record {
        numbered = i.numbered;
        vouches = i.vouches;
        keyed = rollback_to-SessionIsKeyed w.manager.database w.session pos i.keyed;
        saved = i.saved;
      }
  TxRun-IsSound m s _ num (peeking w table pk r) =
      let i = TxRun-IsSound m s w num r in rw (get_by_pk-unread w.manager w.session table pk) i
  TxRun-IsSound m s _ num (saving w r) =
      let i = TxRun-IsSound m s w num r in
      record {
        numbered = i.numbered;
        vouches = i.vouches;
        keyed = i.keyed;
        saved = (record { vouches = i.vouches; keyed = i.keyed }, i.saved);
      }
  TxRun-IsSound m s _ num (restoring w front back sp e r) =
      let i = TxRun-IsSound m s w num r in
      let k = All-at (SavedIsSound w.manager) front back sp (rw e at i.saved) in
      record {
        numbered = i.numbered;
        vouches = k.vouches;
        keyed = record { overlay = k.keyed.overlay; log = k.keyed.log };
        saved = i.saved;
      }
  TxRun-IsSound m s _ num (failing w r) =
      let i = TxRun-IsSound m s w num r in
      let (o, l, e) = abort_rows w.session in
      record {
        numbered = i.numbered;
        vouches = rw e i.vouches;
        keyed = record { overlay = rw o i.keyed.overlay; log = rw l i.keyed.log };
        saved = i.saved;
      }
