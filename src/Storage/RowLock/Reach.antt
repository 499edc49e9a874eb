-- ===== src/Storage/RowLock/Reach.antt =====
-- What holds of the row locks in every state that the interleavings of their steps reach.
use pizzasql.Prelude.{
  ℕ, ◌+◌, true, false, some, List, [], ◌∷◌, ◌++◌, ◌≡◌, refl, ap, ◌∙◌, arith, length, length-append,
  Option-cases, Bool-cases, inl, inr, All, All-map, All-without, All-at,
}
use pizzasql.Prelude.Eq.{nat_eq}
use pizzasql.Prelude.Bytes.{Bytes, bytes_eq}
use pizzasql.Prelude.Map.{lookup}
use pizzasql.Storage.RowLock.{
  Session, LockMode, lock_update, RowLockManager, entry, try_lock, release_at,
}
use pizzasql.Storage.RowLock.Invariant.{
  IsWf, holds, new_manager-IsWf, try_lock-IsWf, release_at-IsWf,
}
use pizzasql.Storage.RowLock.Releases.{holds-release_at}
use pizzasql.Storage.RowLock.Writes.{
  begun, begin_write, end_write, covers, IsClear, begin_write_iff,
}
use pizzasql.Storage.RowLock.Gate.{readers-try_lock, readers-release_at, begun_lem, IsWf-readers}
use pizzasql.Storage.RowLock.Steps.{
  Write, Load, System, Step, load, lock, lock_late, visit, forget, begin, finish, Reach, start,
  next,
}
use pizzasql.Storage.RowLock.Agreement.{
  AllAgree, Agrees-none, try_lock_loaded-AllAgree, release_at-AllAgree,
}
use pizzasql.Storage.RowLock.Loads.{IsLoaded, try_lock-IsLoaded, try_lock_late, release_at-IsLoaded}

-- Stale releases included, the owners of every entry agree.
Step-AllAgree : {s t : System} → Step s t → AllAgree s.manager → AllAgree t.manager
unfolding try_lock begin_write end_write
Step-AllAgree (load s v h) a = a
Step-AllAgree (lock s o k m h) a = try_lock_loaded-AllAgree s.manager o k m (entry s.manager k) a
Step-AllAgree (lock_late s before after v m h e n) a =
    try_lock_loaded-AllAgree s.manager v.owner v.key m (some v.loaded) a
Step-AllAgree (visit s before after v e) a = release_at-AllAgree s.manager v.owner v.key v.loaded a
Step-AllAgree (forget s o) a = a
Step-AllAgree (begin s w l' h) a = rw (begun_lem s.manager l' w.owner w.keys w.prefixes h) a
Step-AllAgree (finish s before after w e) a = a

Reach-AllAgree : {s : System} → Reach s → AllAgree s.manager
Reach-AllAgree start = λ r. Agrees-none
Reach-AllAgree (next r st) = Step-AllAgree st (Reach-AllAgree r)

abbrev ClearFor : RowLockManager → Write → Type 0
ClearFor l w = IsClear l w.owner w.keys w.prefixes

pub record IsSafe (s : System) : Type 0 where
  pub manager_wf : IsWf s.manager
  pub gate : s.manager.readers ≡ length s.writes
  pub clear : All (ClearFor s.manager) s.writes
  pub loaded : All (IsLoaded s.manager) s.loads

-- What was held after the step was held before it.
abbrev HoldsLess : RowLockManager → RowLockManager → Type 0
HoldsLess l l' =
    (p : Session) (k : Bytes) (m : LockMode) → holds l' p k ≡ some m → holds l p k ≡ some m

All-HoldsLess :
    (l l' : RowLockManager) (ws : List Write)
    → HoldsLess l l'
    → All (ClearFor l) ws
    → All (ClearFor l') ws
All-HoldsLess l l' ws less =
    All-map (ClearFor l) (ClearFor l') ws (λ w c k p m h e. c k p m h (less p k m e))

no_writes : (P : Write → Type 0) (ws : List Write) → length ws ≡ 0 → All P ws
no_writes P [] h = tt
no_writes P (_ ∷ _) h = absurd (omega arith)

length-without :
    (before after : List Write) (w : Write)
    → length (before ++ w ∷ after) ≡ length (before ++ after) + 1
length-without before after w =
    omega (arith, length-append {0} before (w ∷ after), length-append {0} before after)

begin-IsSafe :
    (s : System) (w : Write) (l' : RowLockManager)
    → IsSafe s
    → begin_write s.manager w.owner w.keys w.prefixes ≡ begun l'
    → IsSafe (record s { manager = l'; writes = w ∷ s.writes })
begin-IsSafe s w l' safe h =
    let clear =
      (begin_write_iff s.manager w.owner w.keys w.prefixes safe.manager_wf).0 (rw h refl) in
    rw (begun_lem s.manager l' w.owner w.keys w.prefixes h) (record {
      manager_wf = IsWf-readers s.manager _ safe.manager_wf;
      gate = omega (arith, safe.gate);
      clear = (
        clear,
        All-HoldsLess s.manager (record s.manager { readers = s.manager.readers + 1 }) s.writes
            (λ p k m e. e) safe.clear,
      );
      loaded = All-map _ _ s.loads (λ v i. record { old = i.old; current = i.current }) safe.loaded;
    })

lock-IsSafe :
    (s : System) (o : Session) (k : Bytes) (m : LockMode) (loads : List Load)
    → s.manager.readers ≡ 0
    → IsSafe s
    → All (IsLoaded s.manager) loads
    → IsSafe (record s { manager = (try_lock s.manager o k m).0; loads = loads })
lock-IsSafe s o k m loads free safe i = record {
  manager_wf = try_lock-IsWf s.manager o k safe.manager_wf m;
  gate = readers-try_lock s.manager o k m ∙ safe.gate;
  clear = no_writes _ s.writes (omega (arith, safe.gate));
  loaded = All-map _ _ loads (try_lock-IsLoaded s.manager o k m safe.manager_wf) i;
}

-- A release whose entry is open.
visit-IsSafe :
    (s : System) (before after : List Load) (v : Load) (stale : ℕ)
    → (s.manager.heap v.loaded).closed ≡ false
    → s.loads ≡ before ++ v ∷ after
    → IsSafe s
    → IsSafe (record s {
      manager = release_at s.manager v.owner v.key v.loaded;
      loads = before ++ after;
      stale = stale;
    })
visit-IsSafe s before after v stale c e safe =
    let all = rw e at safe.loaded in
    let here = (All-at (IsLoaded s.manager) before after v all).current c in
    record {
      manager_wf = release_at-IsWf s.manager v.owner v.key safe.manager_wf v.loaded here;
      gate = readers-release_at s.manager v.owner v.key v.loaded ∙ safe.gate;
      clear =
          All-HoldsLess s.manager (release_at s.manager v.owner v.key v.loaded) s.writes
            (λ p j m x.
              ground
                (arith, holds-release_at s.manager v.owner v.key v.loaded safe.manager_wf here p j))
            safe.clear;
      loaded =
          All-map _ _ (before ++ after)
            (release_at-IsLoaded s.manager v.owner v.key v.loaded safe.manager_wf here)
            (All-without (IsLoaded s.manager) before after v all);
    }

-- Every step that is no stale release keeps the locks well formed and the writes in flight clear of
-- the locks of others.
Step-IsSafe : {s t : System} → Step s t → t.stale ≡ 0 → (s.stale ≡ 0 → IsSafe s) → IsSafe t
Step-IsSafe (load s v h) z before =
    let safe = before z in
    record {
      manager_wf = safe.manager_wf;
      gate = safe.gate;
      clear = safe.clear;
      loaded = (
        record { old = safe.manager_wf.allocated v.key v.loaded h; current = λ _. h },
        safe.loaded,
      );
    }
Step-IsSafe (lock s o k m free) z before =
    lock-IsSafe s o k m s.loads free (before z) (before z).loaded
Step-IsSafe (lock_late s front back v m free e gone) z before =
    let safe = before z in
    let all = rw e at safe.loaded in
    rw (try_lock_late s.manager v m (All-at (IsLoaded s.manager) front back v all) gone) (
      lock-IsSafe s v.owner v.key m (front ++ back) free safe
        (All-without (IsLoaded s.manager) front back v all))
Step-IsSafe (visit s front back v e) z before = elim (Bool-cases (s.manager.heap v.loaded).closed) [
  | inl c ↦ absurd (ground arith)
  | inr c ↦ visit-IsSafe s front back v _ c e (before (ground arith))
]
Step-IsSafe (forget s o) z before =
    let safe = before z in
    let w = safe.manager_wf in
    record {
      manager_wf = record {
        distinct = w.distinct;
        counted = w.counted;
        allocated = w.allocated;
        mapped = w.mapped;
        separate = w.separate;
      };
      gate = safe.gate;
      clear = safe.clear;
      loaded = All-map _ _ s.loads (λ v i. record { old = i.old; current = i.current }) safe.loaded;
    }
Step-IsSafe (begin s w l' h) z before = begin-IsSafe s w l' (before z) h
Step-IsSafe (finish s front back w e) z before =
    let safe = before z in
    record {
      manager_wf = unfold end_write in IsWf-readers s.manager _ safe.manager_wf;
      gate = unfold end_write in omega (arith, safe.gate, ap length e, length-without front back w);
      clear =
          unfold end_write in
          All-HoldsLess s.manager (end_write s.manager) (front ++ back) (λ p k m h. h)
            (All-without (ClearFor s.manager) front back w (rw e at safe.clear));
      loaded =
          unfold end_write in
          All-map _ _ s.loads (λ v i. record { old = i.old; current = i.current }) safe.loaded;
    }

Reach-IsSafe : {s : System} → Reach s → s.stale ≡ 0 → IsSafe s
Reach-IsSafe start z = record {
  manager_wf = new_manager-IsWf;
  gate = refl;
  clear = tt;
  loaded = tt;
}
Reach-IsSafe (next r st) z = Step-IsSafe st z (Reach-IsSafe r)

-- In every reachable state, stale releases included, a session that holds a row FOR UPDATE is the
-- only holder of the row.
pub update_lock_exclusive :
    {s : System} (o p : Session) (k : Bytes) (m : LockMode)
    → Reach s
    → holds s.manager o k ≡ some lock_update
    → holds s.manager p k ≡ some m
    → p ≡ o
unfolding lookup
update_lock_exclusive {s} o p k m r ho hp = elim (Option-cases (entry s.manager k)) [
  | inr absent ↦ absurd (ground arith)
  | inl (q, at) ↦ (Reach-AllAgree r q).exclusive o p m (rw at at ho) (rw at at hp)
]

-- In every state reached without a stale release, one whose entry was closed by another release
-- after it had loaded it, this holds: while a write is in flight, nobody but its owner holds a row
-- lock on a key that the write names or covers by a table prefix.
pub write_excludes_locks :
    {s : System} (w : Write) (before after : List Write) (k : Bytes) (p : Session) (m : LockMode)
    → Reach s
    → s.stale ≡ 0
    → s.writes ≡ before ++ w ∷ after
    → covers w.keys w.prefixes k ≡ true
    → holds s.manager p k ≡ some m
    → p ≡ w.owner
write_excludes_locks {s} w before after k p m r z e c h =
    All-at (ClearFor s.manager) before after w (rw e at (Reach-IsSafe r z).clear) k p m c h
