-- ===== src/Storage/RowLock/Invariant.antt =====
-- The invariant of the lock manager, and what each operation keeps of it.
use pizzasql.Prelude.{
  ℕ, ◌≤◌, ◌<◌, Bool, true, false, Option, none, some, [], ◌∷◌, ◌≡◌, refl, arith, ◌==◌,
  if◌then◌else◌, length, Option-cases, Bool-cases, List, inl, inr,
}
use pizzasql.Prelude.Eq.{nat_eq}
use pizzasql.Prelude.Bytes.{Bytes, bytes_eq, bytes_equal_iff}
use pizzasql.Prelude.Int.{pos, negsuc, ◌+ℤ◌}
use pizzasql.Prelude.Map.{
  Map, lookup, remove, Distinct, lookup-insert, insert-Distinct, remove-Distinct, lookup-remove,
  length-insert, length-remove,
}
use pizzasql.Storage.RowLock.{
  Session, LockMode, Verdict, granted, refused, lock_verdict, apply_verdict, RowLockEntry,
  RowLockManager, write_entry, entry, store_fresh, try_lock, release_at, new_manager,
}
use pizzasql.Storage.RowLock.Owners.{Exclusive, granted-Distinct, granted-Exclusive, granted_owned}

-- An entry that the map holds: open, with owners that agree.
pub record EntryIsWf (e : RowLockEntry) : Type 0 where
  pub is_open : e.closed ≡ false
  pub distinct : Distinct e.owners
  pub exclusive : Exclusive e.owners
  pub owned : 1 ≤ length e.owners

pub record IsWf (l : RowLockManager) : Type 0 where
  pub distinct : Distinct l.entries
  pub counted : l.active ≡ pos (length l.entries)
  pub allocated : (k : Bytes) (r : ℕ) → lookup k l.entries ≡ some r → r < l.next
  pub mapped : (k : Bytes) (r : ℕ) → lookup k l.entries ≡ some r → EntryIsWf (l.heap r)
  pub separate :
      (k j : Bytes) (r : ℕ) → lookup k l.entries ≡ some r → lookup j l.entries ≡ some r → k ≡ j

-- The owners of a key, and what a session holds on it.
abbrev pub owners_at : RowLockManager → Option ℕ → Map Session LockMode
owners_at l none = []
owners_at l (some r) = (l.heap r).owners

abbrev pub holds : RowLockManager → Session → Bytes → Option LockMode
holds l o k = lookup o (owners_at l (entry l k))

pub new_manager-IsWf : IsWf new_manager
unfolding lookup
new_manager-IsWf = record {
  distinct = tt;
  counted = refl;
  allocated = λ k r h. absurd (cc);
  mapped = λ k r h. absurd (cc);
  separate = λ k j r h g. absurd (cc);
}

fresh-EntryIsWf :
    (o : Session) (m : LockMode)
    → EntryIsWf (record { closed = false; owners = (o, m) ∷ []; waiters = [] })
unfolding lookup
fresh-EntryIsWf o m = record {
  is_open = refl;
  distinct = (refl, tt);
  exclusive = λ a b n p q. ground arith;
  owned = omega arith;
}

EntryIsWf-if :
    (b : Bool) (e e' : RowLockEntry)
    → (b ≡ true → EntryIsWf e)
    → (b ≡ false → EntryIsWf e')
    → EntryIsWf (if b then e else e')
EntryIsWf-if true e e' h h' = h refl
EntryIsWf-if false e e' h h' = h' refl

pub store_fresh-IsWf :
    (l : RowLockManager) (o : Session) (k : Bytes) (m : LockMode)
    → IsWf l
    → entry l k ≡ none
    → IsWf (store_fresh l o k m)
unfolding store_fresh ◌+ℤ◌
store_fresh-IsWf l o k m w h = record {
  distinct = insert-Distinct k l.next l.entries w.distinct;
  counted = ground (arith, w.counted, length-insert k l.next l.entries);
  allocated = λ j r e.
      ground (arith, lookup-insert k j l.next l.entries, bytes_equal_iff k j, w.allocated j r);
  mapped = λ j r e.
      EntryIsWf-if (r == l.next) _ _ (λ _. fresh-EntryIsWf o m)
        (λ ne.
          w.mapped j r (ground (arith, lookup-insert k j l.next l.entries, bytes_equal_iff k j)));
  separate = λ i j r e f. ground (
    arith,
    lookup-insert k j l.next l.entries,
    bytes_equal_iff k j,
    w.allocated j r,
    lookup-insert k i l.next l.entries,
    bytes_equal_iff k i,
    w.allocated i r,
    w.separate i j r,
  );
}

-- One entry of the heap is written, and stays well formed.
write_entry-IsWf :
    (l : RowLockManager) (r : ℕ) (e : RowLockEntry)
    → IsWf l
    → EntryIsWf e
    → IsWf (record l { heap = write_entry l.heap r e })
write_entry-IsWf l r e w v = record {
  distinct = w.distinct;
  counted = w.counted;
  allocated = w.allocated;
  mapped = λ j q h. EntryIsWf-if (q == r) _ _ (λ _. v) (λ _. w.mapped j q h);
  separate = w.separate;
}

module _ (l : RowLockManager) (o : Session) (k : Bytes) (w : IsWf l) where
  verdict-IsWf :
      (r : ℕ) (mode : LockMode) (v : Verdict)
      → entry l k ≡ some r
      → lock_verdict o mode (l.heap r).owners ≡ v
      → IsWf (apply_verdict l r v).0
  verdict-IsWf r mode (refused p) h g = w
  verdict-IsWf r mode (granted owners') h g =
      let e = w.mapped k r h in
      write_entry-IsWf l r _ w (record {
        is_open = e.is_open;
        distinct = granted-Distinct o mode _ owners' e.distinct g;
        exclusive = granted-Exclusive o mode _ owners' e.distinct e.exclusive g;
        owned = granted_owned o mode _ owners' g;
      })

  -- `tryLock` keeps the invariant.
  pub try_lock-IsWf : (mode : LockMode) → IsWf (try_lock l o k mode).0
  unfolding try_lock
  try_lock-IsWf mode = elim (Option-cases (entry l k)) [
    | inr h ↦ rw h (store_fresh-IsWf l o k mode w h)
    | inl (r, h) ↦ rw (h, (w.mapped k r h).is_open) (verdict-IsWf r mode _ h refl)
  ]

  close-IsWf :
      (r : ℕ) (owners' : Map Session LockMode) (woken : List ℕ)
      → entry l k ≡ some r
      → IsWf (record l {
        heap = write_entry l.heap r (record { closed = true; owners = owners'; waiters = [] });
        entries = remove k l.entries;
        active = l.active +ℤ negsuc 0;
        signalled = woken;
      })
  unfolding ◌+ℤ◌
  close-IsWf r owners' woken h = record {
    distinct = remove-Distinct k l.entries w.distinct;
    counted = ground (arith, w.counted, length-remove k l.entries {v = r} w.distinct h);
    allocated = λ j q e. ground (arith, lookup-remove k j l.entries, w.allocated j q);
    mapped = λ j q e.
        EntryIsWf-if (q == r) _ _
          (λ same.
            absurd
              (ground (arith, lookup-remove k j l.entries, w.separate k j r, bytes_equal_iff k j)))
          (λ ne. w.mapped j q (ground (arith, lookup-remove k j l.entries)));
    separate = λ i j q e f.
        ground (arith, lookup-remove k j l.entries, lookup-remove k i l.entries, w.separate i j q);
  }

  -- `Release` of a key, and one visit of `ReleaseAll` to an entry that the map still holds.
  pub release_at-IsWf : (r : ℕ) → entry l k ≡ some r → IsWf (release_at l o k r)
  unfolding release_at
  release_at-IsWf r h =
      let owners' = remove o (l.heap r).owners in
      elim (Bool-cases (length owners' == 0)) [
        | inl e ↦ rw e (close-IsWf r owners' _ h)
        | inr e ↦ rw e (
            let v = w.mapped k r h in
            write_entry-IsWf l r _ w (record {
              is_open = v.is_open;
              distinct = remove-Distinct o _ v.distinct;
              exclusive = λ a b n p q. ground (
                arith,
                lookup-remove o a (l.heap r).owners,
                lookup-remove o b (l.heap r).owners,
                v.exclusive a b n,
              );
              owned = ground arith;
            }))
      ]
