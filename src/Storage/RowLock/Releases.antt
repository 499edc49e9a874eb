-- ===== src/Storage/RowLock/Releases.antt =====
-- What `Release` and `ReleaseAll` promise, each run with no other operation in between.
use pizzasql.Prelude.{
  ℕ, Bool, true, false, none, some, [], ◌∷◌, ◌≡◌, refl, ◌∙◌, arith, ◌==◌, if◌then◌else◌, ◌&&◌,
  length, Option-cases, inl, inr,
}
use pizzasql.Prelude.Eq.{nat_eq}
use pizzasql.Prelude.Bytes.{Bytes, bytes_eq, bytes_equal, bytes_equal_iff}
use pizzasql.Prelude.Map.{Map, lookup, remove, lookup-remove, Distinct}
use pizzasql.Storage.RowLock.{
  Session, RowLockManager, entry, release_at, release, release_range, release_all,
}
use pizzasql.Storage.RowLock.Owners.{no_owner}
use pizzasql.Storage.RowLock.Invariant.{IsWf, holds, release_at-IsWf}

module _ (l : RowLockManager) (o : Session) (k : Bytes) (r : ℕ) where
  entry-release_at :
      (j : Bytes)
      → entry (release_at l o k r) j
        ≡ (if bytes_equal k j && length (remove o (l.heap r).owners) == 0 then none else entry l j)
  unfolding release_at
  entry-release_at j = ground (arith, lookup-remove k j l.entries)

  -- A visit takes what the session holds on the key, and nothing else.
  pub holds-release_at :
      IsWf l
      → entry l k ≡ some r
      → (p : Session) (j : Bytes)
      → holds (release_at l o k r) p j ≡ (if bytes_equal k j && o == p then none else holds l p j)
  unfolding release_at lookup
  holds-release_at w h p j = elim (Option-cases (entry l j)) [
    | inr e ↦ ground (arith, lookup-remove k j l.entries, bytes_equal_iff k j)
    | inl (q, e) ↦ ground (
      arith,
      bytes_equal_iff k j,
      w.separate k j r,
      lookup-remove k j l.entries,
      lookup-remove o p (l.heap r).owners,
      no_owner (remove o (l.heap r).owners) p,
    )
  ]

-- The pairs that the loop has still to visit are in the map.
abbrev Pending : Map Bytes ℕ → RowLockManager → Type 0
Pending rest l = (j : Bytes) (q : ℕ) → lookup j rest ≡ some q → entry l j ≡ some q

abbrev is_key : Bytes → Map Bytes ℕ → Bool
is_key j rest = elim (lookup j rest) [ none ↦ false | some _ ↦ true ]

module _ (o : Session) where
  Pending-release_at :
      (k : Bytes) (r : ℕ) (rest : Map Bytes ℕ) (l : RowLockManager)
      → Distinct ((k, r) ∷ rest)
      → Pending ((k, r) ∷ rest) l
      → Pending rest (release_at l o k r)
  unfolding lookup
  Pending-release_at k r rest l d pending j q h =
      ground (arith, entry-release_at l o k r j, pending j q, bytes_equal_iff k j)

  Pending-head :
      (k : Bytes) (r : ℕ) (rest : Map Bytes ℕ) (l : RowLockManager)
      → Pending ((k, r) ∷ rest) l
      → entry l k ≡ some r
  unfolding lookup
  Pending-head k r rest l pending = pending k r (ground (arith, bytes_equal_iff k k))

  release_range-IsWf :
      (rest : Map Bytes ℕ) (l : RowLockManager)
      → IsWf l
      → Distinct rest
      → Pending rest l
      → IsWf (release_range l o rest)
  unfolding release_range
  release_range-IsWf [] l w d pending = w
  release_range-IsWf ((k, r) ∷ rest) l w d pending =
      release_range-IsWf rest (release_at l o k r)
        (release_at-IsWf l o k w r (Pending-head k r rest l pending)) d.1
        (Pending-release_at k r rest l d pending)

  holds-release_range :
      (rest : Map Bytes ℕ) (l : RowLockManager)
      → IsWf l
      → Distinct rest
      → Pending rest l
      → (p : Session) (j : Bytes)
      → holds (release_range l o rest) p j ≡ (if is_key j rest && o == p then none else holds l p j)
  unfolding release_range lookup
  holds-release_range [] l w d pending p j = refl
  holds-release_range ((k, r) ∷ rest) l w d pending p j =
      let here = Pending-head k r rest l pending in
      holds-release_range rest (release_at l o k r) (release_at-IsWf l o k w r here) d.1
        (Pending-release_at k r rest l d pending) p j
      ∙ ground (arith, holds-release_at l o k r w here p j)

  -- `Release` keeps the invariant.
  pub release-IsWf : (l : RowLockManager) (k : Bytes) → IsWf l → IsWf (release l o k)
  unfolding release
  release-IsWf l k w = elim (Option-cases (entry l k)) [
    | inr h ↦ rw (h, release) w
    | inl (r, h) ↦ rw (h, release) (release_at-IsWf l o k w r h)
  ]

  -- `Release` takes what the session holds on the key, and changes nothing else of who holds what.
  pub holds-release :
      (l : RowLockManager) (k : Bytes)
      → IsWf l
      → (p : Session) (j : Bytes)
      → holds (release l o k) p j ≡ (if bytes_equal k j && o == p then none else holds l p j)
  unfolding release lookup
  holds-release l k w p j = elim (Option-cases (entry l k)) [
    | inr h ↦ ground (arith, bytes_equal_iff k j)
    | inl (r, h) ↦ rw (h, release) (holds-release_at l o k r w h p j)
  ]

  -- `ReleaseAll` keeps the invariant.
  pub release_all-IsWf : (l : RowLockManager) → IsWf l → IsWf (release_all l o)
  unfolding release_all
  release_all-IsWf l w =
      let v = release_range-IsWf l.entries l w w.distinct (λ j q h. h) in
      record {
        distinct = v.distinct;
        counted = v.counted;
        allocated = v.allocated;
        mapped = v.mapped;
        separate = v.separate;
      }

  -- `ReleaseAll` takes everything that the session holds, and changes nothing of what the others
  -- hold.
  pub holds-release_all :
      (l : RowLockManager)
      → IsWf l
      → (p : Session) (j : Bytes)
      → holds (release_all l o) p j ≡ (if o == p then none else holds l p j)
  unfolding release_all lookup
  holds-release_all l w p j =
      holds-release_range l.entries l w w.distinct (λ i q h. h) p j ∙ ground arith
