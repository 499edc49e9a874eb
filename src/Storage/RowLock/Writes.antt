-- ===== src/Storage/RowLock/Writes.antt =====
-- pkg/storage/rowlock.go: `BeginWrite`, `BeginTableWrite` and the function that they return.
use pizzasql.Prelude.{
  ℕ, ◌+◌, ◌-◌, Bool, true, false, not, ◌||◌, ◌&&◌, none, some, List, [], ◌∷◌, ◌≡◌, ◌↔◌, ◌≢◌, refl,
  arith, ◌==◌, if◌then◌else◌, length, Option-cases, Bool-cases, inl, inr,
}
use pizzasql.Prelude.Eq.{nat_eq}
use pizzasql.Prelude.Bytes.{Bytes, bytes_eq, bytes_equal, bytes_equal_iff, has_prefix}
use pizzasql.Prelude.Int.{ℤ, pos, negsuc}
use pizzasql.Prelude.Map.{Map, lookup, Distinct}
use pizzasql.Storage.RowLock.{Session, LockMode, LockError, err_row_locked, RowLockManager, entry}
use pizzasql.Storage.RowLock.Invariant.{IsWf, owners_at, holds}

-- `for holder := range e.owners { if holder != owner { conflict = true … } }`
unfoldable pub held_by_other : Session → Map Session LockMode → Bool
held_by_other owner [] = false
held_by_other owner ((holder, _) ∷ rest) = not (holder == owner) || held_by_other owner rest

-- The loop over the keys.
unfoldable pub key_conflict : RowLockManager → Session → List Bytes → Bool
unfolding held_by_other
key_conflict l owner [] = false
key_conflict l owner (key ∷ keys) =
    held_by_other owner (owners_at l (entry l key)) || key_conflict l owner keys

-- `matched`
unfoldable pub matches_prefix : Bytes → List Bytes → Bool
matches_prefix k [] = false
matches_prefix k (prefix ∷ prefixes) = has_prefix k prefix || matches_prefix k prefixes

-- The `Range` over the entries, stopped at the first conflict.
unfoldable pub range_conflict : RowLockManager → Session → List Bytes → Map Bytes ℕ → Bool
unfolding held_by_other matches_prefix
range_conflict l owner prefixes [] = false
range_conflict l owner prefixes ((k, r) ∷ rest) =
    matches_prefix k prefixes && held_by_other owner (l.heap r).owners
    || range_conflict l owner prefixes rest

abbrev pub is_zero : ℤ → Bool
is_zero (pos n) = n == 0
is_zero (negsuc _) = false

pub data WriteResult : Type 0 where
  begun : RowLockManager → WriteResult
  write_refused : LockError → WriteResult

-- `BeginWrite`: the gate stays held for reading after success, and is given back after a refusal.
unfoldable pub begin_write : RowLockManager → Session → List Bytes → List Bytes → WriteResult
unfolding key_conflict range_conflict
begin_write l owner keys prefixes =
    let held = record l { readers = l.readers + 1 } in
    if is_zero l.active
    then begun held
    else if key_conflict l owner keys
    then write_refused err_row_locked
    else if not (length prefixes == 0) && range_conflict l owner prefixes l.entries
    then write_refused err_row_locked
    else begun held

-- `BeginTableWrite`
abbrev pub begin_table_write : RowLockManager → Session → Bytes → WriteResult
begin_table_write l owner prefix = begin_write l owner [] (prefix ∷ [])

-- The function that `BeginWrite` returns.
unfoldable pub end_write : RowLockManager → RowLockManager
end_write l = record l { readers = l.readers - 1 }

unfoldable pub contains_key : Bytes → List Bytes → Bool
contains_key k [] = false
contains_key k (key ∷ keys) = bytes_equal key k || contains_key k keys

pub empty_map : (m : Map Bytes ℕ) → length m ≡ 0 → (k : Bytes) → lookup k m ≡ none
unfolding lookup
empty_map [] h k = refl
empty_map (_ ∷ _) h k = absurd (omega arith)

-- The write names the key, or its table prefixes cover it.
abbrev pub covers : List Bytes → List Bytes → Bytes → Bool
covers keys prefixes k = contains_key k keys || matches_prefix k prefixes

-- Nobody but the owner holds a row lock on a key that the write covers.
abbrev pub IsClear : RowLockManager → Session → List Bytes → List Bytes → Type 0
IsClear l owner keys prefixes =
    (k : Bytes) (p : Session) (m : LockMode)
    → covers keys prefixes k ≡ true
    → holds l p k ≡ some m
    → p ≡ owner

held_by_other_sound :
    (owner : Session) (owners : Map Session LockMode) (p : Session) (m : LockMode)
    → held_by_other owner owners ≡ false
    → lookup p owners ≡ some m
    → p ≡ owner
unfolding held_by_other lookup
held_by_other_sound owner [] p m h e = absurd (cc)
held_by_other_sound owner ((q, n) ∷ rest) p m h e =
    ground (arith, held_by_other_sound owner rest p m)

-- A holder that stands in the way, where there is one.
blocker : Session → Map Session LockMode → Session × LockMode
blocker owner [] = (owner, LockMode.lock_share)
blocker owner ((q, n) ∷ rest) = if q == owner then blocker owner rest else (q, n)

blocker_lem :
    (owner : Session) (owners : Map Session LockMode)
    → Distinct owners
    → held_by_other owner owners ≡ true
    → ((blocker owner owners).0 ≢ owner)
      × (lookup (blocker owner owners).0 owners ≡ some (blocker owner owners).1)
unfolding held_by_other lookup blocker
blocker_lem owner [] d h = absurd (cc)
blocker_lem owner ((q, n) ∷ rest) d h = ground (arith, blocker_lem owner rest d.1)

module _ (l : RowLockManager) (owner : Session) (w : IsWf l) where
  owners_at-Distinct : (k : Bytes) → Distinct (owners_at l (entry l k))
  owners_at-Distinct k = elim (Option-cases (entry l k)) [
    | inr h ↦ rw h tt
    | inl (r, h) ↦ rw h (w.mapped k r h).distinct
  ]

  no_conflict_key :
      (keys : List Bytes) (k : Bytes) (p : Session) (m : LockMode)
      → key_conflict l owner keys ≡ false
      → contains_key k keys ≡ true
      → holds l p k ≡ some m
      → p ≡ owner
  unfolding key_conflict contains_key
  no_conflict_key [] k p m h c e = absurd (cc)
  no_conflict_key (key ∷ keys) k p m h c e = elim (Bool-cases (bytes_equal key k)) [
    | inl same ↦
        held_by_other_sound owner (owners_at l (entry l k)) p m
          (rw (← (bytes_equal_iff key k).0 same) (ground arith)) e
    | inr other ↦ no_conflict_key keys k p m (ground arith) (ground arith) e
  ]

  no_conflict_range :
      (prefixes : List Bytes) (rest : Map Bytes ℕ) (k : Bytes) (r : ℕ) (p : Session) (m : LockMode)
      → range_conflict l owner prefixes rest ≡ false
      → matches_prefix k prefixes ≡ true
      → lookup k rest ≡ some r
      → lookup p (l.heap r).owners ≡ some m
      → p ≡ owner
  unfolding range_conflict lookup
  no_conflict_range prefixes [] k r p m h c e f = absurd (cc)
  no_conflict_range prefixes ((j, q) ∷ rest) k r p m h c e f = ground (
    arith,
    bytes_equal_iff j k,
    held_by_other_sound owner (l.heap q).owners p m,
    no_conflict_range prefixes rest k r p m,
  )

  conflict_key :
      (keys : List Bytes)
      → key_conflict l owner keys ≡ true
      → (k : Bytes) × (p : Session) × (m : LockMode) × (contains_key k keys ≡ true)
        × (holds l p k ≡ some m)
        × (p ≢ owner)
  unfolding key_conflict contains_key
  conflict_key [] h = absurd (cc)
  conflict_key (key ∷ keys) h =
      elim (Bool-cases (held_by_other owner (owners_at l (entry l key)))) [
        | inl here ↦
            let (p, m) = blocker owner (owners_at l (entry l key)) in
            let b = blocker_lem owner (owners_at l (entry l key)) (owners_at-Distinct key) here in
            (key, p, m, ground (arith, bytes_equal_iff key key), b.1, b.0)
        | inr later ↦
            let (k, p, m, c, e, ne) = conflict_key keys (ground arith) in
            (k, p, m, ground arith, e, ne)
      ]

  -- A conflict that the range over `rest` meets, where the map holds the pairs of `rest`.
  conflict_range :
      (prefixes : List Bytes) (rest : Map Bytes ℕ)
      → Distinct rest
      → ((j : Bytes) (q : ℕ) → lookup j rest ≡ some q → entry l j ≡ some q)
      → range_conflict l owner prefixes rest ≡ true
      → (k : Bytes) × (p : Session) × (m : LockMode) × (matches_prefix k prefixes ≡ true)
        × (holds l p k ≡ some m)
        × (p ≢ owner)
  unfolding range_conflict lookup
  conflict_range prefixes [] d held h = absurd (cc)
  conflict_range prefixes ((j, q) ∷ rest) d held h =
      let at = held j q (ground (arith, bytes_equal_iff j j)) in
      elim (Bool-cases (matches_prefix j prefixes && held_by_other owner (l.heap q).owners)) [
        | inl here ↦
            let (p, m) = blocker owner (l.heap q).owners in
            let b = blocker_lem owner (l.heap q).owners (w.mapped j q at).distinct (ground arith) in
            (j, p, m, ground arith, rw at b.1, b.0)
        | inr later ↦
            conflict_range prefixes rest d.1
              (λ i r e. held i r (ground (arith, bytes_equal_iff j i))) (ground arith)
      ]

  no_locks_at : (k : Bytes) → is_zero l.active ≡ true → entry l k ≡ none
  no_locks_at k z = empty_map l.entries (ground (arith, w.counted)) k

abbrev pub has_begun : WriteResult → Bool
has_begun (begun _) = true
has_begun (write_refused _) = false

prefix_given :
    (k : Bytes) (prefixes : List Bytes)
    → matches_prefix k prefixes ≡ true
    → (length prefixes == 0) ≡ false
unfolding matches_prefix
prefix_given k [] h = cc
prefix_given k (_ ∷ _) h = ground arith

begun-IsClear :
    (l : RowLockManager) (owner : Session) (keys prefixes : List Bytes)
    → IsWf l
    → has_begun (begin_write l owner keys prefixes) ≡ true
    → IsClear l owner keys prefixes
unfolding begin_write lookup
begun-IsClear l owner keys prefixes w h k p m c e = elim (Option-cases (entry l k)) [
  | inr absent ↦ absurd (ground arith)
  | inl (r, at) ↦ ground (
    arith,
    no_locks_at l owner w k,
    no_conflict_key l owner w keys k p m,
    no_conflict_range l owner w prefixes l.entries k r p m,
    prefix_given k prefixes,
  )
]

IsClear-begun :
    (l : RowLockManager) (owner : Session) (keys prefixes : List Bytes)
    → IsWf l
    → IsClear l owner keys prefixes
    → has_begun (begin_write l owner keys prefixes) ≡ true
unfolding begin_write
IsClear-begun l owner keys prefixes w clear = elim (Bool-cases (key_conflict l owner keys)) [
  | inl conflict ↦
      let (k, p, m, c, e, ne) = conflict_key l owner w keys conflict in
      absurd (ne (clear k p m (ground arith) e))
  | inr free ↦ (elim (Bool-cases (range_conflict l owner prefixes l.entries)) [
    | inl conflict ↦
        let (k, p, m, c, e, ne) =
          conflict_range l owner w prefixes l.entries w.distinct (λ j q h. h) conflict in
        absurd (ne (clear k p m (ground arith) e))
    | inr clear' ↦ ground arith
  ])
]

-- On a well-formed manager `BeginWrite` succeeds exactly if nobody but the owner holds a row lock
-- on a key that the write names, or that starts with one of its table prefixes.
pub begin_write_iff :
    (l : RowLockManager) (owner : Session) (keys prefixes : List Bytes)
    → IsWf l
    → (has_begun (begin_write l owner keys prefixes) ≡ true) ↔ IsClear l owner keys prefixes
begin_write_iff l owner keys prefixes w =
    (begun-IsClear l owner keys prefixes w, IsClear-begun l owner keys prefixes w)
