-- ===== src/Storage/RowLock/Grants.antt =====
-- What `tryLock` promises its callers.
use pizzasql.Prelude.{
  ℕ, Bool, true, false, Option, none, some, ◌≡◌, ◌↔◌, refl, arith, ◌==◌, if◌then◌else◌, ◌&&◌,
  Option-cases, inl, inr,
}
use pizzasql.Prelude.Eq.{nat_eq}
use pizzasql.Prelude.Bytes.{Bytes, bytes_eq, bytes_equal, bytes_equal_iff}
use pizzasql.Prelude.Map.{lookup, lookup-insert}
use pizzasql.Storage.RowLock.{
  Session, LockMode, Verdict, granted, refused, lock_verdict, RowLockManager, entry, store_fresh,
  apply_verdict, try_lock,
}
use pizzasql.Storage.RowLock.Owners.{
  Compatible, granted_mode, lookup-granted, verdict-Compatible, verdict-IsGranted, IsGranted,
}
use pizzasql.Storage.RowLock.Invariant.{IsWf, owners_at, holds}

abbrev pub is_granted : RowLockManager × Bool × Option Session → Bool
is_granted result = result.1

apply_verdict-IsGranted :
    (l : RowLockManager) (r : ℕ) (v : Verdict)
    → (is_granted (apply_verdict l r v) ≡ true) ↔ IsGranted v
apply_verdict-IsGranted l r (granted _) = (λ _. tt, λ _. refl)
apply_verdict-IsGranted l r (refused _) = (λ h. cc, λ h. absurd h)

try_lock_absent :
    (l : RowLockManager) (o : Session) (k : Bytes) (mode : LockMode)
    → entry l k ≡ none
    → try_lock l o k mode ≡ (store_fresh l o k mode, true, none)
unfolding try_lock
try_lock_absent l o k mode h = rw h

try_lock_present :
    (l : RowLockManager) (o : Session) (k : Bytes) (mode : LockMode) {r : ℕ}
    → entry l k ≡ some r
    → (l.heap r).closed ≡ false
    → try_lock l o k mode ≡ apply_verdict l r (lock_verdict o mode (l.heap r).owners)
unfolding try_lock
try_lock_present l o k mode h c = rw (h, c)

-- On a well-formed manager `tryLock` grants a request exactly when it fits what the other sessions
-- hold on the key: they hold nothing, or they all hold FOR SHARE and the request is FOR SHARE.
pub try_lock-granted_iff :
    (l : RowLockManager) (o : Session) (k : Bytes) (mode : LockMode)
    → IsWf l
    → (is_granted (try_lock l o k mode) ≡ true) ↔ Compatible o mode (owners_at l (entry l k))
unfolding try_lock lookup
try_lock-granted_iff l o k mode w = elim (Option-cases (entry l k)) [
  | inr h ↦ rw h (λ _ p m ne e. absurd (cc), λ _. refl)
  | inl (r, h) ↦
      let e = w.mapped k r h in
      rw (h, e.is_open)
        (let i = apply_verdict-IsGranted l r (lock_verdict o mode (l.heap r).owners) in
          (
            λ g. verdict-Compatible o mode _ e.distinct e.exclusive (i.0 g),
            λ c. i.1 (verdict-IsGranted o mode _ e.distinct c),
          ))
]

module _ (l : RowLockManager) (o : Session) (k : Bytes) (mode : LockMode) (w : IsWf l) (p : Session)
    (j : Bytes) where
  abbrev granted_holds : Option LockMode
  granted_holds =
      if bytes_equal k j && o == p then some (granted_mode mode (holds l o k)) else holds l p j

  holds-store_fresh : entry l k ≡ none → holds (store_fresh l o k mode) p j ≡ granted_holds
  unfolding store_fresh lookup
  holds-store_fresh h = elim (Option-cases (entry l j)) [
    | inr g ↦ ground (arith, lookup-insert k j l.next l.entries, bytes_equal_iff k j)
    | inl (q, g) ↦
        ground (arith, lookup-insert k j l.next l.entries, bytes_equal_iff k j, w.allocated j q g)
  ]

  holds-apply_verdict :
      (r : ℕ) (v : Verdict)
      → entry l k ≡ some r
      → lock_verdict o mode (l.heap r).owners ≡ v
      → is_granted (apply_verdict l r v) ≡ true
      → holds (apply_verdict l r v).0 p j ≡ granted_holds
  holds-apply_verdict r (refused _) h g t = absurd (cc)
  holds-apply_verdict r (granted owners') h g t = elim (Option-cases (entry l j)) [
    | inr e ↦ ground (arith, bytes_equal_iff k j)
    | inl (q, e) ↦ ground (
      arith,
      bytes_equal_iff k j,
      w.separate k j r,
      lookup-granted o mode (l.heap r).owners owners' p g,
    )
  ]

  -- After a grant the owner holds the stronger of what it asked for and what it held on the key,
  -- and nothing else has changed of what any session holds on any key.
  pub holds-try_lock :
      is_granted (try_lock l o k mode) ≡ true → holds (try_lock l o k mode).0 p j ≡ granted_holds
  holds-try_lock t = elim (Option-cases (entry l k)) [
    | inr h ↦ rw (try_lock_absent l o k mode h) (holds-store_fresh h)
    | inl (r, h) ↦
        let same = try_lock_present l o k mode h (w.mapped k r h).is_open in
        rw same (holds-apply_verdict r _ h refl (rw same at t))
  ]

-- A refused request leaves the manager as it was.
pub try_lock_refused :
    (l : RowLockManager) (o : Session) (k : Bytes) (mode : LockMode)
    → is_granted (try_lock l o k mode) ≡ false
    → (try_lock l o k mode).0 ≡ l
unfolding try_lock
try_lock_refused l o k mode h = ground arith
