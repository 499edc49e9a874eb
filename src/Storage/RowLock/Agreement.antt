-- ===== src/Storage/RowLock/Agreement.antt =====
-- What every interleaving keeps of the entries, stale releases included: the owners of each object
-- on the heap agree.
use pizzasql.Prelude.{
  ℕ, Bool, true, false, Option, none, some, [], ◌∷◌, ◌≡◌, arith, ◌==◌, if◌then◌else◌, Bool-cases,
  inl, inr, length, refl,
}
use pizzasql.Prelude.Eq.{nat_eq}
use pizzasql.Prelude.Bytes.{Bytes, bytes_eq}
use pizzasql.Prelude.Map.{Map, lookup, remove, Distinct, lookup-remove, remove-Distinct}
use pizzasql.Storage.RowLock.{
  Session, LockMode, Verdict, granted, refused, lock_verdict, apply_verdict, RowLockManager,
  RowLockEntry, store_fresh, try_lock_loaded, release_at,
}
use pizzasql.Storage.RowLock.Owners.{Exclusive, granted-Distinct, granted-Exclusive}

pub record Agrees (owners : Map Session LockMode) : Type 0 where
  pub distinct : Distinct owners
  pub exclusive : Exclusive owners

abbrev pub AllAgree : RowLockManager → Type 0
AllAgree l = (r : ℕ) → Agrees (l.heap r).owners

pub Agrees-none : Agrees []
unfolding lookup
Agrees-none = record { distinct = tt; exclusive = λ o p m a b. absurd (cc a) }

Agrees-one : (o : Session) (m : LockMode) → Agrees ((o, m) ∷ [])
unfolding lookup
Agrees-one o m = record { distinct = (refl, tt); exclusive = λ a b n p q. ground arith }

Agrees-if :
    (b : Bool) (e e' : RowLockEntry)
    → Agrees e.owners
    → Agrees e'.owners
    → Agrees (if b then e else e').owners
Agrees-if true e e' h h' = h
Agrees-if false e e' h h' = h'

Agrees-remove :
    (o : Session) (owners : Map Session LockMode) → Agrees owners → Agrees (remove o owners)
Agrees-remove o owners a = record {
  distinct = remove-Distinct o owners a.distinct;
  exclusive = λ p q m x y.
      ground (arith, lookup-remove o p owners, lookup-remove o q owners, a.exclusive p q m);
}

store_fresh-AllAgree :
    (l : RowLockManager) (o : Session) (k : Bytes) (m : LockMode)
    → AllAgree l
    → AllAgree (store_fresh l o k m)
unfolding store_fresh
store_fresh-AllAgree l o k m a q = Agrees-if (q == l.next) _ _ (Agrees-one o m) (a q)

verdict-AllAgree :
    (l : RowLockManager) (o : Session) (r : ℕ) (m : LockMode) (v : Verdict)
    → AllAgree l
    → lock_verdict o m (l.heap r).owners ≡ v
    → AllAgree (apply_verdict l r v).0
verdict-AllAgree l o r m (refused p) a h q = a q
verdict-AllAgree l o r m (granted owners') a h q =
    let e = a r in
    Agrees-if (q == r) _ _
      (record {
        distinct = granted-Distinct o m _ owners' e.distinct h;
        exclusive = granted-Exclusive o m _ owners' e.distinct e.exclusive h;
      })
      (a q)

pub try_lock_loaded-AllAgree :
    (l : RowLockManager) (o : Session) (k : Bytes) (m : LockMode) (loaded : Option ℕ)
    → AllAgree l
    → AllAgree (try_lock_loaded loaded l o k m).0
unfolding try_lock_loaded
try_lock_loaded-AllAgree l o k m none a = store_fresh-AllAgree l o k m a
try_lock_loaded-AllAgree l o k m (some r) a = elim (Bool-cases (l.heap r).closed) [
  | inl c ↦ rw c (store_fresh-AllAgree l o k m a)
  | inr c ↦ rw c (verdict-AllAgree l o r m _ a refl)
]

pub release_at-AllAgree :
    (l : RowLockManager) (o : Session) (k : Bytes) (r : ℕ)
    → AllAgree l
    → AllAgree (release_at l o k r)
unfolding release_at
release_at-AllAgree l o k r a q = elim (Bool-cases (length (remove o (l.heap r).owners) == 0)) [
  | inl e ↦ rw e (Agrees-if (q == r) _ _ (Agrees-remove o _ (a r)) (a q))
  | inr e ↦ rw e (Agrees-if (q == r) _ _ (Agrees-remove o _ (a r)) (a q))
]
