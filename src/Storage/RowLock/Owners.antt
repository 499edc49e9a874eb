-- ===== src/Storage/RowLock/Owners.antt =====
-- The owners of one entry: what `tryLock` decides about them, for every order of the map.
use pizzasql.Prelude.{
  ◌≤◌, Option, none, some, [], ◌∷◌, ◌≡◌, ◌≢◌, inl, inr, refl, arith, ◌==◌, if◌then◌else◌, length,
  Option-cases,
}
use pizzasql.Prelude.Eq.{nat_eq}
use pizzasql.Prelude.Map.{Map, lookup, Distinct, lookup-insert, insert-Distinct}
use pizzasql.Storage.RowLock.{
  Session, LockMode, lock_update, lock_share, update_holder, Verdict, granted, refused,
  lock_verdict,
}

-- A session that holds FOR UPDATE holds alone.
abbrev pub Exclusive : Map Session LockMode → Type 0
Exclusive owners =
    (o p : Session) (m : LockMode)
    → lookup o owners ≡ some lock_update
    → lookup p owners ≡ some m
    → p ≡ o

-- The request fits what the other sessions hold: nothing, or both sides are FOR SHARE.
abbrev pub Compatible : Session → LockMode → Map Session LockMode → Type 0
Compatible owner mode owners =
    (p : Session) (m : LockMode)
    → p ≢ owner
    → lookup p owners ≡ some m
    → (mode ≡ lock_share) × (m ≡ lock_share)

pub owner_alone :
    (owners : Map Session LockMode) (a b : Session) (m n : LockMode)
    → length owners ≡ 1
    → lookup a owners ≡ some m
    → lookup b owners ≡ some n
    → a ≡ b
unfolding lookup
owner_alone [] a b m n h p q = absurd (omega arith)
owner_alone ((o, v) ∷ []) a b m n h p q = ground arith
owner_alone (_ ∷ _ ∷ _) a b m n h p q = absurd (omega arith)

-- With two owners or more somebody other than `a` is among them.
pub other_owner : (owners : Map Session LockMode) → Session → Session × LockMode
other_owner ((o, m) ∷ (p, n) ∷ rest) a = if o == a then (p, n) else (o, m)
other_owner _ a = (0, lock_share)

pub other_owner_lem :
    (owners : Map Session LockMode) (a : Session) (m : LockMode)
    → Distinct owners
    → length owners ≢ 1
    → lookup a owners ≡ some m
    → ((other_owner owners a).0 ≢ a)
      × (lookup (other_owner owners a).0 owners ≡ some (other_owner owners a).1)
unfolding lookup other_owner
other_owner_lem [] a m d h e = absurd (cc)
other_owner_lem (_ ∷ []) a m d h e = absurd (h refl)
other_owner_lem ((o, u) ∷ (p, n) ∷ rest) a m d h e = ground arith

pub update_holder-none :
    (owners : Map Session LockMode) (p : Session) (m : LockMode)
    → update_holder owners ≡ none
    → lookup p owners ≡ some m
    → m ≡ lock_share
unfolding update_holder lookup
update_holder-none [] p m h e = cc
update_holder-none ((o, lock_update) ∷ rest) p m h e = cc
update_holder-none ((o, lock_share) ∷ rest) p m h e = ground (arith, update_holder-none rest p m)

pub update_holder-some :
    (owners : Map Session LockMode) (p : Session)
    → Distinct owners
    → update_holder owners ≡ some p
    → lookup p owners ≡ some lock_update
unfolding update_holder lookup
update_holder-some [] p d h = cc
update_holder-some ((o, lock_update) ∷ rest) p d h = ground arith
update_holder-some ((o, lock_share) ∷ rest) p d h =
    ground (arith, update_holder-some rest p d.1, update_holder-some rest o d.1)

pub first_owner : Map Session LockMode → Session × LockMode
first_owner [] = (0, lock_share)
first_owner ((o, m) ∷ _) = (o, m)

pub first_owner_lem :
    (owners : Map Session LockMode)
    → length owners ≢ 0
    → lookup (first_owner owners).0 owners ≡ some (first_owner owners).1
unfolding lookup first_owner
first_owner_lem [] h = absurd (h refl)
first_owner_lem ((o, m) ∷ rest) h = ground arith

pub no_owner :
    (owners : Map Session LockMode) (p : Session) → length owners ≡ 0 → lookup p owners ≡ none
unfolding lookup
no_owner [] p h = refl
no_owner (_ ∷ _) p h = absurd (omega arith)

abbrev pub IsGranted : Verdict → Type 0
IsGranted (granted _) = Unit
IsGranted (refused _) = ⊥

-- `tryLock` grants a request that fits what the other sessions hold.
pub verdict-IsGranted :
    (owner : Session) (mode : LockMode) (owners : Map Session LockMode)
    → Distinct owners
    → Compatible owner mode owners
    → IsGranted (lock_verdict owner mode owners)
unfolding lock_verdict
verdict-IsGranted owner mode owners d c = elim (Option-cases (lookup owner owners)) [
  | inl (lock_update, e) ↦ ground arith
  | inl (lock_share, e) ↦
      let (o, n) = other_owner owners owner in
      ground (arith, other_owner_lem owners owner lock_share d, c o n)
  | inr e ↦ (elim (Option-cases (update_holder owners)) [
    | inl (o, h) ↦ ground (arith, update_holder-some owners o d, c o lock_update)
    | inr h ↦ let (o, n) = first_owner owners in ground (arith, first_owner_lem owners, c o n)
  ])
]

-- It refuses every other.
pub verdict-Compatible :
    (owner : Session) (mode : LockMode) (owners : Map Session LockMode)
    → Distinct owners
    → Exclusive owners
    → IsGranted (lock_verdict owner mode owners)
    → Compatible owner mode owners
unfolding lock_verdict
verdict-Compatible owner mode owners d x g p m ne e = ground (
  arith,
  x owner p m,
  x p owner lock_share,
  owner_alone owners p owner m lock_share,
  update_holder-none owners p m,
  no_owner owners p,
)

-- What the owner holds after a grant: the stronger of what it asked for and what it held.
abbrev pub granted_mode : LockMode → Option LockMode → LockMode
granted_mode mode none = mode
granted_mode lock_share (some current) = current
granted_mode lock_update (some _) = lock_update

pub lookup-granted :
    (owner : Session) (mode : LockMode) (owners owners' : Map Session LockMode) (p : Session)
    → lock_verdict owner mode owners ≡ granted owners'
    → lookup p owners'
      ≡ (if owner == p then some (granted_mode mode (lookup owner owners)) else lookup p owners)
unfolding lock_verdict
lookup-granted owner lock_share owners owners' p h =
    ground
      (arith, lookup-insert owner p lock_share owners, lookup-insert owner p lock_update owners)
lookup-granted owner lock_update owners owners' p h =
    ground
      (arith, lookup-insert owner p lock_share owners, lookup-insert owner p lock_update owners)

pub granted-Distinct :
    (owner : Session) (mode : LockMode) (owners owners' : Map Session LockMode)
    → Distinct owners
    → lock_verdict owner mode owners ≡ granted owners'
    → Distinct owners'
unfolding lock_verdict
granted-Distinct owner mode owners owners' d h = ground (
  arith,
  insert-Distinct owner mode owners,
  insert-Distinct owner lock_share owners,
  insert-Distinct owner lock_update owners,
)

pub granted-Exclusive :
    (owner : Session) (mode : LockMode) (owners owners' : Map Session LockMode)
    → Distinct owners
    → Exclusive owners
    → lock_verdict owner mode owners ≡ granted owners'
    → Exclusive owners'
granted-Exclusive owner mode owners owners' d x h o p m eo ep = ground (
  arith,
  lookup-granted owner mode owners owners' o h,
  lookup-granted owner mode owners owners' p h,
  verdict-Compatible owner mode owners d x (rw h tt) o lock_update,
  verdict-Compatible owner mode owners d x (rw h tt) p m,
  x o p m,
  x owner p m,
  x owner o lock_update,
)

pub owned_of_lookup :
    (owners : Map Session LockMode) (p : Session) (m : LockMode)
    → lookup p owners ≡ some m
    → 1 ≤ length owners
unfolding lookup
owned_of_lookup [] p m h = absurd (cc)
owned_of_lookup (_ ∷ _) p m h = omega arith

pub granted_owned :
    (owner : Session) (mode : LockMode) (owners owners' : Map Session LockMode)
    → lock_verdict owner mode owners ≡ granted owners'
    → 1 ≤ length owners'
granted_owned owner mode owners owners' h = ground (
  arith,
  owned_of_lookup owners' owner (granted_mode mode (lookup owner owners)),
  lookup-granted owner mode owners owners' owner h,
)
