-- ===== src/Storage/UniqueCache/Plans.antt =====
-- pkg/storage/unique_cache.go: what `applyUniquePlan` does to a cache.
use pizzasql.Prelude.{
  Bool, true, false, ◌&&◌, Option, none, some, [], ◌∷◌, ◌≡◌, refl, arith, if◌then◌else◌,
}
use pizzasql.Prelude.Bytes.{Bytes, bytes_eq, bytes_equal, bytes_equal_iff}
use pizzasql.Prelude.Map.{Map, lookup, lookup-insert, Distinct}
use pizzasql.Storage.UniqueCache.{
  UniqueIndexCache, remove_one, add_key, remove_accepted, add_value, add_accepted, apply_change,
}
use pizzasql.Storage.UniqueCache.Inverse.{
  is_some, IsInverse, remove_key-IsInverse, add_key-IsInverse, keys-remove_key,
}

keys-remove_one :
    (b : Bool) (c : UniqueIndexCache) (key k : Bytes)
    → lookup k (remove_one b c key).keys
      ≡ (if b && bytes_equal key k then none else lookup k c.keys)
keys-remove_one true c key k = keys-remove_key c key k
keys-remove_one false c key k = refl

remove_one-IsInverse :
    (b : Bool) (c : UniqueIndexCache) (key : Bytes) → IsInverse c → IsInverse (remove_one b c key)
remove_one-IsInverse true c key i = remove_key-IsInverse c key i
remove_one-IsInverse false c key i = i

-- The value of a key after the additions of a plan, where it had `old` before them.
abbrev pub added : Option (Option Bytes) → Bool → Option Bytes → Option Bytes
added none yes' old = old
added (some none) yes' old = old
added (some (some v)) true old = some v
added (some (some v)) false old = old

keys-add_value :
    (b : Bool) (c : UniqueIndexCache) (key : Bytes) (o : Option Bytes) (k : Bytes)
    → lookup k (add_value b c key o).keys
      ≡ (if bytes_equal key k then added (some o) b (lookup k c.keys) else lookup k c.keys)
unfolding add_key
keys-add_value b c key none k = ground arith
keys-add_value true c key (some v) k = lookup-insert key k v c.keys
keys-add_value false c key (some v) k = ground arith

add_value-IsInverse :
    (b : Bool) (c : UniqueIndexCache) (key : Bytes) (o : Option Bytes)
    → (b ≡ true → lookup key c.keys ≡ none)
    → IsInverse c
    → IsInverse (add_value b c key o)
add_value-IsInverse b c key none free i = i
add_value-IsInverse true c key (some v) free i = add_key-IsInverse c key v (free refl) i
add_value-IsInverse false c key (some v) free i = i

module _ (accepted : Bytes → Bool) where
  keys-remove_accepted :
      (c : UniqueIndexCache) (plan : Map Bytes (Option Bytes)) (k : Bytes)
      → lookup k (remove_accepted accepted c plan).keys
        ≡ (if accepted k && is_some (lookup k plan) then none else lookup k c.keys)
  unfolding remove_accepted lookup
  keys-remove_accepted c [] k = ground arith
  keys-remove_accepted c ((key, o) ∷ plan) k = ground (
    arith,
    bytes_equal_iff key k,
    keys-remove_one (accepted key) c key k,
    keys-remove_accepted (remove_one (accepted key) c key) plan k,
  )

  remove_accepted-IsInverse :
      (c : UniqueIndexCache) (plan : Map Bytes (Option Bytes))
      → IsInverse c
      → IsInverse (remove_accepted accepted c plan)
  unfolding remove_accepted
  remove_accepted-IsInverse c [] i = i
  remove_accepted-IsInverse c ((key, _) ∷ plan) i =
      remove_accepted-IsInverse (remove_one (accepted key) c key) plan
        (remove_one-IsInverse (accepted key) c key i)

  keys-add_accepted :
      (c : UniqueIndexCache) (plan : Map Bytes (Option Bytes)) (k : Bytes)
      → Distinct plan
      → lookup k (add_accepted accepted c plan).keys
        ≡ added (lookup k plan) (accepted k) (lookup k c.keys)
  unfolding add_accepted lookup
  keys-add_accepted c [] k d = refl
  keys-add_accepted c ((key, o) ∷ plan) k d = ground (
    arith,
    d.0,
    bytes_equal_iff key k,
    keys-add_value (accepted key) c key o k,
    keys-add_accepted (add_value (accepted key) c key o) plan k d.1,
  )

  -- An accepted key of the plan is in no cache entry.
  abbrev IsFresh : UniqueIndexCache → Map Bytes (Option Bytes) → Type 0
  IsFresh c plan =
      (k : Bytes) → accepted k ≡ true → is_some (lookup k plan) ≡ true → lookup k c.keys ≡ none

  add_accepted-IsInverse :
      (c : UniqueIndexCache) (plan : Map Bytes (Option Bytes))
      → Distinct plan
      → IsFresh c plan
      → IsInverse c
      → IsInverse (add_accepted accepted c plan)
  unfolding add_accepted lookup
  add_accepted-IsInverse c [] d fresh i = i
  add_accepted-IsInverse c ((key, o) ∷ plan) d fresh i =
      add_accepted-IsInverse (add_value (accepted key) c key o) plan d.1
        (λ k a p. ground (
          arith,
          a,
          p,
          d.0,
          bytes_equal_iff key k,
          keys-add_value (accepted key) c key o k,
          fresh k,
        ))
        (add_value-IsInverse (accepted key) c key o
          (λ a. ground (arith, a, bytes_equal_iff key key, fresh key)) i)

  -- Publishing a change of a plan leaves the two maps of the cache inverse to each other, where
  -- they were so before.
  pub apply_change-IsInverse :
      (c : UniqueIndexCache) (plan : Map Bytes (Option Bytes))
      → Distinct plan
      → IsInverse c
      → IsInverse (apply_change accepted c plan)
  unfolding apply_change
  apply_change-IsInverse c plan d i =
      add_accepted-IsInverse (remove_accepted accepted c plan) plan d
        (λ k a p. ground (arith, a, p, keys-remove_accepted c plan k))
        (remove_accepted-IsInverse c plan i)

  -- Behind the publication of a change, an accepted key of the plan has the value that the plan
  -- gives it, or none where the plan has a NULL or a deletion; every other key is as before.
  pub keys-apply_change :
      (c : UniqueIndexCache) (plan : Map Bytes (Option Bytes)) (k : Bytes)
      → Distinct plan
      → lookup k (apply_change accepted c plan).keys ≡ (elim (lookup k plan) [
        | none ↦ lookup k c.keys
        | some o ↦ if accepted k then o else lookup k c.keys
      ])
  unfolding apply_change
  keys-apply_change c plan k d = ground (
    arith,
    keys-add_accepted (remove_accepted accepted c plan) plan k d,
    keys-remove_accepted c plan k,
  )
