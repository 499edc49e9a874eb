-- ===== src/Storage/UniqueCache/Tests.antt =====
-- A run of a cache, and the theorems about it at a concrete plan.
use pizzasql.Prelude.{Bool, true, Option, some, [], ◌∷◌, ◌≡◌, refl}
use pizzasql.Prelude.Bytes.{Bytes, bytes, bytes_eq}
use pizzasql.Prelude.Map.{Map, lookup, insert, remove, Distinct}
use pizzasql.Storage.UniqueCache.{
  UniqueIndexCache, remove_key, add_key, remove_accepted, add_accepted, apply_change,
}
use pizzasql.Storage.UniqueCache.Inverse.{IsInverse}
use pizzasql.Storage.UniqueCache.Plans.{apply_change-IsInverse, keys-apply_change}

abbrev everything : Bytes → Bool
everything _ = true

abbrev no_cache : UniqueIndexCache
no_cache = record { table = bytes "users"; values = []; keys = [] }

-- Rows 1 and 2 own `a` and `b`.
abbrev cache : UniqueIndexCache
cache = record no_cache {
  values = (bytes "a", (bytes "1", true) ∷ []) ∷ (bytes "b", (bytes "2", true) ∷ []) ∷ [];
  keys = (bytes "1", bytes "a") ∷ (bytes "2", bytes "b") ∷ [];
}

-- They swap their values.
abbrev swap : Map Bytes (Option Bytes)
swap = (bytes "1", some (bytes "b")) ∷ (bytes "2", some (bytes "a")) ∷ []

filled : add_key (add_key no_cache (bytes "1") (bytes "a")) (bytes "2") (bytes "b") ≡ cache
unfolding add_key insert lookup
filled = refl

swapped :
    (apply_change everything cache swap).keys ≡ (bytes "1", bytes "b") ∷ (bytes "2", bytes "a") ∷ []
unfolding apply_change remove_accepted add_accepted remove_key add_key insert remove lookup
swapped = refl

swap-Distinct : Distinct swap
unfolding lookup
swap-Distinct = (refl, (refl, tt))

no_cache-IsInverse : IsInverse no_cache
unfolding lookup
no_cache-IsInverse value key = refl

apply_change-IsInverse_example : IsInverse (apply_change everything no_cache swap)
apply_change-IsInverse_example =
    apply_change-IsInverse everything no_cache swap swap-Distinct no_cache-IsInverse

keys-apply_change_example :
    lookup (bytes "2") (apply_change everything cache swap).keys ≡ some (bytes "a")
unfolding lookup
keys-apply_change_example = keys-apply_change everything cache swap (bytes "2") swap-Distinct
