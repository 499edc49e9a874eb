-- ===== src/Storage/UniqueCache.antt =====
-- pkg/storage/unique_cache.go: the cache of one UNIQUE index, and the publication of a plan in it.
pub mod Inverse
pub mod Plans
mod Tests
use pizzasql.Prelude.{Bool, true, false, Option, none, some, [], ◌∷◌, ◌==◌, if◌then◌else◌, length}
use pizzasql.Prelude.Bytes.{Bytes, bytes_eq}
use pizzasql.Prelude.Map.{Map, lookup, insert, remove}

-- `values` maps a value to the set of the keys that own it, and `keys` a key to its value.
pub record UniqueIndexCache : Type 0 where
  pub table : Bytes
  pub values : Map Bytes (Map Bytes Bool)
  pub keys : Map Bytes Bytes

-- `c.values[value]`
abbrev pub owners_of : UniqueIndexCache → Bytes → Map Bytes Bool
owners_of c value = elim (lookup value c.values) [ some owners ↦ owners | none ↦ [] ]

abbrev pub drop_owner : UniqueIndexCache → Bytes → Bytes → UniqueIndexCache
drop_owner c key value =
    let owners = remove key (owners_of c value) in
    record c {
      keys = remove key c.keys;
      values = if length owners == 0 then remove value c.values else insert value owners c.values;
    }

-- `remove`
unfoldable pub remove_key : UniqueIndexCache → Bytes → UniqueIndexCache
remove_key c key = elim (lookup key c.keys) [ none ↦ c | some value ↦ drop_owner c key value ]

-- `add`
unfoldable pub add_key : UniqueIndexCache → Bytes → Bytes → UniqueIndexCache
add_key c key value = record c {
  values = insert value (insert key true (owners_of c value)) c.values;
  keys = insert key value c.keys;
}

abbrev pub remove_one : Bool → UniqueIndexCache → Bytes → UniqueIndexCache
remove_one true c key = remove_key c key
remove_one false c key = c

-- The first inner loop of `applyUniquePlan`; `accepted` is `accepted == nil || accepted[key]`.
unfoldable pub remove_accepted :
    (Bytes → Bool) → UniqueIndexCache → Map Bytes (Option Bytes) → UniqueIndexCache
unfolding remove_key
remove_accepted accepted c [] = c
remove_accepted accepted c ((key, _) ∷ rest) =
    remove_accepted accepted (remove_one (accepted key) c key) rest

abbrev pub add_value : Bool → UniqueIndexCache → Bytes → Option Bytes → UniqueIndexCache
add_value accepted c key none = c
add_value true c key (some value) = add_key c key value
add_value false c key (some value) = c

-- The second inner loop.
unfoldable pub add_accepted :
    (Bytes → Bool) → UniqueIndexCache → Map Bytes (Option Bytes) → UniqueIndexCache
unfolding add_key
add_accepted accepted c [] = c
add_accepted accepted c ((key, value) ∷ rest) =
    add_accepted accepted (add_value (accepted key) c key value) rest

-- `applyUniquePlan` for one change, whose cache is still the current one.
unfoldable pub apply_change :
    (Bytes → Bool) → UniqueIndexCache → Map Bytes (Option Bytes) → UniqueIndexCache
unfolding remove_accepted add_accepted
apply_change accepted c values = add_accepted accepted (remove_accepted accepted c values) values
