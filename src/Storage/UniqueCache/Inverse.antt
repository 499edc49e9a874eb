-- ===== src/Storage/UniqueCache/Inverse.antt =====
-- pkg/storage/unique_cache.go: the two maps of a cache are inverse to each other.
use pizzasql.Prelude.{
  Bool, true, false, ◌&&◌, Option, none, some, [], ◌∷◌, ◌≡◌, refl, arith, ◌==◌, if◌then◌else◌,
  length, Option-cases, Bool-cases, inl, inr,
}
use pizzasql.Prelude.Bytes.{Bytes, bytes_eq, bytes_equal, bytes_equal_iff}
use pizzasql.Prelude.Map.{Map, lookup, insert, remove, lookup-insert, lookup-remove}
use pizzasql.Storage.UniqueCache.{UniqueIndexCache, owners_of, drop_owner, remove_key, add_key}

abbrev pub is_some {ℓ} : {A : Type ℓ} → Option A → Bool
is_some (some _) = true
is_some none = false

-- Whether the key is among the owners of the value.
abbrev pub owns : UniqueIndexCache → Bytes → Bytes → Bool
owns c value key = is_some (lookup key (owners_of c value))

abbrev has_value : Option Bytes → Bytes → Bool
has_value none value = false
has_value (some v) value = bytes_equal v value

-- A key owns a value exactly if the value is the one that the key maps to.
abbrev pub IsInverse : UniqueIndexCache → Type 0
IsInverse c = (value key : Bytes) → owns c value key ≡ has_value (lookup key c.keys) value

no_owners : (owners : Map Bytes Bool) (key : Bytes) → length owners ≡ 0 → lookup key owners ≡ none
unfolding lookup
no_owners [] key h = refl
no_owners (_ ∷ _) key h = absurd (omega (arith, h))

owns-add_key :
    (c : UniqueIndexCache) (key value v k : Bytes)
    → owns (add_key c key value) v k
      ≡ (if bytes_equal value v && bytes_equal key k then true else owns c v k)
unfolding add_key
owns-add_key c key value v k = ground (
  arith,
  lookup-insert value v (insert key true (owners_of c value)) c.values,
  lookup-insert key k true (owners_of c value),
  bytes_equal_iff value v,
  bytes_equal_iff key k,
)

owns-drop_owner :
    (c : UniqueIndexCache) (key value v k : Bytes)
    → owns (drop_owner c key value) v k
      ≡ (if bytes_equal value v && bytes_equal key k then false else owns c v k)
owns-drop_owner c key value v k = elim (Bool-cases (length (remove key (owners_of c value)) == 0)) [
  | inl none_left ↦ rw none_left (
      ground (
        arith,
        lookup-remove value v c.values,
        lookup-remove key k (owners_of c value),
        no_owners (remove key (owners_of c value)) k,
        no_owners [] k refl,
        bytes_equal_iff value v,
        bytes_equal_iff key k,
      ))
  | inr some_left ↦ rw some_left (
      ground (
        arith,
        lookup-insert value v (remove key (owners_of c value)) c.values,
        lookup-remove key k (owners_of c value),
        bytes_equal_iff value v,
        bytes_equal_iff key k,
      ))
]

pub keys-remove_key :
    (c : UniqueIndexCache) (key k : Bytes)
    → lookup k (remove_key c key).keys ≡ (if bytes_equal key k then none else lookup k c.keys)
unfolding remove_key
keys-remove_key c key k = elim (Option-cases (lookup key c.keys)) [
  | inl (value, e) ↦ rw (remove_key, e) (ground (arith, e, lookup-remove key k c.keys))
  | inr e ↦ rw (remove_key, e) (ground (arith, e, bytes_equal_iff key k))
]

pub remove_key-IsInverse :
    (c : UniqueIndexCache) (key : Bytes) → IsInverse c → IsInverse (remove_key c key)
unfolding remove_key
remove_key-IsInverse c key i v k = elim (Option-cases (lookup key c.keys)) [
  | inr e ↦ rw (remove_key, e) (i v k)
  | inl (value, e) ↦
      rw (remove_key, e)
        (ground (
          arith,
          e,
          i v k,
          owns-drop_owner c key value v k,
          lookup-remove key k c.keys,
          bytes_equal_iff key k,
          bytes_equal_iff value v,
        ))
]

pub add_key-IsInverse :
    (c : UniqueIndexCache) (key value : Bytes)
    → lookup key c.keys ≡ none
    → IsInverse c
    → IsInverse (add_key c key value)
unfolding add_key
add_key-IsInverse c key value free i v k = ground (
  arith,
  free,
  i v k,
  owns-add_key c key value v k,
  lookup-insert key k value c.keys,
  bytes_equal_iff key k,
  bytes_equal_iff value v,
)
