-- ===== src/Storage/Session/Manager.antt =====
-- pkg/storage/table.go: what the sessions of one process share. The database is the store of the
-- key-value server; the caches that are derived from it are left out.
use pizzasql.Prelude.{ℕ, ◌+◌, Option, none, some, [], ◌∷◌, ◌++◌, ◌≡◌, ◌⊎◌, refl, inl, inr}
use pizzasql.Prelude.Bytes.{Bytes, bytes_eq}
use pizzasql.Prelude.Map.{Map, lookup, insert}
use pizzasql.Storage.RowLock.{RowLockManager}
use pizzasql.Storage.Store.{Kv, get}
use pizzasql.Storage.Session.{to_lower}

-- `encodeRow` and `decodeRow`; `none` stands for an error.
pub record RowFormat (R : Type 0) : Type 0 where
  pub encode : R → Option Bytes
  pub decode : Bytes → Option R

pub record Manager : Type 0 where
  pub database : Bytes
  pub kv : Kv
  pub row_locks : RowLockManager
  pub generations : Map Bytes ℕ
  pub predicate_generations : Map Bytes ℕ

-- A map of counters, where a missing key counts 0.
abbrev pub count_at : Map Bytes ℕ → Bytes → ℕ
count_at counters key = elim (lookup key counters) [ some n ↦ n | none ↦ 0 ]

abbrev pub generation : Manager → Bytes → ℕ
generation m table = count_at m.generations (to_lower table)

abbrev pub predicate_generation : Manager → Bytes → ℕ
predicate_generation m key = count_at m.predicate_generations key

-- `indexPredicateWildcardKey`
abbrev pub index_predicate_wildcard_key : Bytes → Bytes
index_predicate_wildcard_key table = to_lower table ++ 0 ∷ b'*' ∷ []

abbrev pub bump_generation : Manager → Bytes → Manager
bump_generation m table = record m {
  generations = insert (to_lower table) (generation m table + 1) m.generations;
}

abbrev pub bump_index_predicate_wildcard : Manager → Bytes → Manager
bump_index_predicate_wildcard m table =
    let key = index_predicate_wildcard_key table in
    record m {
      predicate_generations = insert key (predicate_generation m key + 1) m.predicate_generations;
    }

-- What `getKeyWithLSN` returns: a row with its number, `ErrKeyNotFound`, or the error of a value
-- that is not a row.
pub data KeyRead (R : Type 0) : Type 0 where
  key_found : R → ℕ → KeyRead R
  key_not_found : KeyRead R
  row_unreadable : KeyRead R

unfoldable pub get_key_with_lsn : {R : Type 0} → RowFormat R → Manager → Bytes → KeyRead R
get_key_with_lsn format m key = elim (get m.kv key) [
  | none ↦ key_not_found
  | some (value, lsn) ↦ elim (format.decode value) [
    | some row ↦ key_found row lsn
    | none ↦ row_unreadable
  ]
]

pub KeyRead-cases :
    {R : Type 0} (r : KeyRead R)
    → ((row : R) × (n : ℕ) × (r ≡ key_found row n)) ⊎ (r ≡ key_not_found) ⊎ (r ≡ row_unreadable)
KeyRead-cases (key_found row n) = inl (row, n, refl)
KeyRead-cases key_not_found = inr (inl refl)
KeyRead-cases row_unreadable = inr (inr refl)
