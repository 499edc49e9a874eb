-- ===== src/Analyzer/Aggregates.antt =====
-- pkg/analyzer/types.go: the table of the built-in functions, seen through `LookupFunction`.
use pizzasql.Prelude.{
  ℕ, ◌≤◌, Bool, true, false, ◌&&◌, ◌||◌, none, some, List, [], ◌∷◌, ◌≡◌, refl, arith, leb, ◌∙◌,
  if◌then◌else◌, Bool-cases, inl, inr,
}
use pizzasql.Prelude.Bytes.{Bytes, bytes, bytes_eq, bytes_equal, bytes_equal_iff}
use pizzasql.Prelude.Map.{Map, lookup}
use pizzasql.Lexer.Readers.{to_upper}
use pizzasql.Analyzer.Functions.{
  FunctionSignature, builtin_functions, lookup_function, is_aggregate_function,
}

-- The number of arguments fits the signature.
abbrev pub AcceptsArgs : FunctionSignature → ℕ → Type 0
AcceptsArgs sig n = (sig.min_args ≤ n) × ((max : ℕ) → sig.max_args ≡ some max → n ≤ max)

abbrev args_fit : FunctionSignature → Bool
args_fit sig = elim sig.max_args [ none ↦ true | some n ↦ leb sig.min_args n ]

-- Every entry stands under its own name and admits a call.
entries_fit : Map Bytes FunctionSignature → Bool
entries_fit [] = true
entries_fit ((key, sig) ∷ m) = bytes_equal sig.name key && args_fit sig && entries_fit m

entries_fit_sound :
    (m : Map Bytes FunctionSignature) (key : Bytes) (sig : FunctionSignature)
    → entries_fit m ≡ true
    → lookup key m ≡ some sig
    → (sig.name ≡ key) × (args_fit sig ≡ true)
unfolding entries_fit lookup
entries_fit_sound [] key sig h e = absurd (cc e)
entries_fit_sound ((k, s) ∷ m) key sig h e = elim (Bool-cases (bytes_equal k key)) [
  | inl same ↦
      let (x, y) : (s ≡ sig) × (k ≡ key) = ground (arith, bytes_equal_iff k key) in
      let z : (s.name ≡ k) × (args_fit s ≡ true) = ground (arith, bytes_equal_iff s.name k) in
      rw (← x, ← y) z
  | inr other ↦ entries_fit_sound m key sig (ground arith) (ground arith)
]

table_fits : entries_fit builtin_functions ≡ true
unfolding entries_fit builtin_functions
table_fits = refl

-- A built-in function that is found has the name that was asked for, in capitals, and some number
-- of arguments is right for it.
pub lookup_function-AcceptsArgs :
    (name : Bytes) (sig : FunctionSignature)
    → lookup_function name ≡ some sig
    → (sig.name ≡ to_upper name) × AcceptsArgs sig sig.min_args
unfolding lookup_function
lookup_function-AcceptsArgs name sig h =
    let (n, f) = entries_fit_sound builtin_functions (to_upper name) sig table_fits h in
    (n, (omega arith, λ max e. ground (arith, f, e)))

-- The names of the aggregate functions.
abbrev pub aggregate_names : List Bytes
aggregate_names =
    bytes "COUNT"
    ∷ bytes "SUM"
    ∷ bytes "AVG"
    ∷ bytes "MIN"
    ∷ bytes "MAX"
    ∷ bytes "TOTAL"
    ∷ bytes "GROUP_CONCAT"
    ∷ bytes "STRING_AGG"
    ∷ bytes "JSON_GROUP_ARRAY"
    ∷ bytes "JSONB_GROUP_ARRAY"
    ∷ []

abbrev pub is_one_of : Bytes → List Bytes → Bool
is_one_of name [] = false
is_one_of name (n ∷ ns) = bytes_equal n name || is_one_of name ns

-- The keys of the aggregate functions of a table.
aggregate_keys : Map Bytes FunctionSignature → List Bytes
aggregate_keys [] = []
aggregate_keys ((key, sig) ∷ m) =
    let rest = aggregate_keys m in if sig.is_aggregate then key ∷ rest else rest

-- No key stands twice.
keys_apart : Map Bytes FunctionSignature → Bool
keys_apart [] = true
keys_apart ((key, _) ∷ m) = (elim (lookup key m) [ none ↦ true | some _ ↦ false ]) && keys_apart m

is_one_of-aggregate_keys :
    (m : Map Bytes FunctionSignature) (key : Bytes)
    → lookup key m ≡ none
    → is_one_of key (aggregate_keys m) ≡ false
unfolding lookup aggregate_keys
is_one_of-aggregate_keys [] key h = refl
is_one_of-aggregate_keys ((k, s) ∷ m) key h = ground (arith, is_one_of-aggregate_keys m key)

aggregate_lookup :
    (m : Map Bytes FunctionSignature) (key : Bytes)
    → keys_apart m ≡ true
    → (elim (lookup key m) [ some sig ↦ sig.is_aggregate | none ↦ false ])
      ≡ is_one_of key (aggregate_keys m)
unfolding lookup aggregate_keys keys_apart
aggregate_lookup [] key h = refl
aggregate_lookup ((k, s) ∷ m) key h =
    ground (arith, aggregate_lookup m key, is_one_of-aggregate_keys m key, bytes_equal_iff k key)

table_apart : keys_apart builtin_functions ≡ true
unfolding keys_apart builtin_functions lookup
table_apart = refl

table_aggregates : aggregate_keys builtin_functions ≡ aggregate_names
unfolding aggregate_keys builtin_functions
table_aggregates = refl

-- A function is an aggregate exactly when its name is, in any letters, one of the ten.
pub is_aggregate_function_lem :
    (name : Bytes) → is_aggregate_function name ≡ is_one_of (to_upper name) aggregate_names
unfolding is_aggregate_function lookup_function
is_aggregate_function_lem name =
    aggregate_lookup builtin_functions (to_upper name) table_apart ∙ rw table_aggregates refl
