-- ===== src/Analyzer/Tests.antt =====
-- pkg/analyzer: small scopes and types, and the theorems at them.
use pizzasql.Prelude.{true, false, none, some, [], ◌∷◌, ◌≡◌, refl, if◌then◌else◌}
use pizzasql.Prelude.Bytes.{bytes, bytes_eq}
use pizzasql.Prelude.Map.{lookup, insert}
use pizzasql.Analyzer.Types.{
  integer, real, text, numeric, boolean, jsonb, has_substring, trim_left, type_from_name, affinity,
  common_type,
}
use pizzasql.Analyzer.TypeLaws.{common_type_laws}
use pizzasql.Analyzer.Functions.{
  FunctionSignature, builtin_functions, lookup_function, is_aggregate_function,
}
use pizzasql.Analyzer.Scope.{
  TableInfo, new_scope, plain_column, find_column, define_columns, define_table, lookup_table,
  column_found, owner_of, get_column, lookup_column,
}
use pizzasql.Analyzer.Names.{answers_to, lookup_table-define_table, lookup_column-define_table}
use pizzasql.Analyzer.Catalog.{table_exists, Implements, catalog-Refines, get_table}

abbrev users : TableInfo
users = record {
  name = bytes "users";
  columns = plain_column (bytes "id") integer (bytes "users") ∷ [];
  alias = bytes "u";
  is_view = false;
}

abbrev orders : TableInfo
orders = record {
  name = bytes "orders";
  columns = plain_column (bytes "ID") text (bytes "orders") ∷ [];
  alias = [];
  is_view = false;
}

varchar : type_from_name (bytes " varchar(10)[] ") ≡ text
unfolding type_from_name affinity has_substring trim_left
varchar = refl

-- The common type of three branches, in two orders, with a JSONB branch among them.
order_matters :
    (common_type (common_type jsonb integer) text ≡ text)
    × (common_type (common_type integer text) jsonb ≡ jsonb)
unfolding common_type
order_matters = (refl, refl)

common_type_laws_example :
    (common_type integer real ≡ common_type real integer)
    × (common_type (common_type integer real) boolean
        ≡ common_type integer (common_type real boolean))
    × (common_type integer integer ≡ integer)
common_type_laws_example = common_type_laws integer real boolean (λ e. cc e) (λ e. cc e) (λ e. cc e)

abbrev total_signature : FunctionSignature
total_signature = record {
  name = bytes "TOTAL";
  min_args = 1;
  max_args = some 1;
  arg_types = numeric ∷ [];
  return_type = real;
  is_aggregate = true;
}

total_found : lookup_function (bytes "total") ≡ some total_signature
unfolding lookup_function builtin_functions lookup
total_found = refl

sums : is_aggregate_function (bytes "Sum") ≡ true
unfolding is_aggregate_function builtin_functions lookup
sums = refl

lookup_table-define_table_example : lookup_table (bytes "U") (define_table users new_scope ∷ []) ≡ (
    if answers_to users (bytes "U") then some users else lookup_table (bytes "U") (new_scope ∷ []))
lookup_table-define_table_example = lookup_table-define_table users new_scope [] (bytes "U")

-- Both tables have a column `id`; the column is that of `orders`, and the table `users`.
ambiguous :
    lookup_column [] (bytes "id") (define_table orders (define_table users new_scope) ∷ [])
    ≡ column_found (plain_column (bytes "ID") text (bytes "orders")) (some users)
unfolding lookup_column define_table define_columns owner_of get_column find_column lookup insert
ambiguous = refl

lookup_column-define_table_example :
    lookup_column [] (bytes "id") (define_table orders (define_table users new_scope) ∷ [])
    ≡ column_found
        (plain_column (bytes "ID") text (bytes "orders"))
        (owner_of (bytes "id") (define_table orders (define_table users new_scope)).tables)
lookup_column-define_table_example =
    lookup_column-define_table orders (define_table users new_scope) [] (bytes "id")
      (plain_column (bytes "ID") text (bytes "orders")) refl

nothing : Implements [] (λ _. none)
unfolding get_table lookup
nothing name = refl

catalog-Refines_example : table_exists (bytes "users") [] ≡ false
catalog-Refines_example = (catalog-Refines [] (λ _. none) nothing).2 (bytes "users")
