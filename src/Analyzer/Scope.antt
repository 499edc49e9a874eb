-- ===== src/Analyzer/Scope.antt =====
-- pkg/analyzer/types.go and scope.go: the tables and columns that a statement can name. A chain of
-- scopes is a list, the innermost first, and the parent of a scope is the rest of the list.
use pizzasql.Prelude.{
  ℕ, ◌+◌, Bool, true, false, Option, none, some, List, [], ◌∷◌, ◌++◌, ◌==◌, ltb, if◌then◌else◌,
  length,
}
use pizzasql.Prelude.Bytes.{Bytes, bytes, bytes_eq, bytes_equal}
use pizzasql.Prelude.Map.{Map, lookup, insert}
use pizzasql.Lexer.Readers.{to_upper}
use pizzasql.Analyzer.Types.{SqlType, any}

-- Without `Default`, which nothing here reads.
pub record ColumnInfo : Type 0 where
  pub name : Bytes
  pub type : SqlType
  pub nullable : Bool
  pub primary_key : Bool
  pub table_name : Bytes
  pub generated : Bool
  pub array : Bool

pub record TableInfo : Type 0 where
  pub name : Bytes
  pub columns : List ColumnInfo
  pub alias : Bytes
  pub is_view : Bool

-- A column of which the fields that the source does not give are the zero values.
abbrev pub plain_column : Bytes → SqlType → Bytes → ColumnInfo
plain_column name type table_name = record {
  name = name;
  type = type;
  nullable = false;
  primary_key = false;
  table_name = table_name;
  generated = false;
  array = false;
}

-- The loop of `GetColumn`.
unfoldable pub find_column : Bytes → List ColumnInfo → Option ColumnInfo
find_column upper [] = none
find_column upper (c ∷ cs) =
    if bytes_equal (to_upper c.name) upper then some c else find_column upper cs

unfoldable pub get_column : TableInfo → Bytes → Option ColumnInfo
unfolding find_column
get_column t name =
    if t.is_view then some (plain_column name any t.name) else find_column (to_upper name) t.columns

pub record Scope : Type 0 where
  pub tables : Map Bytes TableInfo
  pub columns : Map Bytes ColumnInfo

-- `NewScope`
abbrev pub new_scope : Scope
new_scope = record { tables = []; columns = [] }

-- The loop of `DefineTable`.
unfoldable pub define_columns : List ColumnInfo → Map Bytes ColumnInfo → Map Bytes ColumnInfo
define_columns [] m = m
define_columns (c ∷ cs) m = define_columns cs (insert (to_upper c.name) c m)

unfoldable pub define_table : TableInfo → Scope → Scope
unfolding define_columns
define_table info s =
    let tables = insert (to_upper info.name) info s.tables in
    record s {
      tables = if length info.alias == 0 then tables else insert (to_upper info.alias) info tables;
      columns = define_columns info.columns s.columns;
    }

unfoldable pub define_select_alias : Bytes → SqlType → Scope → Scope
define_select_alias alias col_type s = record s {
  columns = insert (to_upper alias) (plain_column alias col_type []) s.columns;
}

unfoldable pub lookup_table : Bytes → List Scope → Option TableInfo
lookup_table name [] = none
lookup_table name (s ∷ parents) = elim (lookup (to_upper name) s.tables) [
  | some t ↦ some t
  | none ↦ lookup_table name parents
]

-- What `LookupColumn` returns: a column and the table that goes with it, or no column.
pub data ColumnRead : Type 0 where
  column_found : ColumnInfo → Option TableInfo → ColumnRead
  no_column : Option TableInfo → ColumnRead

-- The first table of the scope that has the column.
unfoldable pub owner_of : Bytes → Map Bytes TableInfo → Option TableInfo
unfolding get_column
owner_of name [] = none
owner_of name ((_, t) ∷ tables) = elim (get_column t name) [
  | some _ ↦ some t
  | none ↦ owner_of name tables
]

-- The search of all tables: how many have the column, and the last of them.
unfoldable pub search_tables :
    Bytes
    → Map Bytes TableInfo
    → ℕ × Option (ColumnInfo × TableInfo)
    → ℕ × Option (ColumnInfo × TableInfo)
unfolding get_column
search_tables name [] found = found
search_tables name ((_, t) ∷ tables) found =
    search_tables name tables
      (elim (get_column t name) [ some c ↦ (found.0 + 1, some (c, t)) | none ↦ found ])

-- `LookupColumn` without a table.
unfoldable pub lookup_unqualified : Bytes → List Scope → ColumnRead
unfolding owner_of search_tables
lookup_unqualified name [] = no_column none
lookup_unqualified name (s ∷ parents) = elim (lookup (to_upper name) s.columns) [
  | some col ↦ column_found col (owner_of name s.tables)
  | none ↦
      let found = search_tables name s.tables (0, none) in
      elim (ltb 1 found.0) [
        | true ↦ no_column none
        | false ↦ elim found.1 [
          | some (col, t) ↦ column_found col (some t)
          | none ↦ lookup_unqualified name parents
        ]
      ]
]

unfoldable pub lookup_column : Bytes → Bytes → List Scope → ColumnRead
unfolding lookup_unqualified lookup_table get_column
lookup_column table_name column_name scopes =
    if length table_name == 0
    then lookup_unqualified column_name scopes
    else (elim (lookup_table table_name scopes) [
      | none ↦ no_column none
      | some t ↦ elim (get_column t column_name) [
        | none ↦ no_column (some t)
        | some col ↦ column_found col (some t)
      ]
    ])

-- `GetTables`: `seen` are the names met so far, in capitals.
unfoldable pub seen_before : Bytes → List Bytes → Bool
seen_before key [] = false
seen_before key (k ∷ seen) = if bytes_equal k key then true else seen_before key seen

unfoldable pub get_tables_from : List Bytes → Map Bytes TableInfo → List TableInfo
unfolding seen_before
get_tables_from seen [] = []
get_tables_from seen ((_, t) ∷ tables) =
    let key = to_upper t.name in
    let rest = get_tables_from (key ∷ seen) tables in
    if seen_before key seen then get_tables_from seen tables else t ∷ rest

abbrev pub get_tables : Scope → List TableInfo
get_tables s = get_tables_from [] s.tables

-- The inner loop of `GetAllColumns`: the keys seen so far, and the columns that are new.
unfoldable pub add_columns : Bytes → List ColumnInfo → List Bytes → List Bytes × List ColumnInfo
unfolding seen_before
add_columns table [] seen = (seen, [])
add_columns table (c ∷ cs) seen =
    let key = to_upper (table ++ (bytes "." ++ c.name)) in
    let old = add_columns table cs seen in
    let new = add_columns table cs (key ∷ seen) in
    if seen_before key seen then old else (new.0, c ∷ new.1)

-- `GetAllColumns`
unfoldable pub all_columns_from : List Bytes → Map Bytes TableInfo → List ColumnInfo
unfolding add_columns
all_columns_from seen [] = []
all_columns_from seen ((_, t) ∷ tables) =
    let (seen', columns) = add_columns t.name t.columns seen in
    columns ++ all_columns_from seen' tables

abbrev pub get_all_columns : Scope → List ColumnInfo
get_all_columns s = all_columns_from [] s.tables
