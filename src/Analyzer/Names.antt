-- ===== src/Analyzer/Names.antt =====
-- pkg/analyzer/scope.go: what a name means in a chain of scopes, after a table is defined.
use pizzasql.Prelude.{
  Bool, not, ◌&&◌, ◌||◌, Option, none, some, List, [], ◌∷◌, ◌≡◌, refl, ◌∙◌, arith, ◌==◌,
  if◌then◌else◌, length,
}
use pizzasql.Prelude.Bytes.{Bytes, bytes_eq, bytes_equal}
use pizzasql.Prelude.Map.{Map, lookup, insert, lookup-insert}
use pizzasql.Lexer.Readers.{to_upper}
use pizzasql.Analyzer.Scope.{
  ColumnInfo, TableInfo, Scope, define_columns, define_table, lookup_table, column_found, owner_of,
  lookup_unqualified, lookup_column,
}
use pizzasql.Analyzer.Catalog.{same_name}

-- The table answers to the name, by its alias or by its own name.
abbrev pub answers_to : TableInfo → Bytes → Bool
answers_to info name =
    not (length info.alias == 0) && same_name info.alias name || same_name info.name name

-- In the innermost scope the table that is defined last hides every other table of its names, in
-- whatever letters they are written; all other names mean what they meant before.
pub lookup_table-define_table :
    (info : TableInfo) (s : Scope) (parents : List Scope) (name : Bytes)
    → lookup_table name (define_table info s ∷ parents)
      ≡ (if answers_to info name then some info else lookup_table name (s ∷ parents))
unfolding lookup_table define_table
lookup_table-define_table info s parents name = ground (
  arith,
  lookup-insert (to_upper info.name) (to_upper name) info s.tables,
  lookup-insert (to_upper info.alias) (to_upper name) info
      (insert (to_upper info.name) info s.tables),
)

-- The last column of the name.
abbrev pub last_column : Bytes → List ColumnInfo → Option ColumnInfo
last_column upper [] = none
last_column upper (c ∷ cs) = elim (last_column upper cs) [
  | some later ↦ some later
  | none ↦ if bytes_equal (to_upper c.name) upper then some c else none
]

lookup-define_columns :
    (upper : Bytes) (cs : List ColumnInfo) (m : Map Bytes ColumnInfo)
    → lookup upper (define_columns cs m)
      ≡ (elim (last_column upper cs) [ some c ↦ some c | none ↦ lookup upper m ])
unfolding define_columns
lookup-define_columns upper [] m = refl
lookup-define_columns upper (c ∷ cs) m =
    lookup-define_columns upper cs (insert (to_upper c.name) c m)
    ∙ ground (arith, lookup-insert (to_upper c.name) upper c m)

-- A column without a table is never found to be ambiguous, if the table that was defined last has
-- it: it is the column of that table, although other tables of the scope may have it too. The
-- table that is reported with it is the first one of the scope's map that has the column.
pub lookup_column-define_table :
    (info : TableInfo) (s : Scope) (parents : List Scope) (name : Bytes) (c : ColumnInfo)
    → last_column (to_upper name) info.columns ≡ some c
    → lookup_column [] name (define_table info s ∷ parents)
      ≡ column_found c (owner_of name (define_table info s).tables)
unfolding lookup_column lookup_unqualified define_table
lookup_column-define_table info s parents name c h =
    ground (arith, h, lookup-define_columns (to_upper name) info.columns s.columns)
