-- ===== src/Analyzer/Catalog.antt =====
-- pkg/analyzer/scope.go: the catalog of an analyzer, and the map from names to tables, in any
-- letters, that it promises to be.
use pizzasql.Prelude.{
  Bool, true, false, Option, none, some, List, [], ◌∷◌, ◌≡◌, refl, sym, ◌∙◌, arith, if◌then◌else◌,
  Option-cases, inl, inr,
}
use pizzasql.Prelude.Bytes.{Bytes, bytes_eq, bytes_equal}
use pizzasql.Prelude.Map.{Map, lookup, insert, remove, lookup-insert, lookup-remove}
use pizzasql.Lexer.Readers.{to_upper}
use pizzasql.Analyzer.Scope.{TableInfo}

abbrev pub Catalog : Type 0
Catalog = Map Bytes TableInfo

pub data CatalogResult : Type 0 where
  changed : Catalog → CatalogResult
  table_exists_error table_not_found_error : CatalogResult

unfoldable pub create_table : TableInfo → Catalog → CatalogResult
create_table info c =
    let name = to_upper info.name in
    elim (lookup name c) [ some _ ↦ table_exists_error | none ↦ changed (insert name info c) ]

unfoldable pub drop_table : Bytes → Catalog → CatalogResult
drop_table name c =
    let upper = to_upper name in
    elim (lookup upper c) [ none ↦ table_not_found_error | some _ ↦ changed (remove upper c) ]

unfoldable pub get_table : Bytes → Catalog → Option TableInfo
get_table name c = lookup (to_upper name) c

unfoldable pub table_exists : Bytes → Catalog → Bool
table_exists name c = elim (lookup (to_upper name) c) [ some _ ↦ true | none ↦ false ]

-- `GetTables`
unfoldable pub catalog_tables : Catalog → List TableInfo
catalog_tables [] = []
catalog_tables ((_, t) ∷ c) = t ∷ catalog_tables c

-- Two names are the same but for the case of their letters.
abbrev pub same_name : Bytes → Bytes → Bool
same_name a b = bytes_equal (to_upper a) (to_upper b)

-- What the catalog promises: a partial map from names, which does not tell names apart by the case
-- of their letters.
abbrev pub Names : Type 0
Names = Bytes → Option TableInfo

abbrev pub Implements : Catalog → Names → Type 0
Implements c spec = (name : Bytes) → get_table name c ≡ spec name

abbrev pub with_table : TableInfo → Names → Names
with_table info spec name = if same_name info.name name then some info else spec name

abbrev pub without_table : Bytes → Names → Names
without_table dropped spec name = if same_name dropped name then none else spec name

-- The outcome of an operation against what the map prescribes: the new map, or the error.
abbrev pub Refines : CatalogResult → CatalogResult → Option Names → Type 0
Refines (changed c) error (some spec) = Implements c spec
Refines (changed c) error none = ⊥
Refines r error (some spec) = ⊥
Refines r error none = r ≡ error

-- The catalog implements the map: creating a table fails exactly if the map has the name, and else
-- adds it; dropping one fails exactly if the map does not have it, and else takes it away; a lookup
-- answers from the map, and existence is having an answer.
pub catalog-Refines :
    (c : Catalog) (spec : Names)
    → Implements c spec
    → ((info : TableInfo)
        → Refines
            (create_table info c)
            table_exists_error
            (elim (spec info.name) [ some _ ↦ none | none ↦ some (with_table info spec) ]))
      × ((name : Bytes)
          → Refines
              (drop_table name c)
              table_not_found_error
              (elim (spec name) [ none ↦ none | some _ ↦ some (without_table name spec) ]))
      × ((name : Bytes) → table_exists name c ≡ (elim (spec name) [ some _ ↦ true | none ↦ false ]))
unfolding create_table drop_table get_table table_exists
catalog-Refines c spec h = (
  λ info. elim (Option-cases (lookup (to_upper info.name) c)) [
    | inl (t, e) ↦
        let f : spec info.name ≡ some t = sym (h info.name) ∙ e in rw (create_table, e, f) refl
    | inr e ↦
        let f : spec info.name ≡ none = sym (h info.name) ∙ e in
        rw (create_table, e, f)
          λ name. ground (arith, lookup-insert (to_upper info.name) (to_upper name) info c, h name)
  ],
  λ name. elim (Option-cases (lookup (to_upper name) c)) [
    | inl (t, e) ↦
        let f : spec name ≡ some t = sym (h name) ∙ e in
        rw (drop_table, e, f)
          λ other. ground (arith, lookup-remove (to_upper name) (to_upper other) c, h other)
    | inr e ↦ let f : spec name ≡ none = sym (h name) ∙ e in rw (drop_table, e, f) refl
  ],
  λ name. ground (arith, h name),
)
