-- ===== src/Lexer/Keywords.antt =====
-- pkg/lexer/token.go: `keywords`, `LookupKeyword`, `tokenNames` and `TokenType.String`.
use pizzasql.Prelude.{ℕ, ◌+◌, ◌/◌, ◌%◌, Option, none, some, [], ◌∷◌, ◌++◌, ◌==◌, if◌then◌else◌}
use pizzasql.Prelude.Bytes.{Bytes, bytes, bytes_eq}
use pizzasql.Prelude.Map.{Map, lookup}
use pizzasql.Lexer.Token.{
  TokenType, ordinal, token_eof, token_error, token_comment, token_ident, token_number,
  token_string, token_blob, token_plus, token_minus, token_star, token_slash, token_percent,
  token_concat, token_arrow, token_arrow_text, token_eq, token_neq, token_lt, token_lte, token_gt,
  token_gte, token_bit_and, token_bit_or, token_bit_not, token_shift_left, token_shift_right,
  token_hash_arrow, token_hash_arrow_text, token_hash_minus, token_at_arrow, token_at_at,
  token_at_question, token_lt_at, token_question, token_question_pipe, token_question_amp,
  token_l_paren, token_r_paren, token_comma, token_semicolon, token_dot, token_select, token_from,
  token_where, token_and, token_or, token_not, token_as, token_distinct, token_all, token_returning,
  token_insert, token_into, token_values, token_update, token_set, token_delete, token_create,
  token_drop, token_alter, token_table, token_index, token_view, token_database, token_schema,
  token_add, token_column, token_rename, token_to, token_primary, token_key, token_foreign,
  token_references, token_unique, token_check, token_constraint, token_default, token_autoincrement,
  token_order, token_by, token_asc, token_desc, token_limit, token_offset, token_group,
  token_having, token_join, token_inner, token_left, token_right, token_full, token_outer,
  token_cross, token_natural, token_on, token_using, token_union, token_intersect, token_except,
  token_in, token_between, token_like, token_glob, token_escape, token_is, token_null, token_exists,
  token_case, token_when, token_then, token_else, token_end, token_cast, token_coalesce,
  token_nullif, token_if, token_true, token_false, token_integer, token_int, token_tinyint,
  token_smallint, token_mediumint, token_bigint, token_real, token_float, token_double,
  token_numeric, token_decimal, token_text, token_varchar, token_char, token_character, token_clob,
  token_nchar, token_nvarchar, token_blob_type, token_boolean, token_date, token_time,
  token_timestamp, token_datetime, token_json, token_jsonb, token_begin, token_commit,
  token_rollback, token_transaction, token_savepoint, token_release, token_pragma, token_explain,
  token_query, token_attach, token_detach, token_vacuum, token_analyze, token_reindex,
  token_replace, token_ignore, token_fail, token_abort, token_conflict, token_do, token_nothing,
  token_colon_colon, token_l_bracket, token_r_bracket,
}

abbrev pub keywords : Map Bytes TokenType
keywords =
    (bytes "SELECT", token_select)
    ∷ (bytes "FROM", token_from)
    ∷ (bytes "WHERE", token_where)
    ∷ (bytes "AND", token_and)
    ∷ (bytes "OR", token_or)
    ∷ (bytes "NOT", token_not)
    ∷ (bytes "AS", token_as)
    ∷ (bytes "DISTINCT", token_distinct)
    ∷ (bytes "ALL", token_all)
    ∷ (bytes "RETURNING", token_returning)
    ∷ (bytes "INSERT", token_insert)
    ∷ (bytes "INTO", token_into)
    ∷ (bytes "VALUES", token_values)
    ∷ (bytes "UPDATE", token_update)
    ∷ (bytes "SET", token_set)
    ∷ (bytes "DELETE", token_delete)
    ∷ (bytes "CREATE", token_create)
    ∷ (bytes "DROP", token_drop)
    ∷ (bytes "ALTER", token_alter)
    ∷ (bytes "TABLE", token_table)
    ∷ (bytes "INDEX", token_index)
    ∷ (bytes "VIEW", token_view)
    ∷ (bytes "DATABASE", token_database)
    ∷ (bytes "SCHEMA", token_schema)
    ∷ (bytes "ADD", token_add)
    ∷ (bytes "COLUMN", token_column)
    ∷ (bytes "RENAME", token_rename)
    ∷ (bytes "TO", token_to)
    ∷ (bytes "PRIMARY", token_primary)
    ∷ (bytes "KEY", token_key)
    ∷ (bytes "FOREIGN", token_foreign)
    ∷ (bytes "REFERENCES", token_references)
    ∷ (bytes "UNIQUE", token_unique)
    ∷ (bytes "CHECK", token_check)
    ∷ (bytes "CONSTRAINT", token_constraint)
    ∷ (bytes "DEFAULT", token_default)
    ∷ (bytes "AUTOINCREMENT", token_autoincrement)
    ∷ (bytes "ORDER", token_order)
    ∷ (bytes "BY", token_by)
    ∷ (bytes "ASC", token_asc)
    ∷ (bytes "DESC", token_desc)
    ∷ (bytes "LIMIT", token_limit)
    ∷ (bytes "OFFSET", token_offset)
    ∷ (bytes "GROUP", token_group)
    ∷ (bytes "HAVING", token_having)
    ∷ (bytes "JOIN", token_join)
    ∷ (bytes "INNER", token_inner)
    ∷ (bytes "LEFT", token_left)
    ∷ (bytes "RIGHT", token_right)
    ∷ (bytes "FULL", token_full)
    ∷ (bytes "OUTER", token_outer)
    ∷ (bytes "CROSS", token_cross)
    ∷ (bytes "NATURAL", token_natural)
    ∷ (bytes "ON", token_on)
    ∷ (bytes "USING", token_using)
    ∷ (bytes "UNION", token_union)
    ∷ (bytes "INTERSECT", token_intersect)
    ∷ (bytes "EXCEPT", token_except)
    ∷ (bytes "IN", token_in)
    ∷ (bytes "BETWEEN", token_between)
    ∷ (bytes "LIKE", token_like)
    ∷ (bytes "GLOB", token_glob)
    ∷ (bytes "ESCAPE", token_escape)
    ∷ (bytes "IS", token_is)
    ∷ (bytes "NULL", token_null)
    ∷ (bytes "EXISTS", token_exists)
    ∷ (bytes "CASE", token_case)
    ∷ (bytes "WHEN", token_when)
    ∷ (bytes "THEN", token_then)
    ∷ (bytes "ELSE", token_else)
    ∷ (bytes "END", token_end)
    ∷ (bytes "CAST", token_cast)
    ∷ (bytes "COALESCE", token_coalesce)
    ∷ (bytes "NULLIF", token_nullif)
    ∷ (bytes "IF", token_if)
    ∷ (bytes "TRUE", token_true)
    ∷ (bytes "FALSE", token_false)
    ∷ (bytes "INTEGER", token_integer)
    ∷ (bytes "INT", token_int)
    ∷ (bytes "TINYINT", token_tinyint)
    ∷ (bytes "SMALLINT", token_smallint)
    ∷ (bytes "MEDIUMINT", token_mediumint)
    ∷ (bytes "BIGINT", token_bigint)
    ∷ (bytes "REAL", token_real)
    ∷ (bytes "FLOAT", token_float)
    ∷ (bytes "DOUBLE", token_double)
    ∷ (bytes "NUMERIC", token_numeric)
    ∷ (bytes "DECIMAL", token_decimal)
    ∷ (bytes "TEXT", token_text)
    ∷ (bytes "VARCHAR", token_varchar)
    ∷ (bytes "CHAR", token_char)
    ∷ (bytes "CHARACTER", token_character)
    ∷ (bytes "CLOB", token_clob)
    ∷ (bytes "NCHAR", token_nchar)
    ∷ (bytes "NVARCHAR", token_nvarchar)
    ∷ (bytes "BLOB", token_blob_type)
    ∷ (bytes "BOOLEAN", token_boolean)
    ∷ (bytes "DATE", token_date)
    ∷ (bytes "TIME", token_time)
    ∷ (bytes "TIMESTAMP", token_timestamp)
    ∷ (bytes "DATETIME", token_datetime)
    ∷ (bytes "JSON", token_json)
    ∷ (bytes "JSONB", token_jsonb)
    ∷ (bytes "BEGIN", token_begin)
    ∷ (bytes "COMMIT", token_commit)
    ∷ (bytes "ROLLBACK", token_rollback)
    ∷ (bytes "TRANSACTION", token_transaction)
    ∷ (bytes "SAVEPOINT", token_savepoint)
    ∷ (bytes "RELEASE", token_release)
    ∷ (bytes "PRAGMA", token_pragma)
    ∷ (bytes "EXPLAIN", token_explain)
    ∷ (bytes "QUERY", token_query)
    ∷ (bytes "ATTACH", token_attach)
    ∷ (bytes "DETACH", token_detach)
    ∷ (bytes "VACUUM", token_vacuum)
    ∷ (bytes "ANALYZE", token_analyze)
    ∷ (bytes "REINDEX", token_reindex)
    ∷ (bytes "REPLACE", token_replace)
    ∷ (bytes "IGNORE", token_ignore)
    ∷ (bytes "FAIL", token_fail)
    ∷ (bytes "ABORT", token_abort)
    ∷ (bytes "CONFLICT", token_conflict)
    ∷ (bytes "DO", token_do)
    ∷ (bytes "NOTHING", token_nothing)
    ∷ []

unfoldable pub lookup_keyword : Bytes → TokenType
unfolding lookup
lookup_keyword ident = elim (lookup ident keywords) [ some tok ↦ tok | none ↦ token_ident ]

-- `tokenNames[t]`
abbrev pub token_names : TokenType → Option Bytes
token_names token_eof = some (bytes "EOF")
token_names token_error = some (bytes "ERROR")
token_names token_comment = some (bytes "COMMENT")
token_names token_ident = some (bytes "IDENT")
token_names token_number = some (bytes "NUMBER")
token_names token_string = some (bytes "STRING")
token_names token_blob = some (bytes "BLOB")
token_names token_plus = some (bytes "+")
token_names token_minus = some (bytes "-")
token_names token_star = some (bytes "*")
token_names token_slash = some (bytes "/")
token_names token_percent = some (bytes "%")
token_names token_concat = some (bytes "||")
token_names token_arrow = some (bytes "->")
token_names token_arrow_text = some (bytes "->>")
token_names token_eq = some (bytes "=")
token_names token_neq = some (bytes "<>")
token_names token_lt = some (bytes "<")
token_names token_lte = some (bytes "<=")
token_names token_gt = some (bytes ">")
token_names token_gte = some (bytes ">=")
token_names token_bit_and = some (bytes "&")
token_names token_bit_or = some (bytes "|")
token_names token_bit_not = some (bytes "~")
token_names token_shift_left = some (bytes "<<")
token_names token_shift_right = some (bytes ">>")
token_names token_hash_arrow = some (bytes "#>")
token_names token_hash_arrow_text = some (bytes "#>>")
token_names token_hash_minus = some (bytes "#-")
token_names token_at_arrow = some (bytes "@>")
token_names token_at_at = some (bytes "@@")
token_names token_at_question = some (bytes "@?")
token_names token_lt_at = some (bytes "<@")
token_names token_question = some (bytes "?")
token_names token_question_pipe = some (bytes "?|")
token_names token_question_amp = some (bytes "?&")
token_names token_l_paren = some (bytes "(")
token_names token_r_paren = some (bytes ")")
token_names token_comma = some (bytes ",")
token_names token_semicolon = some (bytes ";")
token_names token_dot = some (bytes ".")
token_names token_colon_colon = some (bytes "::")
token_names token_l_bracket = some (bytes "[")
token_names token_r_bracket = some (bytes "]")
token_names _ = none

-- The keywords in the order in which `range` yields them, until one has the type `t`.
unfoldable pub keyword_of : TokenType → Map Bytes TokenType → Option Bytes
keyword_of t [] = none
keyword_of t ((kw, tok) ∷ rest) = if ordinal tok == ordinal t then some kw else keyword_of t rest

-- `%d` of a number below 1000.
abbrev digits : ℕ → Bytes
digits n =
    (if n / 100 == 0 then [] else (b'0' + n / 100) ∷ [])
    ++ (if n / 10 == 0 then [] else (b'0' + n / 10 % 10) ∷ [])
    ++ (b'0' + n % 10) ∷ []

-- `String`
unfoldable pub string_of : Map Bytes TokenType → TokenType → Bytes
unfolding keyword_of
string_of range t = elim (token_names t) [
  | some name ↦ name
  | none ↦ (elim (keyword_of t range) [
    | some kw ↦ kw
    | none ↦ bytes "TOKEN(" ++ digits (ordinal t) ++ bytes ")"
  ])
]
