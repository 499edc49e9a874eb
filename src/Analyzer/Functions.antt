-- ===== src/Analyzer/Functions.antt =====
-- pkg/analyzer/types.go: the built-in functions.
use pizzasql.Prelude.{ℕ, Bool, true, false, Option, none, some, List, [], ◌∷◌}
use Prim.Native.String.{String}
use pizzasql.Prelude.Bytes.{Bytes, bytes, bytes_eq}
use pizzasql.Prelude.Map.{Map, lookup}
use pizzasql.Lexer.Readers.{to_upper}
use pizzasql.Analyzer.Types.{SqlType, integer, real, text, blob, numeric, boolean, any, jsonb}

-- `max_args` is none where the source has -1.
pub record FunctionSignature : Type 0 where
  pub name : Bytes
  pub min_args : ℕ
  pub max_args : Option ℕ
  pub arg_types : List SqlType
  pub return_type : SqlType
  pub is_aggregate : Bool

abbrev scalar : String → ℕ → Option ℕ → List SqlType → SqlType → FunctionSignature
scalar name min_args max_args arg_types return_type = record {
  name = bytes name;
  min_args = min_args;
  max_args = max_args;
  arg_types = arg_types;
  return_type = return_type;
  is_aggregate = false;
}

abbrev aggregate : String → ℕ → Option ℕ → List SqlType → SqlType → FunctionSignature
aggregate name min_args max_args arg_types return_type = record {
  name = bytes name;
  min_args = min_args;
  max_args = max_args;
  arg_types = arg_types;
  return_type = return_type;
  is_aggregate = true;
}

-- `builtinFunctions`
unfoldable pub builtin_functions : Map Bytes FunctionSignature
builtin_functions =
    (bytes "COUNT", aggregate "COUNT" 0 (some 1) (any ∷ []) integer)
    ∷ (bytes "SUM", aggregate "SUM" 1 (some 1) (numeric ∷ []) numeric)
    ∷ (bytes "AVG", aggregate "AVG" 1 (some 1) (numeric ∷ []) real)
    ∷ (bytes "MIN", aggregate "MIN" 1 (some 1) (any ∷ []) any)
    ∷ (bytes "MAX", aggregate "MAX" 1 (some 1) (any ∷ []) any)
    ∷ (bytes "TOTAL", aggregate "TOTAL" 1 (some 1) (numeric ∷ []) real)
    ∷ (bytes "GROUP_CONCAT", aggregate "GROUP_CONCAT" 1 (some 2) (any ∷ text ∷ []) text)
    ∷ (bytes "STRING_AGG", aggregate "STRING_AGG" 1 (some 2) (any ∷ text ∷ []) text)
    ∷ (bytes "LENGTH", scalar "LENGTH" 1 (some 1) (text ∷ []) integer)
    ∷ (bytes "UPPER", scalar "UPPER" 1 (some 1) (text ∷ []) text)
    ∷ (bytes "LOWER", scalar "LOWER" 1 (some 1) (text ∷ []) text)
    ∷ (bytes "TRIM", scalar "TRIM" 1 (some 1) (text ∷ []) text)
    ∷ (bytes "LTRIM", scalar "LTRIM" 1 (some 2) (text ∷ text ∷ []) text)
    ∷ (bytes "RTRIM", scalar "RTRIM" 1 (some 2) (text ∷ text ∷ []) text)
    ∷ (bytes "SUBSTR", scalar "SUBSTR" 2 (some 3) (text ∷ integer ∷ integer ∷ []) text)
    ∷ (bytes "REPLACE", scalar "REPLACE" 3 (some 3) (text ∷ text ∷ text ∷ []) text)
    ∷ (bytes "INSTR", scalar "INSTR" 2 (some 2) (text ∷ text ∷ []) integer)
    ∷ (bytes "PRINTF", scalar "PRINTF" 1 none (text ∷ []) text)
    ∷ (bytes "CONCAT", scalar "CONCAT" 1 none (any ∷ []) text)
    ∷ (bytes "CONCAT_WS", scalar "CONCAT_WS" 2 none (text ∷ any ∷ []) text)
    ∷ (bytes "ABS", scalar "ABS" 1 (some 1) (numeric ∷ []) numeric)
    ∷ (bytes "ROUND", scalar "ROUND" 1 (some 2) (numeric ∷ integer ∷ []) numeric)
    ∷ (bytes "CEIL", scalar "CEIL" 1 (some 1) (numeric ∷ []) integer)
    ∷ (bytes "FLOOR", scalar "FLOOR" 1 (some 1) (numeric ∷ []) integer)
    ∷ (bytes "MOD", scalar "MOD" 2 (some 2) (integer ∷ integer ∷ []) integer)
    ∷ (bytes "RANDOM", scalar "RANDOM" 0 (some 0) ([]) integer)
    ∷ (bytes "COALESCE", scalar "COALESCE" 1 none (any ∷ []) any)
    ∷ (bytes "NULLIF", scalar "NULLIF" 2 (some 2) (any ∷ any ∷ []) any)
    ∷ (bytes "IFNULL", scalar "IFNULL" 2 (some 2) (any ∷ any ∷ []) any)
    ∷ (bytes "IIF", scalar "IIF" 3 (some 3) (boolean ∷ any ∷ any ∷ []) any)
    ∷ (bytes "ARRAY_LENGTH", scalar "ARRAY_LENGTH" 2 (some 2) (any ∷ integer ∷ []) integer)
    ∷ (bytes "UNNEST", scalar "UNNEST" 1 (some 1) (any ∷ []) any)
    ∷ (bytes "TYPEOF", scalar "TYPEOF" 1 (some 1) (any ∷ []) text)
    ∷ (bytes "CAST", scalar "CAST" 1 (some 1) (any ∷ []) any)
    ∷ (bytes "DATE", scalar "DATE" 0 none (any ∷ []) text)
    ∷ (bytes "TIME", scalar "TIME" 0 none (any ∷ []) text)
    ∷ (bytes "DATETIME", scalar "DATETIME" 0 none (any ∷ []) text)
    ∷ (bytes "JULIANDAY", scalar "JULIANDAY" 0 none (any ∷ []) real)
    ∷ (bytes "UNIXEPOCH", scalar "UNIXEPOCH" 0 none (any ∷ []) integer)
    ∷ (bytes "STRFTIME", scalar "STRFTIME" 1 none (text ∷ any ∷ []) text)
    ∷ (bytes "TIMEDIFF", scalar "TIMEDIFF" 2 (some 2) (any ∷ any ∷ []) text)
    ∷ (bytes "SQLITE_VERSION", scalar "SQLITE_VERSION" 0 (some 0) ([]) text)
    ∷ (bytes "PIZZASQL_VERSION", scalar "PIZZASQL_VERSION" 0 (some 0) ([]) text)
    ∷ (bytes "PIZZASQL_PARAM", scalar "PIZZASQL_PARAM" 1 (some 1) (any ∷ []) any)
    ∷ (bytes "PG_BACKEND_PID", scalar "PG_BACKEND_PID" 0 (some 0) ([]) integer)
    ∷ (bytes "VERSION", scalar "VERSION" 0 (some 0) ([]) text)
    ∷ (bytes "CURRENT_SCHEMA", scalar "CURRENT_SCHEMA" 0 (some 0) ([]) text)
    ∷ (bytes "CURRENT_DATABASE", scalar "CURRENT_DATABASE" 0 (some 0) ([]) text)
    ∷ (bytes "CURRENT_SETTING", scalar "CURRENT_SETTING" 1 (some 2) (text ∷ boolean ∷ []) text)
    ∷ (bytes "FORMAT_TYPE", scalar "FORMAT_TYPE" 1 (some 2) (any ∷ integer ∷ []) text)
    ∷ (bytes "PG_TABLE_IS_VISIBLE", scalar "PG_TABLE_IS_VISIBLE" 1 (some 1) (any ∷ []) boolean)
    ∷ (bytes "PG_GET_INDEXDEF", scalar "PG_GET_INDEXDEF" 1 (some 3) (any ∷ any ∷ boolean ∷ []) text)
    ∷ (
      bytes "PG_GET_CONSTRAINTDEF",
      scalar "PG_GET_CONSTRAINTDEF" 1 (some 2) (any ∷ boolean ∷ []) text,
    )
    ∷ (bytes "PG_GET_EXPR", scalar "PG_GET_EXPR" 1 (some 3) (any ∷ any ∷ boolean ∷ []) text)
    ∷ (
      bytes "PG_GET_SERIAL_SEQUENCE",
      scalar "PG_GET_SERIAL_SEQUENCE" 2 (some 2) (text ∷ text ∷ []) text,
    )
    ∷ (bytes "OBJ_DESCRIPTION", scalar "OBJ_DESCRIPTION" 1 (some 2) (any ∷ text ∷ []) text)
    ∷ (bytes "COL_DESCRIPTION", scalar "COL_DESCRIPTION" 2 (some 2) (any ∷ integer ∷ []) text)
    ∷ (
      bytes "HAS_TABLE_PRIVILEGE",
      scalar "HAS_TABLE_PRIVILEGE" 2 (some 3) (any ∷ text ∷ text ∷ []) boolean,
    )
    ∷ (bytes "PG_GET_USERBYID", scalar "PG_GET_USERBYID" 1 (some 1) (any ∷ []) text)
    ∷ (bytes "TO_REGCLASS", scalar "TO_REGCLASS" 1 (some 1) (text ∷ []) any)
    ∷ (bytes "TO_REGTYPE", scalar "TO_REGTYPE" 1 (some 1) (text ∷ []) any)
    ∷ (bytes "LAST_INSERT_ROWID", scalar "LAST_INSERT_ROWID" 0 (some 0) ([]) integer)
    ∷ (bytes "CHANGES", scalar "CHANGES" 0 (some 0) ([]) integer)
    ∷ (bytes "TOTAL_CHANGES", scalar "TOTAL_CHANGES" 0 (some 0) ([]) integer)
    ∷ (bytes "HEX", scalar "HEX" 1 (some 1) (blob ∷ []) text)
    ∷ (bytes "UNHEX", scalar "UNHEX" 1 (some 1) (text ∷ []) blob)
    ∷ (bytes "ZEROBLOB", scalar "ZEROBLOB" 1 (some 1) (integer ∷ []) blob)
    ∷ (bytes "QUOTE", scalar "QUOTE" 1 (some 1) (any ∷ []) text)
    ∷ (bytes "PERCENT_DIFF", scalar "PERCENT_DIFF" 2 (some 2) (numeric ∷ numeric ∷ []) real)
    ∷ (bytes "JSON", scalar "JSON" 1 (some 1) (any ∷ []) text)
    ∷ (bytes "JSONB", scalar "JSONB" 1 (some 1) (any ∷ []) text)
    ∷ (bytes "JSON_VALID", scalar "JSON_VALID" 1 (some 1) (any ∷ []) integer)
    ∷ (bytes "JSONB_VALID", scalar "JSONB_VALID" 1 (some 1) (any ∷ []) integer)
    ∷ (bytes "JSON_TYPE", scalar "JSON_TYPE" 1 (some 2) (any ∷ text ∷ []) text)
    ∷ (bytes "JSON_EXTRACT", scalar "JSON_EXTRACT" 2 none (any ∷ text ∷ []) any)
    ∷ (bytes "JSONB_EXTRACT", scalar "JSONB_EXTRACT" 2 none (any ∷ text ∷ []) any)
    ∷ (bytes "JSON_SET", scalar "JSON_SET" 3 none (any ∷ text ∷ any ∷ []) text)
    ∷ (bytes "JSONB_SET", scalar "JSONB_SET" 3 none (any ∷ text ∷ any ∷ []) jsonb)
    ∷ (bytes "JSON_INSERT", scalar "JSON_INSERT" 3 none (any ∷ text ∷ any ∷ []) text)
    ∷ (bytes "JSONB_INSERT", scalar "JSONB_INSERT" 3 none (any ∷ text ∷ any ∷ []) jsonb)
    ∷ (bytes "JSON_REPLACE", scalar "JSON_REPLACE" 3 none (any ∷ text ∷ any ∷ []) text)
    ∷ (bytes "JSONB_REPLACE", scalar "JSONB_REPLACE" 3 none (any ∷ text ∷ any ∷ []) jsonb)
    ∷ (bytes "JSON_REMOVE", scalar "JSON_REMOVE" 2 none (any ∷ text ∷ []) text)
    ∷ (bytes "JSONB_REMOVE", scalar "JSONB_REMOVE" 2 none (any ∷ text ∷ []) jsonb)
    ∷ (bytes "JSON_ARRAY", scalar "JSON_ARRAY" 0 none (any ∷ []) text)
    ∷ (bytes "JSON_ARRAY_LENGTH", scalar "JSON_ARRAY_LENGTH" 1 (some 2) (any ∷ text ∷ []) integer)
    ∷ (bytes "JSONB_ARRAY", scalar "JSONB_ARRAY" 0 none (any ∷ []) text)
    ∷ (bytes "JSON_OBJECT", scalar "JSON_OBJECT" 0 none (any ∷ []) text)
    ∷ (bytes "JSONB_OBJECT", scalar "JSONB_OBJECT" 0 none (any ∷ []) text)
    ∷ (bytes "JSON_QUOTE", scalar "JSON_QUOTE" 1 (some 1) (any ∷ []) text)
    ∷ (bytes "JSONB_QUOTE", scalar "JSONB_QUOTE" 1 (some 1) (any ∷ []) text)
    ∷ (bytes "JSON_GROUP_ARRAY", aggregate "JSON_GROUP_ARRAY" 1 (some 1) (any ∷ []) text)
    ∷ (bytes "JSONB_GROUP_ARRAY", aggregate "JSONB_GROUP_ARRAY" 1 (some 1) (any ∷ []) text)
    ∷ (bytes "TO_JSONB", scalar "TO_JSONB" 1 (some 1) (any ∷ []) jsonb)
    ∷ (bytes "JSONB_TYPEOF", scalar "JSONB_TYPEOF" 1 (some 1) (any ∷ []) text)
    ∷ (bytes "JSONB_ARRAY_LENGTH", scalar "JSONB_ARRAY_LENGTH" 1 (some 1) (any ∷ []) integer)
    ∷ (bytes "JSONB_STRIP_NULLS", scalar "JSONB_STRIP_NULLS" 1 (some 1) (any ∷ []) jsonb)
    ∷ (bytes "JSONB_PRETTY", scalar "JSONB_PRETTY" 1 (some 1) (any ∷ []) text)
    ∷ (bytes "JSONB_BUILD_OBJECT", scalar "JSONB_BUILD_OBJECT" 0 none (any ∷ []) jsonb)
    ∷ (bytes "JSONB_BUILD_ARRAY", scalar "JSONB_BUILD_ARRAY" 0 none (any ∷ []) jsonb)
    ∷ (bytes "JSONB_EACH", scalar "JSONB_EACH" 1 (some 1) (any ∷ []) any)
    ∷ (bytes "JSONB_EACH_TEXT", scalar "JSONB_EACH_TEXT" 1 (some 1) (any ∷ []) any)
    ∷ (bytes "JSONB_ARRAY_ELEMENTS", scalar "JSONB_ARRAY_ELEMENTS" 1 (some 1) (any ∷ []) any)
    ∷ (
      bytes "JSONB_ARRAY_ELEMENTS_TEXT",
      scalar "JSONB_ARRAY_ELEMENTS_TEXT" 1 (some 1) (any ∷ []) any,
    )
    ∷ (bytes "JSONB_OBJECT_KEYS", scalar "JSONB_OBJECT_KEYS" 1 (some 1) (any ∷ []) text)
    ∷ (bytes "JSONB_PATH_EXISTS", scalar "JSONB_PATH_EXISTS" 2 none (any ∷ []) boolean)
    ∷ (bytes "JSONB_PATH_EXISTS_TZ", scalar "JSONB_PATH_EXISTS_TZ" 2 none (any ∷ []) boolean)
    ∷ (bytes "JSONB_PATH_MATCH", scalar "JSONB_PATH_MATCH" 2 none (any ∷ []) boolean)
    ∷ (bytes "JSONB_PATH_MATCH_TZ", scalar "JSONB_PATH_MATCH_TZ" 2 none (any ∷ []) boolean)
    ∷ (bytes "JSONB_PATH_QUERY", scalar "JSONB_PATH_QUERY" 2 none (any ∷ []) any)
    ∷ (bytes "JSONB_PATH_QUERY_TZ", scalar "JSONB_PATH_QUERY_TZ" 2 none (any ∷ []) any)
    ∷ (bytes "JSONB_PATH_QUERY_ARRAY", scalar "JSONB_PATH_QUERY_ARRAY" 2 none (any ∷ []) any)
    ∷ (bytes "JSONB_PATH_QUERY_ARRAY_TZ", scalar "JSONB_PATH_QUERY_ARRAY_TZ" 2 none (any ∷ []) any)
    ∷ (bytes "JSONB_PATH_QUERY_FIRST", scalar "JSONB_PATH_QUERY_FIRST" 2 none (any ∷ []) any)
    ∷ (bytes "JSONB_PATH_QUERY_FIRST_TZ", scalar "JSONB_PATH_QUERY_FIRST_TZ" 2 none (any ∷ []) any)
    ∷ []

unfoldable pub lookup_function : Bytes → Option FunctionSignature
lookup_function name = lookup (to_upper name) builtin_functions

unfoldable pub is_aggregate_function : Bytes → Bool
unfolding lookup_function
is_aggregate_function name = elim (lookup_function name) [
  | some sig ↦ sig.is_aggregate
  | none ↦ false
]
