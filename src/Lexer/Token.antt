-- ===== src/Lexer/Token.antt =====
-- pkg/lexer/token.go: the token types in the order of the source, and `Token`.
use pizzasql.Prelude.{ℕ, Bool, leb, ◌&&◌}
use pizzasql.Prelude.Bytes.{Bytes}

-- `TokenBLOB`, the name of a data type, is `token_blob_type` beside the literal `TokenBlob`.
pub data TokenType : Type 0 where
  token_eof token_error token_comment token_ident token_number token_string : TokenType
  token_blob token_plus token_minus token_star token_slash token_percent : TokenType
  token_concat token_arrow token_arrow_text token_eq token_neq token_lt token_lte : TokenType
  token_gt token_gte token_bit_and token_bit_or token_bit_not token_shift_left : TokenType
  token_shift_right token_hash_arrow token_hash_arrow_text token_hash_minus : TokenType
  token_at_arrow token_at_at token_at_question token_lt_at token_question : TokenType
  token_question_pipe token_question_amp token_l_paren token_r_paren token_comma : TokenType
  token_semicolon token_dot token_select token_from token_where token_and token_or : TokenType
  token_not token_as token_distinct token_all token_returning token_insert : TokenType
  token_into token_values token_update token_set token_delete token_create : TokenType
  token_drop token_alter token_table token_index token_view token_database : TokenType
  token_schema token_add token_column token_rename token_to token_primary token_key : TokenType
  token_foreign token_references token_unique token_check token_constraint : TokenType
  token_default token_autoincrement token_order token_by token_asc token_desc : TokenType
  token_limit token_offset token_group token_having token_join token_inner : TokenType
  token_left token_right token_full token_outer token_cross token_natural token_on : TokenType
  token_using token_union token_intersect token_except token_in token_between : TokenType
  token_like token_glob token_escape token_is token_null token_exists token_case : TokenType
  token_when token_then token_else token_end token_cast token_coalesce token_nullif : TokenType
  token_if token_true token_false token_integer token_int token_tinyint : TokenType
  token_smallint token_mediumint token_bigint token_real token_float token_double : TokenType
  token_numeric token_decimal token_text token_varchar token_char token_character : TokenType
  token_clob token_nchar token_nvarchar token_blob_type token_boolean token_date : TokenType
  token_time token_timestamp token_datetime token_json token_jsonb token_begin : TokenType
  token_commit token_rollback token_transaction token_savepoint token_release : TokenType
  token_pragma token_explain token_query token_plan token_attach token_detach : TokenType
  token_vacuum token_analyze token_reindex token_replace token_ignore token_fail : TokenType
  token_abort token_conflict token_do token_nothing token_colon_colon : TokenType
  token_l_bracket token_r_bracket : TokenType

-- The number that `iota` gives.
abbrev pub ordinal : TokenType → ℕ
ordinal token_eof = 0
ordinal token_error = 1
ordinal token_comment = 2
ordinal token_ident = 3
ordinal token_number = 4
ordinal token_string = 5
ordinal token_blob = 6
ordinal token_plus = 7
ordinal token_minus = 8
ordinal token_star = 9
ordinal token_slash = 10
ordinal token_percent = 11
ordinal token_concat = 12
ordinal token_arrow = 13
ordinal token_arrow_text = 14
ordinal token_eq = 15
ordinal token_neq = 16
ordinal token_lt = 17
ordinal token_lte = 18
ordinal token_gt = 19
ordinal token_gte = 20
ordinal token_bit_and = 21
ordinal token_bit_or = 22
ordinal token_bit_not = 23
ordinal token_shift_left = 24
ordinal token_shift_right = 25
ordinal token_hash_arrow = 26
ordinal token_hash_arrow_text = 27
ordinal token_hash_minus = 28
ordinal token_at_arrow = 29
ordinal token_at_at = 30
ordinal token_at_question = 31
ordinal token_lt_at = 32
ordinal token_question = 33
ordinal token_question_pipe = 34
ordinal token_question_amp = 35
ordinal token_l_paren = 36
ordinal token_r_paren = 37
ordinal token_comma = 38
ordinal token_semicolon = 39
ordinal token_dot = 40
ordinal token_select = 41
ordinal token_from = 42
ordinal token_where = 43
ordinal token_and = 44
ordinal token_or = 45
ordinal token_not = 46
ordinal token_as = 47
ordinal token_distinct = 48
ordinal token_all = 49
ordinal token_returning = 50
ordinal token_insert = 51
ordinal token_into = 52
ordinal token_values = 53
ordinal token_update = 54
ordinal token_set = 55
ordinal token_delete = 56
ordinal token_create = 57
ordinal token_drop = 58
ordinal token_alter = 59
ordinal token_table = 60
ordinal token_index = 61
ordinal token_view = 62
ordinal token_database = 63
ordinal token_schema = 64
ordinal token_add = 65
ordinal token_column = 66
ordinal token_rename = 67
ordinal token_to = 68
ordinal token_primary = 69
ordinal token_key = 70
ordinal token_foreign = 71
ordinal token_references = 72
ordinal token_unique = 73
ordinal token_check = 74
ordinal token_constraint = 75
ordinal token_default = 76
ordinal token_autoincrement = 77
ordinal token_order = 78
ordinal token_by = 79
ordinal token_asc = 80
ordinal token_desc = 81
ordinal token_limit = 82
ordinal token_offset = 83
ordinal token_group = 84
ordinal token_having = 85
ordinal token_join = 86
ordinal token_inner = 87
ordinal token_left = 88
ordinal token_right = 89
ordinal token_full = 90
ordinal token_outer = 91
ordinal token_cross = 92
ordinal token_natural = 93
ordinal token_on = 94
ordinal token_using = 95
ordinal token_union = 96
ordinal token_intersect = 97
ordinal token_except = 98
ordinal token_in = 99
ordinal token_between = 100
ordinal token_like = 101
ordinal token_glob = 102
ordinal token_escape = 103
ordinal token_is = 104
ordinal token_null = 105
ordinal token_exists = 106
ordinal token_case = 107
ordinal token_when = 108
ordinal token_then = 109
ordinal token_else = 110
ordinal token_end = 111
ordinal token_cast = 112
ordinal token_coalesce = 113
ordinal token_nullif = 114
ordinal token_if = 115
ordinal token_true = 116
ordinal token_false = 117
ordinal token_integer = 118
ordinal token_int = 119
ordinal token_tinyint = 120
ordinal token_smallint = 121
ordinal token_mediumint = 122
ordinal token_bigint = 123
ordinal token_real = 124
ordinal token_float = 125
ordinal token_double = 126
ordinal token_numeric = 127
ordinal token_decimal = 128
ordinal token_text = 129
ordinal token_varchar = 130
ordinal token_char = 131
ordinal token_character = 132
ordinal token_clob = 133
ordinal token_nchar = 134
ordinal token_nvarchar = 135
ordinal token_blob_type = 136
ordinal token_boolean = 137
ordinal token_date = 138
ordinal token_time = 139
ordinal token_timestamp = 140
ordinal token_datetime = 141
ordinal token_json = 142
ordinal token_jsonb = 143
ordinal token_begin = 144
ordinal token_commit = 145
ordinal token_rollback = 146
ordinal token_transaction = 147
ordinal token_savepoint = 148
ordinal token_release = 149
ordinal token_pragma = 150
ordinal token_explain = 151
ordinal token_query = 152
ordinal token_plan = 153
ordinal token_attach = 154
ordinal token_detach = 155
ordinal token_vacuum = 156
ordinal token_analyze = 157
ordinal token_reindex = 158
ordinal token_replace = 159
ordinal token_ignore = 160
ordinal token_fail = 161
ordinal token_abort = 162
ordinal token_conflict = 163
ordinal token_do = 164
ordinal token_nothing = 165
ordinal token_colon_colon = 166
ordinal token_l_bracket = 167
ordinal token_r_bracket = 168

pub record Token : Type 0 where
  pub type : TokenType
  pub literal : Bytes
  pub line : ℕ
  pub column : ℕ
  pub bracketed : Bool

-- `IsKeyword` and `IsOperator`
abbrev pub is_keyword : Token → Bool
is_keyword t = leb (ordinal token_select) (ordinal t.type)

abbrev pub is_operator : Token → Bool
is_operator t =
    leb (ordinal token_plus) (ordinal t.type) && leb (ordinal t.type) (ordinal token_gte)
