-- ===== src/Analyzer/Types.antt =====
-- pkg/analyzer/types.go: `Type` and its rules.
use pizzasql.Prelude.{
  ℕ, ◌-◌, Bool, true, false, ◌&&◌, ◌||◌, [], ◌∷◌, ◌==◌, leb, if◌then◌else◌, length, take, drop,
}
use mathlib.Core.List.{reverse}
use pizzasql.Prelude.Bytes.{Bytes, bytes, bytes_equal, has_prefix}
use pizzasql.Lexer.Readers.{to_upper}

pub data SqlType : Type 0 where
  unknown null integer real text blob numeric boolean any jsonb : SqlType

-- `==` on types, by the number of the constant.
abbrev pub type_number : SqlType → ℕ
type_number unknown = 0
type_number null = 1
type_number integer = 2
type_number real = 3
type_number text = 4
type_number blob = 5
type_number numeric = 6
type_number boolean = 7
type_number any = 8
type_number jsonb = 9

abbrev pub same_type : SqlType → SqlType → Bool
same_type a b = type_number a == type_number b

-- `strings.Contains`
unfoldable pub has_substring : Bytes → Bytes → Bool
has_substring [] needle = has_prefix [] needle
has_substring (c ∷ cs) needle = has_prefix (c ∷ cs) needle || has_substring cs needle

abbrev pub is_white_space : ℕ → Bool
is_white_space c = c == 32 || leb 9 c && leb c 13

unfoldable pub trim_left : Bytes → Bytes
trim_left [] = []
trim_left (c ∷ cs) = if is_white_space c then trim_left cs else c ∷ cs

-- `strings.TrimSpace` on ASCII.
abbrev pub trim_space : Bytes → Bytes
trim_space s = reverse (trim_left (reverse (trim_left s)))

-- `strings.TrimSuffix`
abbrev pub trim_suffix : Bytes → Bytes → Bytes
trim_suffix s suffix =
    let n = length s - length suffix in
    if leb (length suffix) (length s) && bytes_equal (drop n s) suffix then take n s else s

-- The rules of `TypeFromName` behind the normalised name.
unfoldable pub affinity : Bytes → SqlType
unfolding has_substring
affinity upper =
    if bytes_equal upper (bytes "JSONB")
    then jsonb
    else if has_substring upper (bytes "INT")
    then integer
    else if has_substring upper (bytes "CHAR")
        || has_substring upper (bytes "CLOB")
        || has_substring upper (bytes "TEXT")
    then text
    else if bytes_equal upper (bytes "UUID")
    then text
    else if has_substring upper (bytes "BLOB") || length upper == 0
    then blob
    else if has_substring upper (bytes "REAL")
        || has_substring upper (bytes "FLOA")
        || has_substring upper (bytes "DOUB")
    then real
    else if bytes_equal upper (bytes "BOOLEAN") || bytes_equal upper (bytes "BOOL")
    then boolean
    else numeric

unfoldable pub type_from_name : Bytes → SqlType
unfolding affinity trim_left
type_from_name name = affinity (trim_suffix (to_upper (trim_space name)) (bytes "[]"))

unfoldable pub is_numeric : SqlType → Bool
is_numeric integer = true
is_numeric real = true
is_numeric numeric = true
is_numeric boolean = true
is_numeric _ = false

abbrev pub is_text_or_blob : SqlType → Bool
is_text_or_blob t = same_type t text || same_type t blob

-- `textLike`
abbrev pub text_like : SqlType → Bool
text_like t =
    same_type t jsonb || same_type t text || same_type t blob || same_type t null || same_type t any

unfoldable pub is_comparable : SqlType → SqlType → Bool
unfolding is_numeric
is_comparable t other =
    if same_type t null || same_type other null
    then true
    else if same_type t any || same_type other any
    then true
    else if same_type t other
    then true
    else if is_numeric t && is_numeric other
    then true
    else if is_text_or_blob t && is_text_or_blob other
    then true
    else if same_type t jsonb || same_type other jsonb
    then text_like t && text_like other
    else if (same_type t numeric || same_type t boolean) && is_text_or_blob other
    then true
    else if (same_type other numeric || same_type other boolean) && is_text_or_blob t
    then true
    else false

unfoldable pub common_type : SqlType → SqlType → SqlType
unfolding is_numeric
common_type a b =
    if same_type a unknown
    then b
    else if same_type b unknown
    then a
    else if same_type a null
    then b
    else if same_type b null
    then a
    else if same_type a any
    then b
    else if same_type b any
    then a
    else if same_type a b
    then a
    else if is_numeric a && is_numeric b
    then (if same_type a real || same_type b real
        then real
        else if same_type a numeric || same_type b numeric
        then numeric
        else integer)
    else if is_text_or_blob a && is_text_or_blob b
    then text
    else if same_type a jsonb && is_text_or_blob b
    then jsonb
    else if same_type b jsonb && is_text_or_blob a
    then jsonb
    else text
