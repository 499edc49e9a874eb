-- ===== src/Storage/RowCodec/Encode.antt =====
-- pkg/storage/rowcodec.go: `encodeValue`, `encodeRow` and the `append` functions.
use pizzasql.Prelude.{
  ℕ, ◌%◌, ◌^◌, Option, none, some, List, [], ◌∷◌, ◌++◌, ltb, if◌then◌else◌, length,
}
use pizzasql.Prelude.Bytes.{Bytes, bytes_eq}
use pizzasql.Prelude.Map.{lookup}
use pizzasql.Storage.RowCodec.{
  Value, nil, bool, int, int8, int16, int32, int64, uint, uint8, uint16, uint32, uint64, uintptr,
  float32, float64, string, byte_slice, number, other, Row, row_magic, row_version,
  max_row_field_len, max_uint32, word_of_int,
}
use pizzasql.Storage.RowCodec.Words.{put_le}
use pizzasql.Storage.RowCodec.Slices.{
  Outcome, ok, too_many_fields, name_too_long, ◌>>=◌, ◌>>◌, reject_if,
}
use pizzasql.Storage.RowCodec.Names.{sort_names}

-- `appendU32`, `appendU64` and `appendBytesField`.
unfoldable pub append_u32 : Bytes → ℕ → Bytes
unfolding put_le
append_u32 dst v = dst ++ put_le 4 v

unfoldable pub append_u64 : Bytes → ℕ → Bytes
unfolding put_le
append_u64 dst v = dst ++ put_le 8 v

unfoldable pub append_bytes_field : Bytes → Bytes → Bytes
unfolding append_u32
append_bytes_field dst content = append_u32 dst (length content) ++ content

-- `if len(t) > maxRowFieldLen { return nil, false }`, and the field behind its tag.
unfoldable pub encode_bytes : ℕ → Bytes → Option Bytes
unfolding append_bytes_field
encode_bytes tag t =
    if ltb max_row_field_len (length t) then none else some (append_bytes_field (tag ∷ []) t)

-- The third loop.
unfoldable pub append_fields : Bytes → List (Bytes × Bytes) → Bytes
unfolding append_u32
append_fields buf [] = buf
append_fields buf ((name, enc) ∷ fields) =
    append_fields ((append_u32 buf (length name) ++ name) ++ enc) fields

abbrev pub row_header : ℕ → Bytes
row_header count = append_u32 ((row_magic ++ row_version ∷ [])) (count % 2 ^ 32)

abbrev pub write_row : Outcome Bytes → ℕ → Option (List (Bytes × Bytes)) → Outcome Bytes
write_row marshalled count none = marshalled
write_row marshalled count (some fields) = ok (append_fields (row_header count) fields)

module _ {X : Type 0} where
  unfoldable pub encode_value : Value X → Option Bytes
  unfolding append_u64 encode_bytes
  encode_value nil = some (0x00 ∷ [])
  encode_value (bool b) = if b then some (0x02 ∷ []) else some (0x01 ∷ [])
  encode_value (int t) = some (append_u64 (0x03 ∷ []) (word_of_int t))
  encode_value (int8 t) = some (append_u64 (0x03 ∷ []) (word_of_int t))
  encode_value (int16 t) = some (append_u64 (0x03 ∷ []) (word_of_int t))
  encode_value (int32 t) = some (append_u64 (0x03 ∷ []) (word_of_int t))
  encode_value (int64 t) = some (append_u64 (0x03 ∷ []) (word_of_int t))
  encode_value (uint t) = some (append_u64 (0x04 ∷ []) t)
  encode_value (uint8 t) = some (append_u64 (0x04 ∷ []) t)
  encode_value (uint16 t) = some (append_u64 (0x04 ∷ []) t)
  encode_value (uint32 t) = some (append_u64 (0x04 ∷ []) t)
  encode_value (uint64 t) = some (append_u64 (0x04 ∷ []) t)
  encode_value (uintptr t) = some (append_u64 (0x04 ∷ []) t)
  encode_value (float32 t) = some (0x05 ∷ put_le 4 t)
  encode_value (float64 t) = some (0x06 ∷ put_le 8 t)
  encode_value (string t) = encode_bytes 0x07 t
  encode_value (byte_slice t) = encode_bytes 0x08 t
  encode_value (number t) = encode_bytes 0x09 t
  encode_value (other _) = none

  -- `row[name]`, which is nil on a missing name.
  abbrev pub row_value : Row X → Bytes → Value X
  row_value row name = elim (lookup name row) [ none ↦ nil | some v ↦ v ]

  -- The first loop of `encodeRow`: the names in the order of the map.
  unfoldable pub row_names : Row X → Outcome (List Bytes)
  row_names [] = ok []
  row_names ((name, _) ∷ row) = do
    reject_if (ltb max_row_field_len (length name)) name_too_long
    names ← row_names row
    ok (name ∷ names)

  -- The second loop: the encoded values, or none if one is unrepresentable.
  unfoldable pub encode_values : Row X → List Bytes → Option (List (Bytes × Bytes))
  encode_values row [] = some []
  encode_values row (name ∷ names) = elim (encode_value (row_value row name)) [
    | none ↦ none
    | some enc ↦ (elim (encode_values row names) [
      | none ↦ none
      | some encoded ↦ some ((name, enc) ∷ encoded)
    ])
  ]

  -- `encodeRow`; `marshal` is `json.Marshal`.
  unfoldable pub encode_row : (Row X → Outcome Bytes) → Row X → Outcome Bytes
  encode_row marshal row = do
    reject_if (ltb max_uint32 (length row)) too_many_fields
    names ← row_names row
    write_row (marshal row) (length (sort_names names)) (encode_values row (sort_names names))
