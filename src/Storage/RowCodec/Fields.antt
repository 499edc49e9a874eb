-- ===== src/Storage/RowCodec/Fields.antt =====
-- The fields of a row there and back.
use mathlib.Core.List.{append_assoc, append-nil}
use pizzasql.Prelude.{
  ℕ, ◌+◌, ◌*◌, ◌≤◌, some, List, [], ◌∷◌, ◌++◌, ◌≡◌, refl, ◌∙◌, sym, arith, ◌==◌, if◌then◌else◌,
  length, length-append,
}
use pizzasql.Prelude.Bytes.{Bytes, bytes_eq, bytes_equal_iff}
use pizzasql.Prelude.Map.{lookup, insert, lookup-insert}
use pizzasql.Storage.RowCodec.Names.{contains_name}
use pizzasql.Storage.RowCodec.{Value, Row, max_row_field_len}
use pizzasql.Storage.RowCodec.Words.{put_le, length-put_le, get_le-put_le}
use pizzasql.Storage.RowCodec.Slices.{ok, fail, malformed}
use pizzasql.Storage.RowCodec.Cursor.{At, At-slice, At-move, At-index, At-rest}
use pizzasql.Storage.RowCodec.Values.{
  IsEncodable, normalize, tag_of, payload_of, encode_value_parts, decode_value_parts,
}
use pizzasql.Storage.RowCodec.Encode.{row_value, encode_values, append_fields, append_u32}
use pizzasql.Storage.RowCodec.Decode.{decode_field, decode_fields}

module _ {X : Type 0} where
  -- One field as `encodeRow` writes it.
  abbrev pub field_bytes : Bytes → Value X → Bytes
  field_bytes name v = put_le 4 (length name) ++ (name ++ (tag_of v ∷ payload_of v))

  -- `decode_field` reads one written field, with any `rest` behind it.
  decode_field_lem :
      (content : Bytes) (at : ℕ) (name : Bytes) (v : Value X) (rest : Bytes)
      → length name ≤ max_row_field_len
      → IsEncodable v
      → At content at (field_bytes name v ++ rest)
      → decode_field content at (length (field_bytes name v ++ rest))
        ≡ ok (name, normalize v, at + length (field_bytes name v), length rest)
  unfolding decode_field
  decode_field_lem content at name v rest hn hv a =
      let behind = tag_of v ∷ (payload_of v ++ rest) in
      let a' = rw (append_assoc, append_assoc) at a in
      let word = length-put_le 4 (length name) in
      let m1 = At-move 4 (put_le 4 (length name)) (name ++ behind) a' word in
      let m2 = At-move (length name) name behind m1 refl in
      let m3 = At-move 1 (tag_of v ∷ []) (payload_of v ++ rest) m2 refl in
      ground (
        arith,
        word,
        get_le-put_le 4 (length name) (omega arith),
        At-slice 4 (put_le 4 (length name)) (name ++ behind) a' word,
        At-slice (length name) name behind m1 refl,
        At-index (tag_of v) (payload_of v ++ rest) m2,
        At-rest (payload_of v ++ rest) m3,
        decode_value_parts v rest hv,
        length-append (put_le 4 (length name)) (name ++ (tag_of v ∷ payload_of v)),
        length-append name (tag_of v ∷ payload_of v),
        length-append (put_le 4 (length name) ++ (name ++ (tag_of v ∷ payload_of v))) rest,
      )

  abbrev pub fields_bytes : Row X → List Bytes → Bytes
  fields_bytes row [] = []
  fields_bytes row (name ∷ names) = field_bytes name (row_value row name) ++ fields_bytes row names

  -- The row that the decoder builds from the fields.
  abbrev pub insert_all : Row X → List Bytes → Row X → Row X
  insert_all row [] acc = acc
  insert_all row (name ∷ names) acc =
      insert_all row names (insert name (normalize (row_value row name)) acc)

  -- Every name is short enough, and its value is encodable.
  abbrev pub FieldIsEncodable : Row X → Bytes → Type 0
  FieldIsEncodable row name = (length name ≤ max_row_field_len) × IsEncodable (row_value row name)

  abbrev pub FieldsAreEncodable : Row X → List Bytes → Type 0
  FieldsAreEncodable row [] = Unit
  FieldsAreEncodable row (name ∷ names) = FieldIsEncodable row name × FieldsAreEncodable row names

  pub decode_fields_lem :
      (content : Bytes) (at : ℕ) (row : Row X) (names : List Bytes) (rest : Bytes) (acc : Row X)
      → FieldsAreEncodable row names
      → At content at (fields_bytes row names ++ rest)
      → decode_fields (length names) content at (length (fields_bytes row names ++ rest)) acc
        ≡ (if length rest == 0 then ok (insert_all row names acc) else fail malformed)
  unfolding decode_fields
  decode_fields_lem content at row [] rest acc h a = ground (arith, a.total)
  decode_fields_lem content at row (name ∷ names) rest acc h a =
      let v = row_value row name in
      let a' = rw append_assoc at a in
      let next = At-move (length (field_bytes name v)) (field_bytes name v) _ a' refl in
      rw append_assoc (
        rw (decode_field_lem content at name v (fields_bytes row names ++ rest) h.0.0 h.0.1 a') (
          decode_fields_lem content (at + length (field_bytes name (row_value row name))) row names
            rest (insert name (normalize (row_value row name)) acc) h.1 next))

  pub lookup-insert_all :
      (row acc : Row X) (names : List Bytes) (k : Bytes)
      → lookup k (insert_all row names acc)
        ≡ (if contains_name k names then some (normalize (row_value row k)) else lookup k acc)
  unfolding contains_name
  lookup-insert_all row acc [] k = refl
  lookup-insert_all row acc (name ∷ names) k =
      lookup-insert_all row (insert name (normalize (row_value row name)) acc) names k
      ∙ ground
          (arith, lookup-insert name k (normalize (row_value row name)) acc, bytes_equal_iff name k)

  abbrev encoded_fields : Row X → List Bytes → List (Bytes × Bytes)
  encoded_fields row [] = []
  encoded_fields row (name ∷ names) =
      (name, tag_of (row_value row name) ∷ payload_of (row_value row name))
      ∷ encoded_fields row names

  pub encode_values_lem :
      (row : Row X) (names : List Bytes)
      → FieldsAreEncodable row names
      → encode_values row names ≡ some (encoded_fields row names)
  unfolding encode_values
  encode_values_lem row [] h = refl
  encode_values_lem row (name ∷ names) h =
      ground (arith, encode_value_parts (row_value row name) h.0.1, encode_values_lem row names h.1)

  pub append_fields_lem :
      (row : Row X) (names : List Bytes) (buf : Bytes)
      → append_fields buf (encoded_fields row names) ≡ buf ++ fields_bytes row names
  unfolding append_fields append_u32
  append_fields_lem row [] buf = sym (append-nil buf)
  append_fields_lem row (name ∷ names) buf = simp (append_fields_lem row names, append_assoc)

  -- A field takes five bytes at least.
  pub fields_bytes-long :
      (row : Row X) (names : List Bytes) → length names * 5 ≤ length (fields_bytes row names)
  fields_bytes-long row [] = omega arith
  fields_bytes-long row (name ∷ names) =
      let v = row_value row name in
      omega (
        arith,
        fields_bytes-long row names,
        length-append {0} (field_bytes name v) (fields_bytes row names),
        length-append {0} (put_le 4 (length name)) (name ++ (tag_of v ∷ payload_of v)),
        length-append {0} name (tag_of v ∷ payload_of v),
        length-put_le 4 (length name),
      )
