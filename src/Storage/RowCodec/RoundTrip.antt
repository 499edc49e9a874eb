-- ===== src/Storage/RowCodec/RoundTrip.antt =====
-- Rows there and back: `decodeRow` behind `encodeRow`.
use mathlib.Core.List.{append_assoc, append-nil}
use native.Mathlib.Nat.{mod-eq_of_lt}
use pizzasql.Prelude.{
  suc, ◌%◌, ◌≤◌, ◌^◌, true, false, none, some, List, [], ◌∷◌, ◌++◌, ◌≡◌, ◌≢◌, refl, ap, ◌∙◌, arith,
  ◌==◌, if◌then◌else◌, length, length-append, Option-cases, inl, inr,
}
use mathlib.Core.Option
use pizzasql.Prelude.Bytes.{Bytes, bytes_eq, bytes_equal_iff}
use pizzasql.Prelude.Map.{lookup}
use pizzasql.Storage.RowCodec.{Value, Row, row_magic, row_version, max_uint32, max_row_field_len}
use pizzasql.Storage.RowCodec.Names.{
  contains_name, sort_names, contains_name-sort_names, length-sort_names,
}
use pizzasql.Storage.RowCodec.Words.{put_le, length-put_le, get_le-put_le}
use pizzasql.Storage.RowCodec.Slices.{Outcome, ok, fail, malformed}
use pizzasql.Storage.RowCodec.Cursor.{At-start, At-slice, At-move, At-index}
use pizzasql.Storage.RowCodec.Values.{IsEncodable, normalize}
use pizzasql.Storage.RowCodec.Encode.{row_names, row_header, append_u32, encode_row}
use pizzasql.Storage.RowCodec.Decode.{decode_binary_row, decode_row}
use pizzasql.Storage.RowCodec.Fields.{
  fields_bytes, insert_all, FieldIsEncodable, FieldsAreEncodable, decode_fields_lem,
  lookup-insert_all, encode_values_lem, append_fields_lem, fields_bytes-long,
}

module _ {X : Type 0} where
  -- A row that the binary format holds.
  pub record RowIsEncodable (row : Row X) : Type 0 where
    pub few : length row ≤ max_uint32
    pub fields :
        (name : Bytes) (v : Value X)
        → lookup name row ≡ some v
        → (length name ≤ max_row_field_len) × IsEncodable v

  abbrev pub keys : Row X → List Bytes
  keys [] = []
  keys ((name, _) ∷ row) = name ∷ keys row

  pub contains_name-keys :
      (k : Bytes) (row : Row X)
      → contains_name k (keys row) ≡ (elim (lookup k row) [ none ↦ false | some _ ↦ true ])
  unfolding contains_name lookup
  contains_name-keys k [] = refl
  contains_name-keys k ((name, v) ∷ row) = ground (arith, contains_name-keys k row)

  pub length-keys : (row : Row X) → length (keys row) ≡ length row
  length-keys [] = refl
  length-keys (_ ∷ row) = ap suc (length-keys row)

  fields_of_names :
      (row : Row X) (names : List Bytes)
      → ((n : Bytes) → contains_name n names ≡ true → FieldIsEncodable row n)
      → FieldsAreEncodable row names
  unfolding contains_name
  fields_of_names row [] h = tt
  fields_of_names row (name ∷ names) h = (
    h name (ground (arith, bytes_equal_iff name name)),
    fields_of_names row names (λ n c. h n (ground arith)),
  )

  abbrev pub sorted_keys : Row X → List Bytes
  sorted_keys row = sort_names (keys row)

  field_of_row :
      (row : Row X) (n : Bytes)
      → RowIsEncodable row
      → contains_name n (sorted_keys row) ≡ true
      → FieldIsEncodable row n
  field_of_row row n r c = elim (Option-cases (lookup n row)) [
    | inl (v, e) ↦ ground (arith, r.fields n v e)
    | inr e ↦
        absurd (ground (arith, contains_name-sort_names n (keys row), contains_name-keys n row))
  ]

  sorted_fields : (row : Row X) → RowIsEncodable row → FieldsAreEncodable row (sorted_keys row)
  sorted_fields row r = fields_of_names row (sorted_keys row) (λ n c. field_of_row row n r c)

  row_names_lem :
      (row : Row X)
      → ((n : Bytes) → contains_name n (keys row) ≡ true → length n ≤ max_row_field_len)
      → row_names row ≡ ok (keys row)
  unfolding row_names contains_name
  row_names_lem [] h = refl
  row_names_lem ((name, v) ∷ row) h = ground (
    arith,
    h name (ground (arith, bytes_equal_iff name name)),
    row_names_lem row (λ n c. h n (ground arith)),
  )

  abbrev pub binary_row : Row X → Bytes
  binary_row row = row_header (length row) ++ fields_bytes row (sorted_keys row)

  pub encode_row_lem :
      (marshal : Row X → Outcome Bytes) (row : Row X)
      → RowIsEncodable row
      → encode_row marshal row ≡ ok (binary_row row)
  unfolding encode_row
  encode_row_lem marshal row r = ground (
    arith,
    r.few,
    row_names_lem row (λ n c. (field_of_row row n r (contains_name-sort_names n (keys row) ∙ c)).0),
    encode_values_lem row (sorted_keys row) (sorted_fields row r),
    append_fields_lem row (sorted_keys row) (row_header (length row)),
    length-sort_names (keys row),
    length-keys row,
  )

  header_fields : (row : Row X) (extra : Bytes) → Bytes
  header_fields row extra =
      put_le 4 (length row % 2 ^ 32) ++ (fields_bytes row (sorted_keys row) ++ extra)

  -- The decoder on a written row with any bytes behind it.
  decode_binary_row_lem :
      (row : Row X) (extra : Bytes)
      → RowIsEncodable row
      → decode_binary_row (row_magic ++ (row_version ∷ header_fields row extra))
        ≡ (if length extra == 0 then ok (insert_all row (sorted_keys row) []) else fail malformed)
  unfolding decode_binary_row header_fields
  decode_binary_row_lem row extra r =
      let count = length row % 2 ^ 32 in
      let body = fields_bytes row (sorted_keys row) ++ extra in
      let content = row_magic ++ (row_version ∷ (put_le 4 count ++ body)) in
      let word = length-put_le 4 count in
      let m0 = At-start content in
      let m1 = At-move 8 row_magic (row_version ∷ (put_le 4 count ++ body)) m0 refl in
      let m2 = At-move 1 (row_version ∷ []) (put_le 4 count ++ body) m1 refl in
      let m3 = At-move 4 (put_le 4 count) body m2 word in
      ground (
        arith,
        r.few,
        word,
        mod-eq_of_lt {n = length row} {m = 2 ^ 32} (omega (arith, r.few)),
        get_le-put_le 4 count (omega arith),
        At-slice 8 row_magic (row_version ∷ (put_le 4 count ++ body)) m0 refl,
        At-index row_version (put_le 4 count ++ body) m1,
        At-slice 4 (put_le 4 count) body m2 word,
        length-append (put_le 4 count) body,
        length-append (fields_bytes row (sorted_keys row)) extra,
        fields_bytes-long row (sorted_keys row),
        length-sort_names (keys row),
        length-keys row,
        decode_fields_lem content 13 row (sorted_keys row) extra [] (sorted_fields row r) m3,
      )

  binary_row_shape :
      (row : Row X) (extra : Bytes)
      → binary_row row ++ extra ≡ row_magic ++ (row_version ∷ header_fields row extra)
  unfolding append_u32 header_fields
  binary_row_shape row extra = simp append_assoc

  decode_row_lem :
      (unmarshal : Bytes → Outcome (Row X)) (row : Row X) (extra : Bytes)
      → RowIsEncodable row
      → decode_row unmarshal (binary_row row ++ extra)
        ≡ (if length extra == 0 then ok (insert_all row (sorted_keys row) []) else fail malformed)
  unfolding decode_row
  decode_row_lem unmarshal row extra r =
      rw binary_row_shape (ground (arith, decode_binary_row_lem row extra r))

  -- `decodeRow` reads back what `encodeRow` wrote of a row that the binary format holds: encoding
  -- succeeds, decoding succeeds, and the decoded row has exactly the fields of the row, each with
  -- its value, the integers widened to int64 and uint64.
  pub decode_row-encode_row :
      (marshal : Row X → Outcome Bytes) (unmarshal : Bytes → Outcome (Row X)) (row : Row X)
      → RowIsEncodable row
      → (b : Bytes) × (row' : Row X) × (encode_row marshal row ≡ ok b)
        × (decode_row unmarshal b ≡ ok row')
        × ((k : Bytes) → lookup k row' ≡ Option.map normalize (lookup k row))
  unfolding lookup
  decode_row-encode_row marshal unmarshal row r = (
    binary_row row,
    insert_all row (sorted_keys row) [],
    encode_row_lem marshal row r,
    rw append-nil at (decode_row_lem unmarshal row [] r),
    λ k. ground (
      arith,
      lookup-insert_all row [] (sorted_keys row) k,
      contains_name-sort_names k (keys row),
      contains_name-keys k row,
    ),
  )

  -- Where `encodeRow` has written a row that the binary format holds, bytes that follow it make it
  -- malformed. Nothing is said of rows that are written as JSON.
  pub decode_row_trailing :
      (marshal : Row X → Outcome Bytes) (unmarshal : Bytes → Outcome (Row X)) (row : Row X)
      (b extra : Bytes)
      → RowIsEncodable row
      → encode_row marshal row ≡ ok b
      → extra ≢ []
      → decode_row unmarshal (b ++ extra) ≡ fail malformed
  decode_row_trailing marshal unmarshal row b [] r e ne = absurd (ne refl)
  decode_row_trailing marshal unmarshal row b (x ∷ extra) r e ne =
      let same : b ≡ binary_row row = cc (e, encode_row_lem marshal row r) in
      rw same (decode_row_lem unmarshal row (x ∷ extra) r ∙ ground arith)
