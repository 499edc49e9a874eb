-- ===== src/Storage/RowCodec/Tests.antt =====
-- Runs of the row codec, and the theorems about it at a concrete row.
use mathlib.Core.Option
use pizzasql.Prelude.{ℕ, [], ◌∷◌, ◌++◌, ◌≡◌, ◌≢◌, refl, arith}
use pizzasql.Prelude.Bytes.{Bytes, bytes, bytes_eq, bytes_equal_iff}
use pizzasql.Prelude.Int.{negsuc}
use pizzasql.Prelude.Map.{lookup, insert, Distinct}
use pizzasql.Storage.RowCodec.{Row, int8, int64, string}
use pizzasql.Storage.RowCodec.Words.{get_le}
use pizzasql.Storage.RowCodec.Slices.{Outcome, ok, fail, panic, malformed, json_error, slice, index}
use pizzasql.Storage.RowCodec.Names.{sort_names}
use pizzasql.Storage.RowCodec.Values.{normalize}
use pizzasql.Storage.RowCodec.Encode.{
  encode_row, row_names, encode_values, encode_value, append_fields, append_u32,
}
use pizzasql.Storage.RowCodec.Decode.{decode_row, decode_value, decode_fields, decode_field}
use pizzasql.Storage.RowCodec.Safety.{decode_row-ne-panic}
use pizzasql.Storage.RowCodec.RoundTrip.{RowIsEncodable, decode_row-encode_row, decode_row_trailing}
use pizzasql.Storage.RowCodec.Canonical.{encode_row_canonical}

-- No value of a test needs JSON.
abbrev marshal : Row ℕ → Outcome Bytes
marshal _ = fail json_error

abbrev unmarshal : Bytes → Outcome (Row ℕ)
unmarshal _ = fail json_error

abbrev row : Row ℕ
row = (bytes "b", int8 (negsuc 1)) ∷ (bytes "a", string (bytes "hi")) ∷ []

abbrev row_swapped : Row ℕ
row_swapped = (bytes "a", string (bytes "hi")) ∷ (bytes "b", int8 (negsuc 1)) ∷ []

-- -2 is 0xfe and seven times 0xff.
abbrev written : Bytes
written =
    bytes "PZSQLROW"
    ++ (1 ∷ 2 ∷ 0 ∷ 0 ∷ 0 ∷ 1 ∷ 0 ∷ 0 ∷ 0 ∷ b'a' ∷ 7 ∷ 2 ∷ 0 ∷ 0 ∷ 0 ∷ b'h' ∷ b'i' ∷ 1 ∷ 0 ∷ 0 ∷ 0
        ∷ b'b' ∷ 3 ∷ 0xfe ∷ 0xff ∷ 0xff ∷ 0xff ∷ 0xff ∷ 0xff ∷ 0xff ∷ 0xff ∷ [])

row-written : encode_row marshal row ≡ ok written
unfolding encode_row row_names sort_names encode_values encode_value append_fields append_u32 lookup
row-written = refl

row_read :
    decode_row unmarshal written
    ≡ ok ((bytes "a", string (bytes "hi")) ∷ (bytes "b", int64 (negsuc 1)) ∷ [])
unfolding decode_row decode_fields decode_field decode_value slice index get_le insert
row_read = refl

row_encodable : RowIsEncodable row
unfolding lookup
row_encodable = record {
  few = omega arith;
  fields = λ name v h.
      ground (arith, bytes_equal_iff (bytes "a") name, bytes_equal_iff (bytes "b") name);
}

decode_row-encode_row_example :
    (b : Bytes) × (row' : Row ℕ) × (encode_row marshal row ≡ ok b)
    × (decode_row unmarshal b ≡ ok row')
    × ((k : Bytes) → lookup k row' ≡ Option.map normalize (lookup k row))
decode_row-encode_row_example = decode_row-encode_row marshal unmarshal row row_encodable

decode_row_trailing_example : decode_row unmarshal (written ++ 0 ∷ []) ≡ fail malformed
decode_row_trailing_example =
    decode_row_trailing marshal unmarshal row written (0 ∷ []) row_encodable row-written (λ e. cc)

row-Distinct : Distinct row
unfolding lookup
row-Distinct = (refl, (refl, tt))

row_swapped-Distinct : Distinct row_swapped
unfolding lookup
row_swapped-Distinct = (refl, (refl, tt))

rows_same : (k : Bytes) → lookup k row ≡ lookup k row_swapped
unfolding lookup
rows_same k = ground (arith, bytes_equal_iff (bytes "a") k, bytes_equal_iff (bytes "b") k)

encode_row_canonical_example : encode_row marshal row ≡ encode_row marshal row_swapped
encode_row_canonical_example =
    encode_row_canonical row row_swapped rows_same marshal row-Distinct row_swapped-Distinct
      row_encodable

decode_row-ne-panic_example : decode_row unmarshal (bytes "PZSQLROW") ≢ panic
decode_row-ne-panic_example = decode_row-ne-panic ℕ unmarshal (bytes "PZSQLROW") (λ e. cc)
