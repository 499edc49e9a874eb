-- ===== src/Storage/RowCodec/Decode.antt =====
-- pkg/storage/rowcodec.go: `decodeRow`, `decodeBinaryRow` and `decodeValue`. Every slice and index
-- expression is one that may panic. `pos` of the source is `at` here.
use pizzasql.Prelude.{
  ℕ, zero, suc, ◌+◌, ◌-◌, ◌*◌, true, false, not, ◌||◌, ◌&&◌, [], ◌==◌, ltb, leb, if◌then◌else◌,
  length,
}
use pizzasql.Prelude.Bytes.{Bytes, bytes_eq, bytes_equal, has_prefix}
use pizzasql.Prelude.Map.{insert}
use pizzasql.Storage.RowCodec.{
  Value, nil, bool, int64, uint64, float32, float64, string, byte_slice, number, Row, row_magic,
  row_version, row_header_len, max_row_field_len, min_field_encoded_size, int_of_word,
}
use pizzasql.Storage.RowCodec.Words.{get_le}
use pizzasql.Storage.RowCodec.Slices.{
  Outcome, ok, fail, malformed, unsupported_version, unknown_tag, ◌>>=◌, ◌>>◌, reject_if, slice,
  index,
}

module _ {X : Type 0} where
  -- The cases of a variable-length value, behind the length `l`.
  abbrev pub bytes_value : ℕ → Bytes → Value X
  bytes_value tag content =
      if tag == 0x07
      then string content
      else if tag == 0x08
      then byte_slice content
      else number content

  unfoldable pub decode_bytes : ℕ → Bytes → Outcome (Value X × ℕ)
  unfolding slice get_le
  decode_bytes tag content = do
    reject_if (ltb (length content) 4) malformed
    head ← slice 0 4 content
    let l = get_le head
    reject_if (ltb max_row_field_len l || ltb (length content - 4) l) malformed
    body ← slice 4 (4 + l) content
    ok (bytes_value tag body, 4 + l)

  -- A fixed-width value of `w` bytes.
  abbrev pub decode_fixed : ℕ → (ℕ → Value X) → Bytes → Outcome (Value X × ℕ)
  decode_fixed w make content = do
    reject_if (ltb (length content) w) malformed
    head ← slice 0 w content
    ok (make (get_le head), w)

  -- `decodeValue`
  unfoldable pub decode_value : ℕ → Bytes → Outcome (Value X × ℕ)
  unfolding decode_bytes
  decode_value tag content =
      if tag == 0x00
      then ok (nil, 0)
      else if tag == 0x01
      then ok (bool false, 0)
      else if tag == 0x02
      then ok (bool true, 0)
      else if tag == 0x03
      then decode_fixed 8 (λ u. int64 (int_of_word u)) content
      else if tag == 0x04
      then decode_fixed 8 uint64 content
      else if tag == 0x05
      then decode_fixed 4 float32 content
      else if tag == 0x06
      then decode_fixed 8 float64 content
      else if tag == 0x07 || tag == 0x08 || tag == 0x09
      then decode_bytes tag content
      else fail (unknown_tag tag)

  -- One round of the loop of `decodeBinaryRow`: the name, the value, and the new `at` and
  -- `remaining`.
  unfoldable pub decode_field : Bytes → ℕ → ℕ → Outcome (Bytes × Value X × ℕ × ℕ)
  decode_field content at remaining = do
    reject_if (ltb remaining 4) malformed
    head ← slice at (at + 4) content
    let name_len = get_le head
    let at = at + 4
    let remaining = remaining - 4
    reject_if (ltb max_row_field_len name_len || ltb remaining name_len) malformed
    name ← slice at (at + name_len) content
    let at = at + name_len
    let remaining = remaining - name_len
    reject_if (ltb remaining 1) malformed
    tag ← index at content
    let at = at + 1
    let remaining = remaining - 1
    body ← slice at (length content) content
    (value, n) ← decode_value tag body
    ok (name, value, at + n, remaining - n)

  -- The loop over the fields, and the check behind it.
  unfoldable pub decode_fields : ℕ → Bytes → ℕ → ℕ → Row X → Outcome (Row X)
  decode_fields zero content at remaining row =
      if not (at == length content) then fail malformed else ok row
  decode_fields (suc count) content at remaining row = do
    (name, value, at, remaining) ← decode_field content at remaining
    decode_fields count content at remaining (insert name value row)

  -- `decodeBinaryRow`
  unfoldable pub decode_binary_row : Bytes → Outcome (Row X)
  decode_binary_row content = do
    reject_if (ltb (length content) row_header_len) malformed
    magic ← slice 0 8 content
    reject_if (not (bytes_equal magic row_magic)) malformed
    version ← index 8 content
    reject_if (not (version == row_version)) (unsupported_version version)
    head ← slice 9 13 content
    let count = get_le head
    let remaining = length content - row_header_len
    reject_if (ltb remaining (count * min_field_encoded_size)) malformed
    decode_fields count content row_header_len remaining []

  -- `decodeRow`; `unmarshal` is `json.Unmarshal` into a row.
  unfoldable pub decode_row : (Bytes → Outcome (Row X)) → Bytes → Outcome (Row X)
  unfolding decode_binary_row
  decode_row unmarshal content =
      if leb 8 (length content) && has_prefix content row_magic
      then decode_binary_row content
      else unmarshal content
