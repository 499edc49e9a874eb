-- ===== src/Storage/RowCodec/Safety.antt =====
-- Decoding reads inside its input: whatever bytes come in, no slice or index expression panics.
use pizzasql.Prelude.{
  ℕ, zero, suc, ◌+◌, ◌-◌, ◌*◌, ◌≤◌, not, ◌||◌, ◌&&◌, [], ◌≡◌, ◌≢◌, arith, ◌==◌, ltb, leb, length,
  Bool-cases, inl, inr,
}
use pizzasql.Prelude.Bytes.{Bytes, bytes_eq, bytes_equal, has_prefix}
use pizzasql.Storage.RowCodec.{
  Value, Row, row_magic, row_version, row_header_len, max_row_field_len, min_field_encoded_size,
}
use pizzasql.Storage.RowCodec.Words.{get_le}
use pizzasql.Storage.RowCodec.Slices.{
  Outcome, ok, panic, malformed, ◌>>=◌, slice, index, slice_in_range, Ensures, Ensures-bind,
  Ensures-reject_if, Ensures-slice, Ensures-index, Ensures-ne-panic,
}
use pizzasql.Storage.RowCodec.Decode.{
  decode_bytes, decode_value, decode_field, decode_fields, decode_binary_row, decode_row,
}

module _ (X : Type 0) where
  -- The value takes no more bytes than there are.
  abbrev Fits : Bytes → Value X × ℕ → Type 0
  Fits content r = r.1 ≤ length content

  decode_bytes-Fits :
      (tag : ℕ) (content : Bytes) → Ensures (Fits content) (decode_bytes tag content)
  unfolding decode_bytes
  decode_bytes-Fits tag content = Ensures-reject_if _ (ltb (length content) 4) malformed _ λ long.
      Ensures-bind _ _ (slice 0 4 content) _
        (Ensures-slice 0 4 content (omega arith) (ground arith))
        λ head _.
          Ensures-reject_if _
            (ltb max_row_field_len (get_le head) || ltb (length content - 4) (get_le head))
            malformed _
            λ room.
              Ensures-bind _ _ (slice 4 (4 + get_le head) content) _
                (Ensures-slice 4 (4 + get_le head) content (omega arith) (ground arith))
                λ body _. ground arith

  decode_value-Fits :
      (tag : ℕ) (content : Bytes) → Ensures (Fits content) (decode_value tag content)
  unfolding decode_value
  decode_value-Fits tag content =
      ground (
        arith,
        decode_bytes-Fits tag content,
        slice_in_range 0 8 content,
        slice_in_range 0 4 content,
      )

  -- `pos` and `remaining` always add up to the length of the input.
  abbrev InStep : Bytes → Bytes × Value X × ℕ × ℕ → Type 0
  InStep content r = r.2 + r.3 ≡ length content

  decode_field-InStep :
      (content : Bytes) (at remaining : ℕ)
      → at + remaining ≡ length content
      → Ensures (InStep content) (decode_field content at remaining)
  unfolding decode_field
  decode_field-InStep content at remaining e =
      Ensures-reject_if _ (ltb remaining 4) malformed _ λ long.
        Ensures-bind _ _ (slice at (at + 4) content) _
          (Ensures-slice at (at + 4) content (omega arith) (ground arith))
          λ head _.
            let n = get_le head in
            Ensures-reject_if _ (ltb max_row_field_len n || ltb (remaining - 4) n) malformed _
              λ room.
                Ensures-bind _ _ (slice (at + 4) (at + 4 + n) content) _
                  (Ensures-slice (at + 4) (at + 4 + n) content (omega arith) (ground arith))
                  λ name _. Ensures-reject_if _ (ltb (remaining - 4 - n) 1) malformed _ λ more.
                    Ensures-bind _ _ (index (at + 4 + n) content) _
                      (Ensures-index (at + 4 + n) content (ground arith))
                      λ tag _.
                        tail_InStep tag (at + 4 + n + 1) (remaining - 4 - n - 1) name (ground arith)
    where
      tail_InStep :
          (tag at' remaining' : ℕ) (name : Bytes)
          → at' + remaining' ≡ length content
          → Ensures (InStep content) (do
            body ← slice at' (length content) content
            (value, n) ← decode_value tag body
            ok (name, value, at' + n, remaining' - n))
      tail_InStep tag at' remaining' name e' =
          Ensures-bind _ _ (slice at' (length content) content) _
            (Ensures-slice at' (length content) content (omega arith) (omega arith))
            λ body len.
              Ensures-bind _ _ (decode_value tag body) _ (decode_value-Fits tag body)
                λ r fits. omega arith

  decode_fields_safe :
      (count : ℕ) (content : Bytes) (at remaining : ℕ) (row : Row X)
      → at + remaining ≡ length content
      → Ensures (λ _. Unit {0}) (decode_fields count content at remaining row)
  unfolding decode_fields
  decode_fields_safe zero content at remaining row e = ground arith
  decode_fields_safe (suc count) content at remaining row e =
      Ensures-bind _ _ (decode_field content at remaining) _
        (decode_field-InStep content at remaining e)
        λ r step. decode_fields_safe count content r.2 r.3 _ step

  decode_binary_row_safe :
      (content : Bytes) → Ensures (λ _. Unit {0}) (decode_binary_row {X = X} content)
  unfolding decode_binary_row
  decode_binary_row_safe content =
      Ensures-reject_if _ (ltb (length content) row_header_len) malformed _ λ long.
        Ensures-bind _ _ (slice 0 8 content) _
          (Ensures-slice 0 8 content (omega arith) (ground arith))
          λ magic _. Ensures-reject_if _ (not (bytes_equal magic row_magic)) malformed _ λ _.
            Ensures-bind _ _ (index 8 content) _ (Ensures-index 8 content (ground arith))
              λ version _. Ensures-reject_if _ (not (version == row_version)) _ _ λ _.
                Ensures-bind _ _ (slice 9 13 content) _
                  (Ensures-slice 9 13 content (omega arith) (ground arith))
                  λ head _.
                    Ensures-reject_if _
                      (ltb (length content - row_header_len) (get_le head * min_field_encoded_size))
                      malformed _
                      λ _.
                        decode_fields_safe (get_le head) content row_header_len _ [] (ground arith)

  -- `decodeRow` never panics, whatever bytes come in, if `json.Unmarshal` does not.
  pub decode_row-ne-panic :
      (unmarshal : Bytes → Outcome (Row X)) (content : Bytes)
      → unmarshal content ≢ panic
      → decode_row unmarshal content ≢ panic
  unfolding decode_row
  decode_row-ne-panic unmarshal content h =
      elim (Bool-cases (leb 8 (length content) && has_prefix content row_magic)) [
        | inl binary ↦
            rw binary
              (Ensures-ne-panic _ (decode_binary_row content) (decode_binary_row_safe content))
        | inr legacy ↦ rw legacy h
      ]
