-- ===== src/Storage/RowCodec/Values.antt =====
-- One value there and back: `decodeValue` behind `encodeValue`.
use pizzasql.Prelude.{
  ℕ, ◌+◌, ◌^◌, ◌≤◌, ◌<◌, true, false, some, [], ◌∷◌, ◌++◌, ◌≡◌, refl, ◌∙◌, arith, if◌then◌else◌,
  length, length-append,
}
use mathlib.Core.List.{append_assoc}
use pizzasql.Prelude.Bytes.{Bytes}
use pizzasql.Prelude.Int.{ℤ, pos, negsuc}
use pizzasql.Storage.RowCodec.{
  Value, nil, bool, int, int8, int16, int32, int64, uint, uint8, uint16, uint32, uint64, uintptr,
  float32, float64, string, byte_slice, number, other, max_row_field_len, word_of_int, int_of_word,
}
use pizzasql.Storage.RowCodec.Words.{put_le, get_le, length-put_le, get_le-put_le}
use pizzasql.Storage.RowCodec.Slices.{ok, slice}
use pizzasql.Storage.RowCodec.Cursor.{At-start, At-slice, At-move}
use native.Mathlib.Nat.{zero-add}
use pizzasql.Storage.RowCodec.Encode.{encode_value, append_bytes_field, append_u64}
use pizzasql.Storage.RowCodec.Decode.{bytes_value, decode_fixed, decode_bytes, decode_value}

abbrev pub IsInt64 : ℤ → Type 0
IsInt64 (pos n) = n < 2 ^ 63
IsInt64 (negsuc n) = n < 2 ^ 63

module _ {X : Type 0} where
  -- A value that the binary format holds, in the range of its Go type. (The narrower integer types
  -- need no narrower range here.)
  abbrev pub IsEncodable : Value X → Type 0
  IsEncodable nil = Unit
  IsEncodable (bool _) = Unit
  IsEncodable (int t) = IsInt64 t
  IsEncodable (int8 t) = IsInt64 t
  IsEncodable (int16 t) = IsInt64 t
  IsEncodable (int32 t) = IsInt64 t
  IsEncodable (int64 t) = IsInt64 t
  IsEncodable (uint t) = t < 2 ^ 64
  IsEncodable (uint8 t) = t < 2 ^ 64
  IsEncodable (uint16 t) = t < 2 ^ 64
  IsEncodable (uint32 t) = t < 2 ^ 64
  IsEncodable (uint64 t) = t < 2 ^ 64
  IsEncodable (uintptr t) = t < 2 ^ 64
  IsEncodable (float32 t) = t < 2 ^ 32
  IsEncodable (float64 t) = t < 2 ^ 64
  IsEncodable (string t) = length t ≤ max_row_field_len
  IsEncodable (byte_slice t) = length t ≤ max_row_field_len
  IsEncodable (number t) = length t ≤ max_row_field_len
  IsEncodable (other _) = ⊥

  -- What comes back: every signed integer as an int64, every unsigned one as a uint64.
  abbrev pub normalize : Value X → Value X
  normalize (int t) = int64 t
  normalize (int8 t) = int64 t
  normalize (int16 t) = int64 t
  normalize (int32 t) = int64 t
  normalize (uint t) = uint64 t
  normalize (uint8 t) = uint64 t
  normalize (uint16 t) = uint64 t
  normalize (uint32 t) = uint64 t
  normalize (uintptr t) = uint64 t
  normalize v = v

  -- The tag and the payload of an encodable value.
  pub tag_of : Value X → ℕ
  tag_of nil = 0x00
  tag_of (bool b) = if b then 0x02 else 0x01
  tag_of (float32 _) = 0x05
  tag_of (float64 _) = 0x06
  tag_of (string _) = 0x07
  tag_of (byte_slice _) = 0x08
  tag_of (number _) = 0x09
  tag_of (uint _) = 0x04
  tag_of (uint8 _) = 0x04
  tag_of (uint16 _) = 0x04
  tag_of (uint32 _) = 0x04
  tag_of (uint64 _) = 0x04
  tag_of (uintptr _) = 0x04
  tag_of _ = 0x03

  pub payload_of : Value X → Bytes
  payload_of nil = []
  payload_of (bool _) = []
  payload_of (int t) = put_le 8 (word_of_int t)
  payload_of (int8 t) = put_le 8 (word_of_int t)
  payload_of (int16 t) = put_le 8 (word_of_int t)
  payload_of (int32 t) = put_le 8 (word_of_int t)
  payload_of (int64 t) = put_le 8 (word_of_int t)
  payload_of (uint t) = put_le 8 t
  payload_of (uint8 t) = put_le 8 t
  payload_of (uint16 t) = put_le 8 t
  payload_of (uint32 t) = put_le 8 t
  payload_of (uint64 t) = put_le 8 t
  payload_of (uintptr t) = put_le 8 t
  payload_of (float32 t) = put_le 4 t
  payload_of (float64 t) = put_le 8 t
  payload_of (string t) = put_le 4 (length t) ++ t
  payload_of (byte_slice t) = put_le 4 (length t) ++ t
  payload_of (number t) = put_le 4 (length t) ++ t
  payload_of (other _) = []

pub int_of_word-word_of_int : (t : ℤ) → IsInt64 t → int_of_word (word_of_int t) ≡ t
int_of_word-word_of_int (pos n) h = ground arith
int_of_word-word_of_int (negsuc n) h = ground arith

pub word_of_int-lt : (t : ℤ) → word_of_int t < 2 ^ 64
word_of_int-lt (pos n) = omega arith
word_of_int-lt (negsuc n) = omega arith

word_of_fixed :
    (more : Bytes) (w v : ℕ)
    → v < 256 ^ w
    → (slice 0 w (put_le w v ++ more) ≡ ok (put_le w v))
      × (get_le (put_le w v) ≡ v)
      × (w ≤ length (put_le w v ++ more))
word_of_fixed more w v h = (
  rw zero-add at (At-slice w (put_le w v) more (At-start _) (length-put_le w v)),
  get_le-put_le w v h,
  omega (arith, length-append {0} (put_le w v) more, length-put_le w v),
)

module _ (more : Bytes) where
  decode_bytes_lem :
      (X : Type 0) (tag : ℕ) (t : Bytes)
      → length t ≤ max_row_field_len
      → decode_bytes {X = X} tag ((put_le 4 (length t) ++ t) ++ more)
        ≡ ok (bytes_value tag t, 4 + length t)
  unfolding decode_bytes
  decode_bytes_lem X tag t h = rw append_assoc (
      let f = word_of_fixed (t ++ more) 4 (length t) (omega arith) in
      let start = At-start (put_le 4 (length t) ++ (t ++ more)) in
      let behind = At-move 4 (put_le 4 (length t)) (t ++ more) start (length-put_le 4 (length t)) in
      ground (
        arith,
        f,
        length-append (put_le 4 (length t)) (t ++ more),
        length-append t more,
        length-put_le 4 (length t),
        At-slice (length t) t more behind refl,
      ))

module _ {X : Type 0} where
  pub encode_value_parts :
      (v : Value X) → IsEncodable v → encode_value v ≡ some (tag_of v ∷ payload_of v)
  unfolding encode_value tag_of payload_of append_u64 append_bytes_field
  encode_value_parts (bool true) h = refl
  encode_value_parts (bool false) h = refl
  encode_value_parts (string t) h = ground arith
  encode_value_parts (byte_slice t) h = ground arith
  encode_value_parts (number t) h = ground arith
  encode_value_parts (other _) h = absurd h
  encode_value_parts _ h = refl

  fixed_lem :
      (w : ℕ) (make : ℕ → Value X) (u : ℕ) (more : Bytes)
      → u < 256 ^ w
      → decode_fixed w make (put_le w u ++ more) ≡ ok (make u, w)
  fixed_lem w make u more h = let f = word_of_fixed more w u h in ground (arith, f)

  fixed_payload :
      (w : ℕ) (make : ℕ → Value X) (u : ℕ) (more : Bytes)
      → u < 256 ^ w
      → decode_fixed w make (put_le w u ++ more) ≡ ok (make u, length (put_le w u))
  fixed_payload w make u more h = rw length-put_le (fixed_lem w make u more h)

  int_payload :
      (t : ℤ) (more : Bytes)
      → IsInt64 t
      → decode_fixed {X = X} 8 (λ u. int64 (int_of_word u)) (put_le 8 (word_of_int t) ++ more)
        ≡ ok (int64 t, length (put_le 8 (word_of_int t)))
  int_payload t more h =
      fixed_payload 8 (λ u. int64 (int_of_word u)) (word_of_int t) more (word_of_int-lt t)
      ∙ rw (int_of_word-word_of_int t h)

  bytes_payload :
      (tag : ℕ) (t more : Bytes)
      → length t ≤ max_row_field_len
      → decode_bytes {X = X} tag ((put_le 4 (length t) ++ t) ++ more)
        ≡ ok (bytes_value tag t, length (put_le 4 (length t) ++ t))
  bytes_payload tag t more h = rw (length-append, length-put_le) (decode_bytes_lem more X tag t h)

  -- `decodeValue` reads back the payload of every encodable value, normalised, and takes exactly
  -- the payload, whatever follows it.
  pub decode_value_parts :
      (v : Value X) (more : Bytes)
      → IsEncodable v
      → decode_value (tag_of v) (payload_of v ++ more) ≡ ok (normalize v, length (payload_of v))
  unfolding decode_value tag_of payload_of
  decode_value_parts nil more h = refl
  decode_value_parts (bool true) more h = refl
  decode_value_parts (bool false) more h = refl
  decode_value_parts (int t) more h = int_payload t more h
  decode_value_parts (int8 t) more h = int_payload t more h
  decode_value_parts (int16 t) more h = int_payload t more h
  decode_value_parts (int32 t) more h = int_payload t more h
  decode_value_parts (int64 t) more h = int_payload t more h
  decode_value_parts (uint t) more h = fixed_payload 8 uint64 t more h
  decode_value_parts (uint8 t) more h = fixed_payload 8 uint64 t more h
  decode_value_parts (uint16 t) more h = fixed_payload 8 uint64 t more h
  decode_value_parts (uint32 t) more h = fixed_payload 8 uint64 t more h
  decode_value_parts (uint64 t) more h = fixed_payload 8 uint64 t more h
  decode_value_parts (uintptr t) more h = fixed_payload 8 uint64 t more h
  decode_value_parts (float32 t) more h = fixed_payload 4 float32 t more h
  decode_value_parts (float64 t) more h = fixed_payload 8 float64 t more h
  decode_value_parts (string t) more h = bytes_payload 0x07 t more h
  decode_value_parts (byte_slice t) more h = bytes_payload 0x08 t more h
  decode_value_parts (number t) more h = bytes_payload 0x09 t more h
  decode_value_parts (other x) more h = absurd h
