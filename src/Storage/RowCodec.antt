-- ===== src/Storage/RowCodec.antt =====
-- pkg/storage/rowcodec.go: the binary encoding of rows. A float is the number of its bits, which is
-- all that the codec uses of it. `json.Marshal` and `json.Unmarshal` are parameters of the model.
pub mod Words
pub mod Slices
pub mod Names
pub mod Encode
pub mod Decode
pub mod Safety
pub mod Cursor
pub mod Values
pub mod Fields
pub mod RoundTrip
pub mod Canonical
mod Tests
use pizzasql.Prelude.{ℕ, ◌-◌, ◌%◌, ◌^◌, Bool, ltb, if◌then◌else◌}
use pizzasql.Prelude.Bytes.{Bytes, bytes}
use pizzasql.Prelude.Int.{ℤ, pos, negsuc}
use pizzasql.Prelude.Map.{Map}

-- `interface{}` as the codec tells its values apart; `other` stands for every type of the default
-- case: slices, maps, structs, times.
pub data Value (X : Type 0) : Type 0 where
  nil : Value X
  bool : Bool → Value X
  int int8 int16 int32 int64 : ℤ → Value X
  uint uint8 uint16 uint32 uint64 uintptr : ℕ → Value X
  float32 float64 : ℕ → Value X
  string byte_slice number : Bytes → Value X
  other : X → Value X

abbrev pub Row : Type 0 → Type 0
Row X = Map Bytes (Value X)

abbrev pub row_magic : Bytes
row_magic = bytes "PZSQLROW"

abbrev pub row_version : ℕ
row_version = 1

-- `len(rowMagic) + 1 + 4`
abbrev pub row_header_len : ℕ
row_header_len = 13

abbrev pub max_row_field_len : ℕ
max_row_field_len = 2 ^ 30

abbrev pub min_field_encoded_size : ℕ
min_field_encoded_size = 5

abbrev pub max_uint32 : ℕ
max_uint32 = 2 ^ 32 - 1

-- `uint64(int64(t))`, in two's complement.
abbrev pub word_of_int : ℤ → ℕ
word_of_int (pos n) = n % 2 ^ 64
word_of_int (negsuc n) = 2 ^ 64 - 1 - n % 2 ^ 64

-- `int64(u)`
abbrev pub int_of_word : ℕ → ℤ
int_of_word u = if ltb u (2 ^ 63) then pos u else negsuc (2 ^ 64 - 1 - u)
