-- ===== src/Lexer/Blob.antt =====
-- pkg/lexer/lexer.go: `readBlob`, and what it uses of encoding/hex.
use pizzasql.Prelude.{
  ℕ, zero, suc, ◌+◌, ◌-◌, ◌*◌, ◌%◌, not, ◌&&◌, Option, none, some, [], ◌∷◌, ◌++◌, ◌==◌, leb,
  if◌then◌else◌, length,
}
use pizzasql.Prelude.Bytes.{Bytes, bytes}
use pizzasql.Lexer.Token.{Token, token_error, token_blob}
use pizzasql.Lexer.State.{
  Run, returned, endless, ◌>>=◌, Lexer, read_char, is_hex_digit, string_of_byte,
}
use pizzasql.Lexer.Readers.{budget, is_space, token}

abbrev pub hex_value : ℕ → ℕ
hex_value c = if leb c b'9' then c - b'0' else if leb c b'F' then c - b'A' + 10 else c - b'a' + 10

-- `hex.DecodeString`: `none` on a byte that is no digit, or on a digit without its partner.
unfoldable pub decode_string : Bytes → Option Bytes
decode_string [] = some []
decode_string (_ ∷ []) = none
decode_string (a ∷ b ∷ s) =
    let rest = decode_string s in
    if is_hex_digit a && is_hex_digit b
    then (elim rest [ none ↦ none | some d ↦ some ((hex_value a * 16 + hex_value b) ∷ d) ])
    else none

pub data BlobScan : Type 0 where
  blob_end : Bytes → BlobScan
  blob_invalid : ℕ → BlobScan

-- The loop: the digits, or the byte that is neither a digit nor white space.
unfoldable pub blob_body : ℕ → Lexer → Bytes → Run (BlobScan × Lexer)
blob_body zero l sb = endless
blob_body (suc fuel) l sb =
    let digit = blob_body fuel (read_char l) (sb ++ l.ch ∷ []) in
    let space = blob_body fuel (read_char l) sb in
    if not (l.ch == b'\'') && not (l.ch == 0)
    then (if is_hex_digit l.ch
        then digit
        else if not (is_space l.ch)
        then returned (blob_invalid l.ch, l)
        else space)
    else returned (blob_end sb, l)

abbrev pub decoded_token : Lexer → Bytes → Option Bytes → Token
decoded_token l error (some decoded) = token l token_blob decoded
decoded_token l error none = token l token_error (bytes "invalid blob literal: " ++ error)

abbrev pub blob_token : (Bytes → Bytes) → Lexer → BlobScan × Lexer → Token × Lexer
blob_token hex_error l (blob_invalid ch, end) =
    (token l token_error (bytes "invalid character in blob literal: " ++ string_of_byte ch), end)
blob_token hex_error l (blob_end sb, end) =
    if end.ch == 0
    then (token l token_error (bytes "unterminated blob literal"), end)
    else if not (length sb % 2 == 0)
    then (
      token l token_error (bytes "blob literal must contain an even number of hex digits"),
      read_char end,
    )
    else (decoded_token l (hex_error sb) (decode_string sb), read_char end)

-- `readBlob`; `hex_error` is the text of the error that `hex.DecodeString` returns on its input.
unfoldable pub read_blob : (Bytes → Bytes) → Lexer → Run (Token × Lexer)
read_blob hex_error l =
    blob_body (budget l) (read_char (read_char l)) [] >>= λ r. returned (blob_token hex_error l r)
