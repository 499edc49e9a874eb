-- ===== src/Lexer/Blobs.antt =====
-- pkg/lexer/lexer.go: `readBlob` returns.
use pizzasql.Prelude.{
  ℕ, zero, suc, ◌%◌, not, ◌&&◌, Option, some, none, [], ◌∷◌, ◌++◌, ◌≢◌, refl, arith, ◌==◌,
  if◌then◌else◌, length, Bool-cases, inl, inr,
}
use pizzasql.Prelude.Bytes.{Bytes}
use pizzasql.Lexer.State.{returned, Lexer, read_char, peek_char, is_hex_digit}
use pizzasql.Lexer.Readers.{budget, is_space}
use pizzasql.Lexer.Blob.{
  BlobScan, blob_end, blob_invalid, blob_body, blob_token, decoded_token, read_blob,
}
use pizzasql.Lexer.Moves.{
  Ensures, Ensures-bind, Ensures-map, Ensures-if, IsValid, Onward, Forward, read_char-Forward,
  Onward-refl, Onward-trans, Forward-Onward, onward,
}
use pizzasql.Lexer.Total.{read_twice, IsFuel, IsFuel-left, no_fuel}
use pizzasql.Lexer.Progress.{IsNext}

blob_body-Ensures :
    (fuel : ℕ) (l : Lexer) (sb : Bytes)
    → IsValid l
    → IsFuel fuel l
    → Ensures (λ r. Onward l r.1) (blob_body fuel l sb)
unfolding blob_body
blob_body-Ensures zero l sb v h = no_fuel l v h
blob_body-Ensures (suc fuel) l sb v h =
    let next = read_char l in
    let P = λ (r : BlobScan × Lexer). Onward l r.1 in
    let digit = blob_body fuel next (sb ++ l.ch ∷ []) in
    let space = blob_body fuel next sb in
    let bad = returned (blob_invalid l.ch, l) in
    let plain = if not (is_space l.ch) then bad else space in
    Ensures-if P (not (l.ch == b'\'') && not (l.ch == 0))
      (if is_hex_digit l.ch then digit else plain) (returned (blob_end sb, l))
      (λ inside.
        let f = read_char-Forward l v (ground (arith, inside)) in
        let onto = λ (r : BlobScan × Lexer) (o : Onward next r.1).
          Onward-trans l next r.1 (onward l next f) o in
        let left = IsFuel-left fuel l next f h in
        Ensures-if P (is_hex_digit l.ch) digit plain
          (λ _.
            Ensures-map (λ r. Onward next r.1) P digit
              (blob_body-Ensures fuel next (sb ++ l.ch ∷ []) f.0 left) onto)
          (λ _.
            Ensures-if P (not (is_space l.ch)) bad space (λ _. Onward-refl l v)
              (λ _.
                Ensures-map (λ r. Onward next r.1) P space (blob_body-Ensures fuel next sb f.0 left)
                  onto)))
      (λ _. Onward-refl l v)

decoded_token-IsNext :
    (l e : Lexer) (error : Bytes) (o : Option Bytes)
    → Forward l e
    → IsNext l (decoded_token l error o, e)
decoded_token-IsNext l e error none f = record { ahead = f; at_line = refl; at_column = refl }
decoded_token-IsNext l e error (some _) f = record { ahead = f; at_line = refl; at_column = refl }

blob_token-IsNext :
    (hex_error : Bytes → Bytes) (l : Lexer) (r : BlobScan × Lexer)
    → Forward l r.1
    → IsNext l (blob_token hex_error l r)
blob_token-IsNext hex_error l (blob_invalid ch, e) f = record {
  ahead = f;
  at_line = refl;
  at_column = refl;
}
blob_token-IsNext hex_error l (blob_end sb, e) f = elim (Bool-cases (e.ch == 0)) [
  | inl h ↦ rw h (record { ahead = f; at_line = refl; at_column = refl })
  | inr h ↦
      let k = read_char-Forward e f.0 (ground (arith, h)) in
      let g = Forward-Onward l e (read_char e) f (onward e (read_char e) k) in
      (elim (Bool-cases (not (length sb % 2 == 0))) [
        | inl odd ↦ rw (h, odd) (record { ahead = g; at_line = refl; at_column = refl })
        | inr even ↦ rw (h, even) (decoded_token-IsNext l (read_char e) (hex_error sb) _ g)
      ])
]

pub read_blob-Ensures :
    (hex_error : Bytes → Bytes) (l : Lexer)
    → IsValid l
    → l.ch ≢ 0
    → peek_char l ≢ 0
    → Ensures (IsNext l) (read_blob hex_error l)
unfolding read_blob
read_blob-Ensures hex_error l v ne ne' =
    let inside = read_char (read_char l) in
    let f = read_twice l v ne ne' in
    Ensures-bind (λ r. Onward inside r.1) (IsNext l) (blob_body (budget l) inside []) _
      (blob_body-Ensures (budget l) inside [] f.0 (ground (arith, f.1)))
      (λ r o. blob_token-IsNext hex_error l r (Forward-Onward l inside r.1 f o))
