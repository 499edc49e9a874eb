-- ===== src/Storage/RowCodec/Canonical.antt =====
-- The encoding depends on the row as a map: not on the order in which Go's `range` meets it.
use pizzasql.Prelude.{
  true, false, Option, none, some, List, [], ◌∷◌, ◌++◌, ◌≡◌, refl, ap, ◌∙◌, sym, arith, length,
  Bool-cases, inl, inr,
}
use mathlib.Core.Path.{ap₂}
use pizzasql.Prelude.Bytes.{Bytes, bytes_eq, bytes_equal, bytes_equal_iff}
use pizzasql.Prelude.Map.{lookup, Distinct}
use pizzasql.Storage.RowCodec.{Row, Value, nil}
use pizzasql.Storage.RowCodec.Names.{
  bytes_le, insert_name, sort_names, contains_name, contains_name-sort_names, length-sort_names,
}
use pizzasql.Storage.RowCodec.Slices.{Outcome, ok}
use pizzasql.Storage.RowCodec.Encode.{row_value, encode_row, row_header}
use pizzasql.Storage.RowCodec.RoundTrip.{
  RowIsEncodable, keys, sorted_keys, contains_name-keys, binary_row, encode_row_lem, length-keys,
}
use pizzasql.Storage.RowCodec.Fields.{field_bytes, fields_bytes}

bytes_le_total : (a b : Bytes) → bytes_le a b ≡ false → bytes_le b a ≡ true
unfolding bytes_le
bytes_le_total [] b h = cc
bytes_le_total (x ∷ a) [] h = refl
bytes_le_total (x ∷ a) (y ∷ b) h = ground (arith, bytes_le_total a b)

bytes_le_antisymm : (a b : Bytes) → bytes_le a b ≡ true → bytes_le b a ≡ true → a ≡ b
unfolding bytes_le
bytes_le_antisymm [] [] h k = refl
bytes_le_antisymm [] (y ∷ b) h k = cc
bytes_le_antisymm (x ∷ a) [] h k = cc
bytes_le_antisymm (x ∷ a) (y ∷ b) h k = ground (arith, bytes_le_antisymm a b)

bytes_le_trans : (a b c : Bytes) → bytes_le a b ≡ true → bytes_le b c ≡ true → bytes_le a c ≡ true
unfolding bytes_le
bytes_le_trans [] b c h k = refl
bytes_le_trans (x ∷ a) [] c h k = cc
bytes_le_trans (x ∷ a) (y ∷ b) [] h k = cc
bytes_le_trans (x ∷ a) (y ∷ b) (z ∷ c) h k = ground (arith, bytes_le_trans a b c)

-- Increasing, with no name twice.
abbrev Below : Bytes → List Bytes → Type 0
Below x [] = Unit
Below x (y ∷ ys) = (bytes_le x y ≡ true) × (bytes_equal x y ≡ false) × Below x ys

abbrev IsSorted : List Bytes → Type 0
IsSorted [] = Unit
IsSorted (x ∷ xs) = Below x xs × IsSorted xs

Below-contains :
    (x y : Bytes) (xs : List Bytes)
    → Below x xs
    → contains_name y xs ≡ true
    → (bytes_le x y ≡ true) × (bytes_equal x y ≡ false)
unfolding contains_name
Below-contains x y [] b h = absurd (cc)
Below-contains x y (z ∷ xs) b h = elim (Bool-cases (bytes_equal z y)) [
  | inl same ↦ rw (← (bytes_equal_iff z y).0 same) (b.0, b.1)
  | inr other ↦ Below-contains x y xs b.2 (ground arith)
]

Below-trans : (x y : Bytes) (ys : List Bytes) → bytes_le x y ≡ true → Below y ys → Below x ys
Below-trans x y [] h b = tt
Below-trans x y (z ∷ ys) h b = (
  bytes_le_trans x y z h b.0,
  ground (
    arith,
    bytes_equal_iff x z,
    bytes_equal_iff y z,
    bytes_le_antisymm y z,
    bytes_le_antisymm x y,
    b.0,
    b.1,
  ),
  Below-trans x y ys h b.2,
)

Below-insert_name :
    (y x : Bytes) (xs : List Bytes)
    → bytes_le y x ≡ true
    → bytes_equal y x ≡ false
    → Below y xs
    → Below y (insert_name x xs)
unfolding insert_name
Below-insert_name y x [] h n b = (h, n, tt)
Below-insert_name y x (z ∷ xs) h n b = ground (arith, Below-insert_name y x xs h n b.2)

insert_name-IsSorted :
    (x : Bytes) (xs : List Bytes)
    → contains_name x xs ≡ false
    → IsSorted xs
    → IsSorted (insert_name x xs)
unfolding insert_name contains_name
insert_name-IsSorted x [] n s = (tt, tt)
insert_name-IsSorted x (y ∷ xs) n s = ground (
  arith,
  bytes_equal_iff x y,
  bytes_equal_iff y x,
  bytes_le_total x y,
  Below-trans x y xs,
  Below-insert_name y x xs,
  insert_name-IsSorted x xs,
)

-- Two increasing lists with the same names are one list.
sorted_unique :
    (xs ys : List Bytes)
    → IsSorted xs
    → IsSorted ys
    → ((k : Bytes) → contains_name k xs ≡ contains_name k ys)
    → xs ≡ ys
unfolding contains_name
sorted_unique [] [] s t same = refl
sorted_unique [] (y ∷ ys) s t same = absurd (ground (arith, same y, bytes_equal_iff y y))
sorted_unique (x ∷ xs) [] s t same = absurd (ground (arith, same x, bytes_equal_iff x x))
sorted_unique (x ∷ xs) (y ∷ ys) s t same =
    let heads : x ≡ y = ground (
      arith,
      same x,
      same y,
      bytes_equal_iff x x,
      bytes_equal_iff y y,
      bytes_equal_iff x y,
      bytes_equal_iff y x,
      Below-contains x y xs s.0,
      Below-contains y x ys t.0,
      bytes_le_antisymm x y,
    ) in
    let tails = sorted_unique xs ys s.1 t.1 (λ k. ground (
      arith,
      heads,
      same k,
      bytes_equal_iff x k,
      bytes_equal_iff y k,
      Below-contains x k xs s.0,
      Below-contains y k ys t.0,
    )) in
    cc (heads, tails)

module _ {X : Type 0} where
  sorted_keys-IsSorted : (row : Row X) → Distinct row → IsSorted (sorted_keys row)
  unfolding sort_names
  sorted_keys-IsSorted [] d = tt
  sorted_keys-IsSorted ((name, v) ∷ row) d =
      insert_name-IsSorted name (sorted_keys row)
        (ground (arith, contains_name-sort_names name (keys row), contains_name-keys name row, d.0))
        (sorted_keys-IsSorted row d.1)

  module _ (r r' : Row X) (same : (k : Bytes) → lookup k r ≡ lookup k r') where
    fields_bytes_same : (names : List Bytes) → fields_bytes r names ≡ fields_bytes r' names
    fields_bytes_same [] = refl
    fields_bytes_same (name ∷ names) =
        let value_same : row_value r name ≡ row_value r' name =
          ap (λ (o : Option (Value X)). elim o [ none ↦ nil | some v ↦ v ]) (same name) in
        ap₂ (λ (v : Value X) (b : Bytes). field_bytes name v ++ b) value_same
          (fields_bytes_same names)

    sorted_keys_same : Distinct r → Distinct r' → sorted_keys r ≡ sorted_keys r'
    sorted_keys_same d d' =
        sorted_unique (sorted_keys r) (sorted_keys r') (sorted_keys-IsSorted r d)
          (sorted_keys-IsSorted r' d')
          (λ k. ground (
            arith,
            contains_name-sort_names k (keys r),
            contains_name-sort_names k (keys r'),
            contains_name-keys k r,
            contains_name-keys k r',
            same k,
          ))

    length_same : Distinct r → Distinct r' → length r ≡ length r'
    length_same d d' = omega (
      arith,
      length-keys r,
      length-keys r',
      length-sort_names (keys r),
      length-sort_names (keys r'),
      ap length (sorted_keys_same d d'),
    )

    RowIsEncodable-same : Distinct r → Distinct r' → RowIsEncodable r → RowIsEncodable r'
    RowIsEncodable-same d d' e = record {
      few = rw (← length_same d d') e.few;
      fields = λ name v h. e.fields name v (same name ∙ h);
    }

    -- On rows that the binary format holds `encodeRow` is deterministic: two maps with the same
    -- fields, in whatever order Go's `range` meets them, are encoded to the same bytes. Nothing is
    -- said of rows that are written as JSON.
    pub encode_row_canonical :
        (marshal : Row X → Outcome Bytes)
        → Distinct r
        → Distinct r'
        → RowIsEncodable r
        → encode_row marshal r ≡ encode_row marshal r'
    encode_row_canonical marshal d d' e =
        let e' = RowIsEncodable-same d d' e in
        let bytes_same : binary_row r ≡ binary_row r' =
          rw (length_same d d', sorted_keys_same d d')
            (ap (λ (b : Bytes). row_header (length r') ++ b)
              (fields_bytes_same (sorted_keys r'))) in
        encode_row_lem marshal r e ∙ ap ok bytes_same ∙ sym (encode_row_lem marshal r' e')
