-- ===== src/Storage/RowCodec/Names.antt =====
-- `sort.Strings` on the field names: the increasing order of bytes.
use pizzasql.Prelude.{
  suc, Bool, true, false, ◌||◌, ◌&&◌, List, [], ◌∷◌, ◌≡◌, refl, ap, ◌∙◌, arith, ltb, ◌==◌,
  if◌then◌else◌, length,
}
use pizzasql.Prelude.Bytes.{Bytes, bytes_equal}

-- `a <= b` on strings.
unfoldable pub bytes_le : Bytes → Bytes → Bool
bytes_le [] b = true
bytes_le (x ∷ a) [] = false
bytes_le (x ∷ a) (y ∷ b) = ltb x y || x == y && bytes_le a b

unfoldable pub insert_name : Bytes → List Bytes → List Bytes
unfolding bytes_le
insert_name x [] = x ∷ []
insert_name x (y ∷ ys) =
    let rest = insert_name x ys in if bytes_le x y then x ∷ y ∷ ys else y ∷ rest

unfoldable pub sort_names : List Bytes → List Bytes
unfolding insert_name
sort_names [] = []
sort_names (x ∷ xs) = insert_name x (sort_names xs)

unfoldable pub contains_name : Bytes → List Bytes → Bool
contains_name k [] = false
contains_name k (n ∷ ns) = bytes_equal n k || contains_name k ns

contains_name-insert_name :
    (k x : Bytes) (ns : List Bytes)
    → contains_name k (insert_name x ns) ≡ (bytes_equal x k || contains_name k ns)
unfolding insert_name contains_name
contains_name-insert_name k x [] = refl
contains_name-insert_name k x (n ∷ ns) = ground (arith, contains_name-insert_name k x ns)

-- Sorting keeps the names and their number.
pub contains_name-sort_names :
    (k : Bytes) (ns : List Bytes) → contains_name k (sort_names ns) ≡ contains_name k ns
unfolding sort_names contains_name
contains_name-sort_names k [] = refl
contains_name-sort_names k (n ∷ ns) =
    contains_name-insert_name k n (sort_names ns) ∙ rw (contains_name-sort_names k ns)

length-insert_name : (x : Bytes) (ns : List Bytes) → length (insert_name x ns) ≡ suc (length ns)
unfolding insert_name
length-insert_name x [] = refl
length-insert_name x (n ∷ ns) = ground (arith, length-insert_name x ns)

pub length-sort_names : (ns : List Bytes) → length (sort_names ns) ≡ length ns
unfolding sort_names
length-sort_names [] = refl
length-sort_names (n ∷ ns) = length-insert_name n (sort_names ns) ∙ ap suc (length-sort_names ns)
