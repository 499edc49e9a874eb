-- ===== src/Analyzer/TypeLaws.antt =====
-- pkg/analyzer/types.go: the laws of the comparable types and of the common type.
use pizzasql.Prelude.{Bool, true, ◌&&◌, ◌||◌, ◌≡◌, ◌≢◌, refl, arith}
use pizzasql.Analyzer.Types.{
  SqlType, unknown, null, integer, real, text, blob, numeric, boolean, any, jsonb, same_type,
  is_numeric, is_comparable, common_type,
}

-- A statement about a type, tried at each of them.
all_types : (SqlType → Bool) → Bool
all_types p =
    p unknown
    && p null
    && p integer
    && p real
    && p text
    && p blob
    && p numeric
    && p boolean
    && p any
    && p jsonb

all_types_sound : (p : SqlType → Bool) (t : SqlType) → all_types p ≡ true → p t ≡ true
unfolding all_types
all_types_sound p unknown h = ground arith
all_types_sound p null h = ground arith
all_types_sound p integer h = ground arith
all_types_sound p real h = ground arith
all_types_sound p text h = ground arith
all_types_sound p blob h = ground arith
all_types_sound p numeric h = ground arith
all_types_sound p boolean h = ground arith
all_types_sound p any h = ground arith
all_types_sound p jsonb h = ground arith

number_type : (a b : SqlType) → same_type a b ≡ true → a ≡ b
number_type a b h = ground arith

-- Comparing types does not depend on the side that each stands on.
pub is_comparable_comm : (a b : SqlType) → is_comparable a b ≡ is_comparable b a
unfolding is_comparable is_numeric
is_comparable_comm a b = ground arith

pub common_type_comm : (a b : SqlType) → common_type a b ≡ common_type b a
unfolding common_type is_numeric
common_type_comm a b = ground arith

assoc_at : SqlType → SqlType → SqlType → Bool
assoc_at a b c =
    same_type a jsonb
    || same_type b jsonb
    || same_type c jsonb
    || same_type (common_type (common_type a b) c) (common_type a (common_type b c))

assoc_table : all_types (λ a. all_types (λ b. all_types (λ c. assoc_at a b c))) ≡ true
unfolding all_types assoc_at common_type is_numeric
assoc_table = refl

assoc_everywhere : (a b c : SqlType) → assoc_at a b c ≡ true
assoc_everywhere a b c =
    all_types_sound (λ z. assoc_at a b z) c
      (all_types_sound (λ y. all_types (λ z. assoc_at a y z)) b
        (all_types_sound (λ x. all_types (λ y. all_types (λ z. assoc_at x y z))) a assoc_table))

common_type_idem : (a : SqlType) → common_type a a ≡ a
unfolding common_type is_numeric
common_type_idem a = ground arith

-- The common type of several branches depends neither on their order nor on how they are grouped,
-- as long as none of them is JSONB; a branch that does not differ from another adds nothing.
pub common_type_laws :
    (a b c : SqlType)
    → a ≢ jsonb
    → b ≢ jsonb
    → c ≢ jsonb
    → (common_type a b ≡ common_type b a)
      × (common_type (common_type a b) c ≡ common_type a (common_type b c))
      × (common_type a a ≡ a)
common_type_laws a b c na nb nc = (
  common_type_comm a b,
  number_type _ _ (
      unfold assoc_at in
      ground (
        arith,
        assoc_everywhere a b c,
        number_type a jsonb,
        number_type b jsonb,
        number_type c jsonb,
      )),
  common_type_idem a,
)
