-- ===== src/Prelude/Eq.antt =====
-- Decidable equality as an interface: Go's `==` on the key types of its maps.
use Prim.Native.Nat.{ℕ}
use mathlib.Core.Path.{◌≡◌, refl}
use mathlib.Core.Logic.{◌↔◌}
use mathlib.Core.Bool.{Bool, true}
use pizzasql.Prelude.Tests.{◌==◌, ==_iff}

pub record Eq {ℓ} (A : Type ℓ) : Type ℓ where
  pub beq : A → A → Bool
  pub beq_iff : (a b : A) → (beq a b ≡ true) ↔ (a ≡ b)

abbrev pub equal {ℓ} : {A : Type ℓ} ⦃e : Eq A⦄ → A → A → Bool
equal ⦃e⦄ = e.beq

-- Pointers are numbers: two pointers are equal when they name one object.
instance abbrev pub nat_eq : Eq ℕ
nat_eq = record { beq = ◌==◌; beq_iff = ==_iff }

pub equal_refl {ℓ} : {A : Type ℓ} ⦃e : Eq A⦄ (a : A) → equal a a ≡ true
equal_refl ⦃e⦄ a = (e.beq_iff a a).1 refl
