-- ===== src/Prelude/Eq.antt =====
-- Boolean equality as an interface, with the instances for the keys of the program's maps.
use Prim.Native.Nat.{ℕ}
use Prim.Native.String.{String}
use mathlib.Core.Path.{◌≡◌}
use mathlib.Core.Logic.{◌↔◌}
use mathlib.Core.Bool.{Bool, true}
use text.Mathlib.TextEquality.{eq_iff}
use text.Mathlib.Text
use aegis_oms_rs.Prelude.Tests.{nat_beq, nat_beq_iff}

-- The `PartialEq` that a type derives, with what it decides.
pub record Eq {ℓ} (T : Type ℓ) : Type ℓ where
  pub beq : T → T → Bool
  pub beq_iff : (x y : T) → (beq x y ≡ true) ↔ (x ≡ y)

-- Texts are the keys of instruments and positions.
instance abbrev pub string_eq : Eq String
string_eq = record { beq = λ x y. Text.◌==◌ x y; beq_iff = eq_iff }

module _ {ℓ} {T : Type ℓ} ⦃same : Eq T⦄ where
  infix 50 ◌==◌
  abbrev pub ◌==◌ : T → T → Bool
  ◌==◌ x y = same.beq x y

  pub ==_iff : (x y : T) → ((x == y) ≡ true) ↔ (x ≡ y)
  ==_iff x y = same.beq_iff x y

-- Numbers are the identifiers of the tests.
instance abbrev pub nat_eq : Eq ℕ
nat_eq = record { beq_iff = nat_beq_iff; beq = nat_beq }
