-- ===== src/Platform.antt =====
-- What the program takes from crates outside the repository, as one interface: the numbers of
-- rust_decimal, the clock of chrono and the identifiers of ulid. A Decimal is m / 10^e with e at
-- most 28, so it is a whole number of units of 10^-28. Comparison is numeric. `checked_add` and
-- the like are none where the result overflows, which is where the operators panic; otherwise the
-- result is the exact one, rounded to a neighbouring Decimal where it is none itself.
pub mod Decimal
pub mod Plain
pub mod Text
pub mod Whole
use aegis_oms_rs.Prelude.{
  ℕ, ◌^◌, ◌<◌, ℤ, pos, ◌+ℤ◌, ◌-ℤ◌, ◌*ℤ◌, ◌≤ℤ◌, ◌<ℤ◌, ltb_ℤ, ◌≡◌, ◌≢◌, Bool, Option, none, some,
}
use aegis_oms_rs.Prelude.Eq.{Eq}

-- The units of the number one.
abbrev pub unit : ℕ
unit = 10 ^ 28

-- `c` is n / k, or a neighbour of it among the values of type `D`: none lies strictly between.
abbrev pub IsRounded : {D : Type 0} → (D → ℤ) → ℤ → ℤ → D → Type 0
IsRounded {D} units n k c =
    (d : D) → (units d *ℤ k ≤ℤ n → units d ≤ℤ units c) × (n ≤ℤ units d *ℤ k → units c ≤ℤ units d)

pub record Platform : Type 1 where
  pub Decimal : Type 0
  pub units : Decimal → ℤ
  pub zero_value : Decimal
  pub one_value : Decimal
  pub max_value : Decimal
  -- `Decimal::new(n, 0)`
  pub new : ℕ → Decimal
  pub checked_add : Decimal → Decimal → Option Decimal
  pub checked_sub : Decimal → Decimal → Option Decimal
  pub checked_mul : Decimal → Decimal → Option Decimal
  pub checked_div : Decimal → Decimal → Option Decimal
  pub neg : Decimal → Decimal
  pub is_sign_negative : Decimal → Bool
  pub Timestamp : Type 0
  pub Ulid : Type 0
  pub ulid_is_eq : Eq Ulid
  pub zero_lem : units zero_value ≡ pos 0
  pub one_lem : units one_value ≡ pos unit
  pub new_lem : (n : ℕ) → n < 2 ^ 63 → units (new n) ≡ pos n *ℤ pos unit
  pub neg_lem : (d : Decimal) → units (neg d) ≡ pos 0 -ℤ units d
  -- A zero may carry either sign.
  pub sign_lem : (d : Decimal) → units d ≢ pos 0 → is_sign_negative d ≡ ltb_ℤ (units d) (pos 0)
  pub add_rounds :
      (a b c : Decimal) → checked_add a b ≡ some c → IsRounded units (units a +ℤ units b) (pos 1) c
  pub add_total : (a b c : Decimal) → units c ≡ units a +ℤ units b → checked_add a b ≢ none
  pub sub_rounds :
      (a b c : Decimal) → checked_sub a b ≡ some c → IsRounded units (units a -ℤ units b) (pos 1) c
  pub sub_total : (a b c : Decimal) → units c ≡ units a -ℤ units b → checked_sub a b ≢ none
  pub mul_rounds :
      (a b c : Decimal)
      → checked_mul a b ≡ some c
      → IsRounded units (units a *ℤ units b) (pos unit) c
  pub div_rounds :
      (a b c : Decimal)
      → pos 0 <ℤ units b
      → checked_div a b ≡ some c
      → IsRounded units (units a *ℤ pos unit) (units b) c
  pub div_rounds_neg :
      (a b c : Decimal)
      → units b <ℤ pos 0
      → checked_div a b ≡ some c
      → IsRounded units (pos 0 -ℤ units a *ℤ pos unit) (pos 0 -ℤ units b) c
  pub div_zero : (a b : Decimal) → units b ≡ pos 0 → checked_div a b ≡ none
