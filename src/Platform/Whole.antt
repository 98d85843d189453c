-- ===== src/Platform/Whole.antt =====
-- A platform whose numbers are unbounded whole numbers of units, which rounds down: it shows that
-- the interface's laws can hold together, and the tests run on it.
use aegis_oms_rs.Prelude.{
  eq_of_parts, int_laws, ℕ, zero, suc, ◌*◌, ◌/◌, ◌^◌, ◌<◌, ℤ, pos, negsuc, ◌+ℤ◌, ◌-ℤ◌, ◌*ℤ◌, ◌≤ℤ◌,
  ◌<ℤ◌, *ℤ_pos, ltb_ℤ, ◌≡◌, refl, Option, none, some, arith,
}
use aegis_oms_rs.Prelude.Eq.{nat_eq}
use aegis_oms_rs.Platform.{Platform, IsRounded, unit}

-- Division that rounds down.
abbrev pub floor_div : ℤ → ℕ → ℤ
floor_div (pos n) k = pos (n / k)
floor_div (negsuc n) k = negsuc (n / k)

abbrev pub IsFloor : ℤ → ℕ → ℤ → Type 0
IsFloor n k c = (d : ℤ) → (d *ℤ pos k ≤ℤ n → d ≤ℤ c) × (n ≤ℤ d *ℤ pos k → c ≤ℤ d)

floor_div-IsFloor : (n : ℤ) (k : ℕ) → 0 < k → IsFloor n k (floor_div n k)
floor_div-IsFloor (pos n) k h (pos d) =
    (λ x. grind (arith, *ℤ_pos (pos d) k), λ x. grind (arith, *ℤ_pos (pos d) k))
floor_div-IsFloor (pos n) k h (negsuc d) =
    (λ x. grind (arith, *ℤ_pos (negsuc d) k), λ x. grind (arith, *ℤ_pos (negsuc d) k))
floor_div-IsFloor (negsuc n) k h (pos d) =
    (λ x. grind (arith, *ℤ_pos (pos d) k), λ x. grind (arith, *ℤ_pos (pos d) k))
floor_div-IsFloor (negsuc n) k h (negsuc d) =
    (λ x. grind (arith, *ℤ_pos (negsuc d) k), λ x. grind (arith, *ℤ_pos (negsuc d) k))

abbrev pub div_units : ℤ → ℤ → Option ℤ
div_units a (pos zero) = none
div_units a (pos (suc k)) = some (floor_div (a *ℤ pos unit) (suc k))
div_units a (negsuc k) = some (floor_div (pos 0 -ℤ a *ℤ pos unit) (suc k))

pub rounds_self : (n c : ℤ) → some n ≡ some c → IsRounded (λ d. d) n (pos 1) c
rounds_self n c e d =
    let same : n ≡ c = cc in
    rw (← same) (λ x. omega (arith, *ℤ_pos d 1), λ x. omega (arith, *ℤ_pos d 1))

pub mul_rounds :
    (a b c : ℤ) → some (floor_div (a *ℤ b) unit) ≡ some c → IsRounded (λ d. d) (a *ℤ b) (pos unit) c
mul_rounds a b c e =
    let same : floor_div (a *ℤ b) unit ≡ c = cc in
    rw (← same) (floor_div-IsFloor (a *ℤ b) unit (omega arith))

pub div_rounds :
    (a b c : ℤ) → pos 0 <ℤ b → div_units a b ≡ some c → IsRounded (λ d. d) (a *ℤ pos unit) b c
div_rounds a (pos zero) c h e = cc
div_rounds a (pos (suc k)) c h e =
    let same : floor_div (a *ℤ pos unit) (suc k) ≡ c = cc in
    rw (← same) (floor_div-IsFloor (a *ℤ pos unit) (suc k) (omega arith))
div_rounds a (negsuc k) c h e = absurd (omega arith)

flipped : (k : ℕ) → pos 0 -ℤ negsuc k ≡ pos (suc k)
flipped k = eq_of_parts _ _ (omega int_laws)

pub div_rounds_neg :
    (a b c : ℤ)
    → b <ℤ pos 0
    → div_units a b ≡ some c
    → IsRounded (λ d. d) (pos 0 -ℤ a *ℤ pos unit) (pos 0 -ℤ b) c
div_rounds_neg a (pos k) c h e = absurd (omega arith)
div_rounds_neg a (negsuc k) c h e =
    let same : floor_div (pos 0 -ℤ a *ℤ pos unit) (suc k) ≡ c = cc in
    rw (flipped k, ← same) (floor_div-IsFloor (pos 0 -ℤ a *ℤ pos unit) (suc k) (omega arith))

pub div_zero : (a b : ℤ) → b ≡ pos 0 → div_units a b ≡ none
div_zero a b e = rw e

pub some_not_none : {a : ℤ} → ¬ (some a ≡ none)
some_not_none e = cc

instance abbrev pub whole : Platform
whole = record {
  Decimal = ℤ;
  units = λ d. d;
  zero_value = pos 0;
  one_value = pos unit;
  max_value = pos (2 ^ 96 * unit);
  new = λ n. pos n *ℤ pos unit;
  checked_add = λ a b. some (a +ℤ b);
  checked_sub = λ a b. some (a -ℤ b);
  checked_mul = λ a b. some (floor_div (a *ℤ b) unit);
  checked_div = div_units;
  neg = λ d. pos 0 -ℤ d;
  is_sign_negative = λ d. ltb_ℤ d (pos 0);
  Timestamp = ℕ;
  Ulid = ℕ;
  ulid_is_eq = nat_eq;
  zero_lem = refl;
  one_lem = refl;
  new_lem = λ n h. refl;
  neg_lem = λ d. refl;
  sign_lem = λ d h. refl;
  add_rounds = λ a b c e. rounds_self (a +ℤ b) c e;
  add_total = λ a b c h e. some_not_none e;
  sub_rounds = λ a b c e. rounds_self (a -ℤ b) c e;
  sub_total = λ a b c h e. some_not_none e;
  mul_rounds = mul_rounds;
  div_rounds = div_rounds;
  div_rounds_neg = div_rounds_neg;
  div_zero = div_zero;
}
