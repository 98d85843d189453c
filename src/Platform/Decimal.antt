-- ===== src/Platform/Decimal.antt =====
-- Comparison of the platform's numbers, and what its laws say of sums and differences.
use aegis_oms_rs.Prelude.{
  ℤ, pos, ◌+ℤ◌, ◌-ℤ◌, ◌*ℤ◌, ◌≤ℤ◌, ltb_ℤ, leb_ℤ, int_laws, eq_of_parts, *ℤ_pos, ◌∙◌, ◌≡◌, Bool, some,
  arith, ◌&&◌, if◌then◌else◌, Option-cases, inl, inr,
}
use aegis_oms_rs.Platform.{Platform, IsRounded}

-- `a < b`, `a <= b` and `a == b`: a Decimal compares by its value.
abbrev pub lt : ⦃P : Platform⦄ → P.Decimal → P.Decimal → Bool
lt ⦃P⦄ a b = ltb_ℤ (P.units a) (P.units b)

abbrev pub le : ⦃P : Platform⦄ → P.Decimal → P.Decimal → Bool
le ⦃P⦄ a b = leb_ℤ (P.units a) (P.units b)

abbrev pub equal : ⦃P : Platform⦄ → P.Decimal → P.Decimal → Bool
equal a b = le a b && le b a

abbrev pub is_zero : ⦃P : Platform⦄ → P.Decimal → Bool
is_zero ⦃P⦄ a = equal a P.zero_value

abbrev pub min : ⦃P : Platform⦄ → P.Decimal → P.Decimal → P.Decimal
min a b = if lt b a then b else a

abbrev pub max : ⦃P : Platform⦄ → P.Decimal → P.Decimal → P.Decimal
max a b = if lt a b then b else a

-- The number `n` of units is that of some Decimal.
abbrev pub IsExact : ⦃P : Platform⦄ → ℤ → Type 0
IsExact ⦃P⦄ n = (d : P.Decimal) × (P.units d ≡ n)

times_one : (a : ℤ) → a *ℤ pos 1 ≡ a
times_one a = eq_of_parts (a *ℤ pos 1) a (omega (arith, *ℤ_pos a 1))

module _ ⦃P : Platform⦄ where
  -- A rounded number that needs no rounding is exact.
  IsRounded-exact :
      (n : ℤ) (c : P.Decimal) → IsRounded P.units n (pos 1) c → IsExact n → P.units c ≡ n
  IsRounded-exact n c r (d, e) =
      let same : P.units d *ℤ pos 1 ≡ n = rw times_one e in
      let below : P.units d ≤ℤ P.units c = (r d).0 (rw same (omega arith)) in
      let above : P.units c ≤ℤ P.units d = (r d).1 (rw same (omega arith)) in
      eq_of_parts (P.units c) (P.units d) (omega arith) ∙ e

  -- A sum that some Decimal represents is computed, and exactly.
  pub add_exact :
      (a b : P.Decimal)
      → IsExact (P.units a +ℤ P.units b)
      → (c : P.Decimal) × (P.checked_add a b ≡ some c) × (P.units c ≡ P.units a +ℤ P.units b)
  add_exact a b x = elim (Option-cases (P.checked_add a b)) [
    | inl e ↦ absurd (P.add_total a b x.0 x.1 e)
    | inr (c, e) ↦ (c, e, IsRounded-exact _ c (P.add_rounds a b c e) x)
  ]

  pub sub_exact :
      (a b : P.Decimal)
      → IsExact (P.units a -ℤ P.units b)
      → (c : P.Decimal) × (P.checked_sub a b ≡ some c) × (P.units c ≡ P.units a -ℤ P.units b)
  sub_exact a b x = elim (Option-cases (P.checked_sub a b)) [
    | inl e ↦ absurd (P.sub_total a b x.0 x.1 e)
    | inr (c, e) ↦ (c, e, IsRounded-exact _ c (P.sub_rounds a b c e) x)
  ]

  -- Adding what is not negative never gives less.
  pub add-le :
      (a b c : P.Decimal) → P.checked_add a b ≡ some c → pos 0 ≤ℤ P.units b → P.units a ≤ℤ P.units c
  add-le a b c e h = (P.add_rounds a b c e a).0 (rw times_one (omega int_laws))

zero_times : (k : ℤ) → pos 0 *ℤ k ≡ pos 0
unfolding ◌*ℤ◌
zero_times k = ground arith

module _ ⦃P : Platform⦄ where
  -- Rounding keeps the sign.
  pub IsRounded-nonneg :
      (n k : ℤ) (c : P.Decimal) → IsRounded P.units n k c → pos 0 ≤ℤ n → pos 0 ≤ℤ P.units c
  IsRounded-nonneg n k c r h =
      let e : P.units P.zero_value *ℤ k ≡ pos 0 = rw P.zero_lem (zero_times k) in
      rw P.zero_lem at ((r P.zero_value).0 (rw e h))

  pub IsRounded-nonpos :
      (n k : ℤ) (c : P.Decimal) → IsRounded P.units n k c → n ≤ℤ pos 0 → P.units c ≤ℤ pos 0
  IsRounded-nonpos n k c r h =
      let e : P.units P.zero_value *ℤ k ≡ pos 0 = rw P.zero_lem (zero_times k) in
      rw P.zero_lem at ((r P.zero_value).1 (rw e h))

  -- Subtracting what is not negative never gives more, and a difference stays above any number
  -- that the exact difference is above.
  pub sub-le :
      (a b c : P.Decimal) → P.checked_sub a b ≡ some c → pos 0 ≤ℤ P.units b → P.units c ≤ℤ P.units a
  sub-le a b c e h = (P.sub_rounds a b c e a).1 (rw times_one (omega int_laws))

  pub le-sub :
      (a b c d : P.Decimal)
      → P.checked_sub a b ≡ some c
      → P.units d ≤ℤ P.units a -ℤ P.units b
      → P.units d ≤ℤ P.units c
  le-sub a b c d e h = (P.sub_rounds a b c e d).0 (rw times_one h)

  pub add-le_of_le :
      (a b c d : P.Decimal)
      → P.checked_add a b ≡ some c
      → P.units a +ℤ P.units b ≤ℤ P.units d
      → P.units c ≤ℤ P.units d
  add-le_of_le a b c d e h = (P.add_rounds a b c e d).1 (rw times_one h)
