-- ===== src/Domain/Position/Reduce.antt =====
-- `Position::reduce`
use aegis_oms_rs.Prelude.{
  ◌≡◌, sym, -ℤ_self, ◌∙◌, true, false, arith, ◌≤ℤ◌, ◌<ℤ◌, ◌-ℤ◌, pos, some, Option-cases, inl, inr,
  -ℤ_parts, times_nonneg, times_nonpos,
}
use aegis_oms_rs.Platform.{Platform}
use aegis_oms_rs.Platform.Decimal.{IsExact, IsRounded-nonneg, IsRounded-nonpos, sub_exact, min}
use aegis_oms_rs.Domain.Status.{Side}
use aegis_oms_rs.Domain.Error.{ok}
use aegis_oms_rs.Domain.Position.{Position, reduce, pnl_of, is_flat}

-- The price is no worse than the average price, for who holds the side.
abbrev pub IsGain : ⦃P : Platform⦄ → Side → P.Decimal → P.Decimal → Type 0
IsGain ⦃P⦄ Side.buy price avg = P.units avg ≤ℤ P.units price
IsGain ⦃P⦄ Side.sell price avg = P.units price ≤ℤ P.units avg

-- The price is no better than the average price, for who holds the side.
abbrev pub IsLoss : ⦃P : Platform⦄ → Side → P.Decimal → P.Decimal → Type 0
IsLoss ⦃P⦄ Side.buy price avg = P.units price ≤ℤ P.units avg
IsLoss ⦃P⦄ Side.sell price avg = P.units avg ≤ℤ P.units price

module _ ⦃P : Platform⦄ (a b qty d r : P.Decimal) (nonneg : pos 0 ≤ℤ P.units qty)
    (difference : P.checked_sub a b ≡ some d) (product : P.checked_mul d qty ≡ some r) where
  difference_nonneg : P.units b ≤ℤ P.units a → pos 0 ≤ℤ P.units r
  difference_nonneg h = IsRounded-nonneg _ _ r (P.mul_rounds d qty r product) (
      times_nonneg _ _
        (IsRounded-nonneg _ _ d (P.sub_rounds a b d difference)
          (omega (arith, -ℤ_parts (P.units a) (P.units b))))
        nonneg)

  difference_nonpos : P.units a ≤ℤ P.units b → P.units r ≤ℤ pos 0
  difference_nonpos h = IsRounded-nonpos _ _ r (P.mul_rounds d qty r product) (
      times_nonpos _ _
        (IsRounded-nonpos _ _ d (P.sub_rounds a b d difference)
          (omega (arith, -ℤ_parts (P.units a) (P.units b))))
        nonneg)

module _ ⦃P : Platform⦄ where
  -- The sign of a profit agrees with the move of the price.
  abbrev pub HasSign : Side → P.Decimal → P.Decimal → P.Decimal → Type 0
  HasSign s price avg r =
      (IsGain s price avg → pos 0 ≤ℤ P.units r) × (IsLoss s price avg → P.units r ≤ℤ pos 0)

  pub pnl_of_sign :
      (s : Side) (price avg qty r : P.Decimal)
      → pos 0 ≤ℤ P.units qty
      → pnl_of s price avg qty ≡ ok r
      → HasSign s price avg r
  unfolding pnl_of
  pnl_of_sign Side.buy price avg qty r h e = elim (Option-cases (P.checked_sub price avg)) [
    | inl n ↦ absurd (ground arith)
    | inr (d, es) ↦ (
      difference_nonneg price avg qty d r h es (ground arith),
      difference_nonpos price avg qty d r h es (ground arith),
    )
  ]
  pnl_of_sign Side.sell price avg qty r h e = elim (Option-cases (P.checked_sub avg price)) [
    | inl n ↦ absurd (ground arith)
    | inr (d, es) ↦ (
      difference_nonneg avg price qty d r h es (ground arith),
      difference_nonpos avg price qty d r h es (ground arith),
    )
  ]

  -- Closing realizes no loss at a price no worse than the average price and no gain at one no
  -- better: the sign of the profit that `reduce` returns agrees with the move of the price, for a
  -- long and for a short position, where neither quantity is negative.
  pub reduce_sign :
      (qty price pnl : P.Decimal) (p : Position)
      → pos 0 ≤ℤ P.units qty
      → pos 0 ≤ℤ P.units p.quantity
      → (reduce qty price p).0 ≡ ok pnl
      → HasSign p.side price p.avg_price pnl
  unfolding reduce
  reduce_sign qty price pnl p hq hp e =
      pnl_of_sign p.side price p.avg_price (min qty p.quantity) pnl (ground arith) (ground arith)

  -- A reduction by less than the position leaves the difference at the same average price; one
  -- by the whole position or more leaves a flat position with its average price reset. Neither
  -- quantity is negative, and a Decimal represents their difference.
  pub reduce_effect :
      (qty price pnl : P.Decimal) (p : Position)
      → pos 0 ≤ℤ P.units qty
      → pos 0 ≤ℤ P.units p.quantity
      → IsExact (P.units p.quantity -ℤ P.units qty)
      → (reduce qty price p).0 ≡ ok pnl
      → let p' = (reduce qty price p).1 in
        (P.units qty <ℤ P.units p.quantity
          → (P.units p'.quantity ≡ P.units p.quantity -ℤ P.units qty)
            × (p'.avg_price ≡ p.avg_price)
            × (is_flat p' ≡ false))
        × (P.units p.quantity ≤ℤ P.units qty → (is_flat p' ≡ true) × (p'.avg_price ≡ P.zero_value))
  unfolding reduce is_flat
  reduce_effect qty price pnl p hq hp exact e =
      let (c, ec, v) = sub_exact p.quantity qty exact in
      let (z, ez, w) =
        sub_exact p.quantity p.quantity
          (P.zero_value, P.zero_lem ∙ sym (-ℤ_self (P.units p.quantity))) in
      let parts = -ℤ_parts (P.units p.quantity) (P.units qty) in
      let whole = -ℤ_self (P.units p.quantity) in
      (λ less. ground (arith, P.zero_lem), λ more. ground (arith, P.zero_lem))
