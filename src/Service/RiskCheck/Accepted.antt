-- ===== src/Service/RiskCheck/Accepted.antt =====
-- Which orders the risk checks let through.
use aegis_oms_rs.Prelude.{ℕ, ◌≡◌, ◌↔◌, arith, ◌<◌, ◌≤ℤ◌, ◌<ℤ◌, pos}
use aegis_oms_rs.Platform.{Platform}
use aegis_oms_rs.Domain.Error.{ok}
use aegis_oms_rs.Domain.Order.{OrderType, market, limit, stop, stop_limit, trailing_stop}
use aegis_oms_rs.Domain.Account.{required_margin}
use aegis_oms_rs.Service.RiskCheck.{RiskLimits, validate_order, validate_margin}

-- Every price that the type of the order carries is positive.
abbrev pub HasPositivePrices : ⦃P : Platform⦄ → OrderType → Type 0
HasPositivePrices market = Unit {0}
HasPositivePrices ⦃P⦄ (limit price) = pos 0 <ℤ P.units price
HasPositivePrices ⦃P⦄ (stop trigger) = pos 0 <ℤ P.units trigger
HasPositivePrices ⦃P⦄ (stop_limit trigger price) =
    (pos 0 <ℤ P.units trigger) × (pos 0 <ℤ P.units price)
HasPositivePrices ⦃P⦄ (trailing_stop trail) = pos 0 <ℤ P.units trail

module _ ⦃P : Platform⦄ where
  -- An order passes exactly if its quantity is positive and within the limit, the prices of its
  -- type are positive, and fewer orders and positions are open than the limits allow.
  pub validate_order_accepts :
      (limits : RiskLimits) (t : OrderType) (quantity : P.Decimal) (orders positions : ℕ)
      → (validate_order limits t quantity orders positions ≡ ok tt) ↔ (
          (pos 0 <ℤ P.units quantity)
          × (P.units quantity ≤ℤ P.units limits.max_order_quantity)
          × HasPositivePrices t
          × (orders < limits.max_open_orders)
          × (positions < limits.max_open_positions))
  unfolding validate_order
  validate_order_accepts limits market quantity orders positions =
      (λ h. ground (arith, P.zero_lem), λ h. ground (arith, P.zero_lem))
  validate_order_accepts limits _ quantity orders positions =
      (λ h. ground (arith, P.zero_lem), λ h. ground (arith, P.zero_lem))

  -- The margin check passes exactly if a required margin is computed and the balance that is
  -- available covers it; it returns that margin.
  pub validate_margin_accepts :
      (available price quantity leverage margin : P.Decimal)
      → (validate_margin available price quantity leverage ≡ ok margin) ↔ (
          (required_margin price quantity leverage ≡ ok margin)
          × (P.units margin ≤ℤ P.units available))
  unfolding validate_margin
  validate_margin_accepts available price quantity leverage margin =
      (λ h. ground arith, λ h. ground arith)
