-- ===== src/Service/RiskCheck.antt =====
-- src/service/risk_check.rs: the limits and the checks before an order is taken.
pub mod Accepted
use aegis_oms_rs.Prelude.{ℕ, Bool, false, ◌||◌, Option, none, leb, if◌then◌else◌}
use aegis_oms_rs.Platform.{Platform}
use aegis_oms_rs.Platform.Decimal.{lt, le}
use aegis_oms_rs.Domain.Error.{
  Result, ok, err, bind, insufficient_funds, risk_check_failed, Reason, quantity_not_positive,
  quantity_exceeds_max, limit_price_not_positive, stop_price_not_positive, stop_limit_not_positive,
  trail_not_positive, open_order_limit, open_position_limit,
}
use aegis_oms_rs.Domain.Order.{OrderType, market, limit, stop, stop_limit, trailing_stop}
use aegis_oms_rs.Domain.Account.{required_margin}

module _ ⦃P : Platform⦄ where
  pub record RiskLimits : Type 0 where
    pub max_order_quantity : P.Decimal
    pub max_open_orders : ℕ
    pub stop_out_ratio : P.Decimal
    pub margin_call_ratio : P.Decimal
    pub max_open_positions : ℕ
    pub max_loss : Option P.Decimal

  -- `RiskLimits::default`
  unfoldable pub default_limits : RiskLimits
  default_limits = record {
    max_order_quantity = P.new 1_000_000;
    max_open_orders = 100;
    stop_out_ratio = P.new 50;
    margin_call_ratio = P.new 100;
    max_open_positions = 20;
    max_loss = none;
  }

  -- A check that fails for a reason.
  abbrev pub fail_if : Bool → Reason → Result (Unit {0})
  fail_if b r = if b then err (risk_check_failed r) else ok tt

  abbrev pub not_positive : P.Decimal → Bool
  not_positive d = le d P.zero_value

  -- The four checks of the prices that an order type carries.
  unfoldable pub validate_prices : OrderType → Result (Unit {0})
  validate_prices market = ok tt
  validate_prices (limit price) = fail_if (not_positive price) limit_price_not_positive
  validate_prices (stop trigger) = fail_if (not_positive trigger) stop_price_not_positive
  validate_prices (stop_limit trigger price) =
      fail_if (not_positive trigger || not_positive price) stop_limit_not_positive
  validate_prices (trailing_stop trail) = fail_if (not_positive trail) trail_not_positive

  unfoldable pub validate_order : RiskLimits → OrderType → P.Decimal → ℕ → ℕ → Result (Unit {0})
  unfolding validate_prices
  validate_order limits order_type quantity open_order_count open_position_count =
      bind (fail_if (not_positive quantity) quantity_not_positive) (λ _.
        bind
          (fail_if (lt limits.max_order_quantity quantity)
            (quantity_exceeds_max quantity limits.max_order_quantity))
          (λ _. bind (validate_prices order_type) (λ _.
            bind
              (fail_if (leb limits.max_open_orders open_order_count)
                (open_order_limit limits.max_open_orders))
              (λ _.
                fail_if (leb limits.max_open_positions open_position_count)
                  (open_position_limit limits.max_open_positions)))))

  unfoldable pub validate_margin : P.Decimal → P.Decimal → P.Decimal → P.Decimal → Result P.Decimal
  validate_margin available_balance price quantity leverage =
      bind (required_margin price quantity leverage) (λ required.
        if lt available_balance required
        then err (insufficient_funds required available_balance)
        else ok required)
