-- ===== src/Domain/Account.antt =====
-- src/domain/account.rs: the account, its margin locks, and the margin calculator.
pub mod Solvency
pub mod Margin
use aegis_oms_rs.Prelude.{String, if◌then◌else◌}
use aegis_oms_rs.Platform.{Platform}
use aegis_oms_rs.Platform.Decimal.{lt, le}
use aegis_oms_rs.Domain.Error.{
  Result, ok, err, Method, add, sub, div, or_err, bind, lift, gets, modify, raise_if, ◌>>=◌, ◌>>◌,
  invalid_margin_amount, insufficient_funds, margin_unlock_exceeded, risk_check_failed,
  withdrawal_exceeds_available, leverage_not_positive, margin_overflow,
}

module _ ⦃P : Platform⦄ where
  pub record Account : Type 0 where
    pub id : String
    pub name : String
    pub balance : P.Decimal
    pub locked_margin : P.Decimal
    pub created_at : P.Timestamp

  unfoldable pub new : P.Timestamp → String → String → P.Decimal → Account
  new now id name initial_balance = record {
    id = id;
    name = name;
    balance = initial_balance;
    locked_margin = P.zero_value;
    created_at = now;
  }

  unfoldable pub available_balance : Account → Result P.Decimal
  available_balance a = sub a.balance a.locked_margin

  unfoldable pub lock_margin : P.Decimal → Method Account (Unit {0})
  unfolding available_balance
  lock_margin amount = do
    raise_if (le amount P.zero_value) (invalid_margin_amount amount)
    a ← gets (λ a. a)
    available ← lift (available_balance a)
    raise_if (lt available amount) (insufficient_funds amount available)
    locked ← lift (add a.locked_margin amount)
    modify (λ a. record a { locked_margin = locked })

  unfoldable pub unlock_margin : P.Decimal → Method Account (Unit {0})
  unlock_margin amount = do
    raise_if (le amount P.zero_value) (invalid_margin_amount amount)
    a ← gets (λ a. a)
    raise_if (lt a.locked_margin amount) (margin_unlock_exceeded amount a.locked_margin)
    locked ← lift (sub a.locked_margin amount)
    modify (λ a. record a { locked_margin = locked })

  unfoldable pub apply_realized_pnl : P.Decimal → Method Account (Unit {0})
  apply_realized_pnl pnl = do
    a ← gets (λ a. a)
    balance ← lift (add a.balance pnl)
    modify (λ a. record a { balance = balance })

  unfoldable pub deposit : P.Decimal → Method Account (Unit {0})
  deposit amount = do
    raise_if (le amount P.zero_value) (invalid_margin_amount amount)
    a ← gets (λ a. a)
    balance ← lift (add a.balance amount)
    modify (λ a. record a { balance = balance })

  unfoldable pub withdraw : P.Decimal → Method Account (Unit {0})
  unfolding available_balance
  withdraw amount = do
    raise_if (le amount P.zero_value) (invalid_margin_amount amount)
    a ← gets (λ a. a)
    available ← lift (available_balance a)
    raise_if (lt available amount) (withdrawal_exceeds_available amount available)
    balance ← lift (sub a.balance amount)
    modify (λ a. record a { balance = balance })

  -- `MarginCalculator::required_margin`
  unfoldable pub required_margin : P.Decimal → P.Decimal → P.Decimal → Result P.Decimal
  required_margin price quantity leverage =
      if le leverage P.zero_value
      then err (risk_check_failed leverage_not_positive)
      else bind (or_err (P.checked_mul price quantity) (risk_check_failed margin_overflow))
          (λ notional. div notional leverage)

  -- The account's events, which the program declares and does not publish.
  pub data AccountEvent : Type 0 where
    margin_locked margin_released : String → P.Ulid → P.Decimal → AccountEvent
    pnl_applied deposited withdrawn : String → P.Decimal → P.Decimal → AccountEvent
