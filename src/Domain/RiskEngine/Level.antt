-- ===== src/Domain/RiskEngine/Level.antt =====
-- The margin level against the thresholds.
use aegis_oms_rs.Prelude.{◌≡◌, ◌↔◌, List, arith, ◌≤ℤ◌, ◌<ℤ◌}
use aegis_oms_rs.Platform.{Platform}
use aegis_oms_rs.Domain.Error.{ok}
use aegis_oms_rs.Domain.Account.{Account}
use aegis_oms_rs.Domain.Position.{Position}
use aegis_oms_rs.Domain.RiskEngine.{MarginLevel, MarginStatus, Prices, calculate, level_of}

module _ ⦃P : Platform⦄ where
  -- The three levels cut the line of ratios at the two thresholds.
  abbrev pub AtLevel : MarginLevel → P.Decimal → P.Decimal → P.Decimal → Type 0
  AtLevel MarginLevel.stop_out ratio call stop = P.units ratio ≤ℤ P.units stop
  AtLevel MarginLevel.margin_call ratio call stop =
      (P.units stop <ℤ P.units ratio) × (P.units ratio ≤ℤ P.units call)
  AtLevel MarginLevel.normal ratio call stop =
      (P.units stop <ℤ P.units ratio) × (P.units call <ℤ P.units ratio)

  level_of_iff :
      (l : MarginLevel) (ratio call stop : P.Decimal)
      → (level_of ratio call stop ≡ l) ↔ AtLevel l ratio call stop
  unfolding level_of
  level_of_iff MarginLevel.stop_out ratio call stop = (λ h. ground arith, λ h. ground arith)
  level_of_iff MarginLevel.margin_call ratio call stop = (λ h. ground arith, λ h. ground arith)
  level_of_iff MarginLevel.normal ratio call stop = (λ h. ground arith, λ h. ground arith)

  calculate-level_of :
      (account : Account) (positions : List Position) (marks leverages : Prices)
      (call stop : P.Decimal) (st : MarginStatus)
      → calculate account positions marks leverages call stop ≡ ok st
      → st.level ≡ level_of st.margin_ratio call stop
  unfolding calculate
  calculate-level_of account positions marks leverages call stop st e = ground arith

  -- The status of an account has a level exactly if its margin ratio lies in the range of that
  -- level: at most the stop-out threshold, above it and at most the margin-call threshold, or
  -- above both.
  pub calculate_level :
      (account : Account) (positions : List Position) (marks leverages : Prices)
      (call stop : P.Decimal) (st : MarginStatus) (l : MarginLevel)
      → calculate account positions marks leverages call stop ≡ ok st
      → (st.level ≡ l) ↔ AtLevel l st.margin_ratio call stop
  calculate_level account positions marks leverages call stop st l e =
      let same = calculate-level_of account positions marks leverages call stop st e in
      rw same (level_of_iff l st.margin_ratio call stop)
