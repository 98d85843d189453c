-- ===== src/Domain/RiskEngine/StopOut.antt =====
-- The stop-out price of a long position.
use aegis_oms_rs.Prelude.{
  ◌≡◌, ◌≤ℤ◌, ◌<ℤ◌, pos, some, inl, inr, Bool-cases, ltb_ℤ, eq_of_parts, arith, int_laws,
  times_nonneg, times_nonpos,
}
use aegis_oms_rs.Platform.{Platform, unit}
use aegis_oms_rs.Platform.Decimal.{IsRounded-nonpos}
use aegis_oms_rs.Domain.Status.{Side}
use aegis_oms_rs.Domain.Error.{ok}
use aegis_oms_rs.Domain.Position.{Position}
use aegis_oms_rs.Domain.RiskEngine.{stop_price}

module _ ⦃P : Platform⦄ where
  -- A quotient of what is not negative by what is negative is not positive.
  div_neg :
      (a b c : P.Decimal)
      → P.units b <ℤ pos 0
      → pos 0 ≤ℤ P.units a
      → P.checked_div a b ≡ some c
      → P.units c ≤ℤ pos 0
  div_neg a b c h k e =
      IsRounded-nonpos _ _ c (P.div_rounds_neg a b c h e)
        (omega (int_laws, times_nonneg (P.units a) (pos unit) k (omega arith)))

  module _ (r lev base_equity base_margin q coeff m d cost top bottom x : P.Decimal) (p : Position)
      (long : p.side ≡ Side.buy) (quotient : P.checked_div r lev ≡ some q)
      (coefficient : P.checked_sub q P.one_value ≡ some coeff)
      (margin : P.checked_mul base_margin r ≡ some m)
      (difference : P.checked_sub m base_equity ≡ some d)
      (paid : P.checked_mul p.avg_price p.quantity ≡ some cost)
      (numerator : P.checked_add d cost ≡ some top)
      (product : P.checked_mul coeff p.quantity ≡ some bottom) where
    stop_price_quotient :
        stop_price r lev base_equity base_margin p ≡ ok (some x) → P.checked_div top bottom ≡ some x
    unfolding stop_price
    stop_price_quotient e = ground arith

    -- For a long position whose stop-out ratio is below its leverage, and whose cost and margin
    -- exceed the equity, so that only a positive price meets the stop-out equation, the stop-out
    -- price that is computed is not positive: its coefficient has the wrong sign.
    pub stop_price_nonpos :
        pos 0 <ℤ P.units p.quantity
        → P.units q <ℤ pos unit
        → pos 0 ≤ℤ P.units top
        → stop_price r lev base_equity base_margin p ≡ ok (some x)
        → P.units x ≤ℤ pos 0
    stop_price_nonpos held below owed e =
        let div = stop_price_quotient e in
        let less : P.units coeff ≤ℤ pos 0 =
          IsRounded-nonpos _ _ coeff (P.sub_rounds q P.one_value coeff coefficient)
            (rw P.one_lem (omega int_laws)) in
        let nonpos : P.units bottom ≤ℤ pos 0 =
          IsRounded-nonpos _ _ bottom (P.mul_rounds coeff p.quantity bottom product)
            (times_nonpos _ _ less (omega arith)) in
        elim (Bool-cases (ltb_ℤ (P.units bottom) (pos 0))) [
          | inl negative ↦ div_neg top bottom x (ground arith) owed div
          | inr not_negative ↦
              let zero : P.units bottom ≡ pos 0 = eq_of_parts _ _ (ground arith) in
              absurd (cc (P.div_zero top bottom zero))
        ]
