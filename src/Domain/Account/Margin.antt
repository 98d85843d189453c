-- ===== src/Domain/Account/Margin.antt =====
-- Margin locks
use aegis_oms_rs.Prelude.{
  ◌≡◌, sym, ◌∙◌, inl, inr, Option-cases, arith, int_laws, ◌+ℤ◌, ◌-ℤ◌, ◌≤ℤ◌, ◌<ℤ◌, pos, some,
  eq_of_parts, +ℤ_parts, times_nonneg,
}
use aegis_oms_rs.Platform.{Platform}
use aegis_oms_rs.Platform.Decimal.{IsExact, add_exact, sub_exact, IsRounded-nonneg}
use aegis_oms_rs.Domain.Error.{ok}
use aegis_oms_rs.Domain.Account.{
  Account, lock_margin, unlock_margin, required_margin, available_balance,
}

module _ ⦃P : Platform⦄ where
  -- In an account whose locked margin is not negative, a margin that is positive and within the
  -- balance that is available, and whose sum with the locked margin a Decimal represents, is
  -- locked, and unlocking it again gives back the lock that there was; the balance is not touched.
  pub unlock-lock :
      (amount available : P.Decimal) (a : Account)
      → pos 0 <ℤ P.units amount
      → available_balance a ≡ ok available
      → P.units amount ≤ℤ P.units available
      → pos 0 ≤ℤ P.units a.locked_margin
      → IsExact (P.units a.locked_margin +ℤ P.units amount)
      → (locked back : P.Decimal) × (lock_margin amount a
          ≡ (ok tt, record a { locked_margin = locked }))
        × (unlock_margin amount (record a { locked_margin = locked })
            ≡ (ok tt, record a { locked_margin = back }))
        × (P.units locked ≡ P.units a.locked_margin +ℤ P.units amount)
        × (P.units back ≡ P.units a.locked_margin)
  unfolding lock_margin unlock_margin
  unlock-lock amount available a h e le nonneg x =
      let (locked, es, el) = add_exact a.locked_margin amount x in
      let same : P.units locked -ℤ P.units amount ≡ P.units a.locked_margin =
        eq_of_parts _ _ (rw el (omega int_laws)) in
      let (back, eb, ul) = sub_exact locked amount (a.locked_margin, sym same) in
      (
        locked,
        back,
        ground (arith, P.zero_lem),
        ground (arith, P.zero_lem, el, +ℤ_parts (P.units a.locked_margin) (P.units amount)),
        el,
        ul ∙ same,
      )

  -- A margin that is computed is for a positive leverage; it is not negative for a price and a
  -- quantity that are not.
  pub required_margin_nonneg :
      (price quantity leverage margin : P.Decimal)
      → pos 0 ≤ℤ P.units price
      → pos 0 ≤ℤ P.units quantity
      → required_margin price quantity leverage ≡ ok margin
      → (pos 0 <ℤ P.units leverage) × (pos 0 ≤ℤ P.units margin)
  unfolding required_margin
  required_margin_nonneg price quantity leverage margin hp hq e =
      elim (Option-cases (P.checked_mul price quantity)) [
        | inl overflow ↦ absurd (ground arith)
        | inr (n, product) ↦
            let positive : pos 0 <ℤ P.units leverage = ground (arith, P.zero_lem) in
            let quotient : P.checked_div n leverage ≡ some margin = ground (arith, P.zero_lem) in
            let notional : pos 0 ≤ℤ P.units n =
              IsRounded-nonneg _ _ n (P.mul_rounds price quantity n product)
                (times_nonneg _ _ hp hq) in
            (
              positive,
              IsRounded-nonneg _ _ margin (P.div_rounds n leverage margin positive quotient)
                  (times_nonneg _ _ notional (omega arith)),
            )
      ]
