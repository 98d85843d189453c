-- ===== src/Domain/Account/Solvency.antt =====
-- What the account's operations keep: no margin is locked that the balance does not cover, and a
-- failed operation changes nothing.
use aegis_oms_rs.Prelude.{
  ◌≡◌, ◌≢◌, inl, inr, Option-cases, arith, +ℤ_parts, -ℤ_parts, ◌-ℤ◌, ◌≤ℤ◌, pos,
}
use aegis_oms_rs.Platform.{Platform}
use aegis_oms_rs.Platform.Decimal.{IsExact, add-le, add-le_of_le, sub-le, le-sub, sub_exact}
use aegis_oms_rs.Domain.Error.{ok, Method}
use aegis_oms_rs.Domain.Account.{
  Account, lock_margin, unlock_margin, apply_realized_pnl, deposit, withdraw,
}

module _ ⦃P : Platform⦄ where
  -- The operations with an amount.
  pub data Op : Type 0 where
    locks unlocks books deposits withdraws : P.Decimal → Op

  unfoldable pub perform : Op → Method Account (Unit {0})
  perform (locks x) = lock_margin x
  perform (unlocks x) = unlock_margin x
  perform (books x) = apply_realized_pnl x
  perform (deposits x) = deposit x
  perform (withdraws x) = withdraw x

  -- An operation that does not succeed leaves the account as it was.
  pub perform_atomic : (op : Op) (a : Account) → (perform op a).0 ≢ ok tt → (perform op a).1 ≡ a
  unfolding perform lock_margin unlock_margin apply_realized_pnl deposit withdraw
  perform_atomic (locks x) a h = ground arith
  perform_atomic (unlocks x) a h = ground arith
  perform_atomic (books x) a h = ground arith
  perform_atomic (deposits x) a h = ground arith
  perform_atomic (withdraws x) a h = ground arith

  pub record IsSolvent (a : Account) : Type 0 where
    pub locked_nonneg : pos 0 ≤ℤ P.units a.locked_margin
    pub covered : P.units a.locked_margin ≤ℤ P.units a.balance

  module _ (x : P.Decimal) (a : Account) (s : IsSolvent a) where
    lock-IsSolvent :
        IsExact (P.units a.balance -ℤ P.units a.locked_margin) → IsSolvent (lock_margin x a).1
    unfolding lock_margin
    lock-IsSolvent exact =
        let (available, e, v) = sub_exact a.balance a.locked_margin exact in
        elim (Option-cases (P.checked_add a.locked_margin x)) [
          | inl overflow ↦ ground arith
          | inr (c, sum) ↦ ground (
            arith,
            P.zero_lem,
            -ℤ_parts (P.units a.balance) (P.units a.locked_margin),
            +ℤ_parts (P.units a.locked_margin) (P.units x),
            add-le a.locked_margin x c sum,
            add-le_of_le a.locked_margin x c a.balance sum,
          )
        ]

    unlock-IsSolvent : IsSolvent (unlock_margin x a).1
    unfolding unlock_margin
    unlock-IsSolvent = elim (Option-cases (P.checked_sub a.locked_margin x)) [
      | inl overflow ↦ ground arith
      | inr (c, difference) ↦ ground (
        arith,
        P.zero_lem,
        -ℤ_parts (P.units a.locked_margin) (P.units x),
        sub-le a.locked_margin x c difference,
        le-sub a.locked_margin x c P.zero_value difference,
      )
    ]

    deposit-IsSolvent : IsSolvent (deposit x a).1
    unfolding deposit
    deposit-IsSolvent = elim (Option-cases (P.checked_add a.balance x)) [
      | inl overflow ↦ ground arith
      | inr (c, sum) ↦ ground (arith, P.zero_lem, add-le a.balance x c sum)
    ]

    withdraw-IsSolvent :
        IsExact (P.units a.balance -ℤ P.units a.locked_margin) → IsSolvent (withdraw x a).1
    unfolding withdraw
    withdraw-IsSolvent exact =
        let (available, e, v) = sub_exact a.balance a.locked_margin exact in
        elim (Option-cases (P.checked_sub a.balance x)) [
          | inl overflow ↦ ground arith
          | inr (c, difference) ↦ ground (
            arith,
            P.zero_lem,
            -ℤ_parts (P.units a.balance) (P.units a.locked_margin),
            -ℤ_parts (P.units a.balance) (P.units x),
            le-sub a.balance x c a.locked_margin difference,
          )
        ]

  -- A loss that is booked does not count: it may leave locks that the balance does not cover.
  abbrev pub IsBooking : Op → Type 0
  IsBooking (books x) = Unit {0}
  IsBooking _ = ⊥

  -- A solvent account stays solvent under a lock, an unlock, a deposit and a withdrawal, whatever
  -- the amount and the outcome, if a Decimal represents the balance less the lock exactly.
  pub perform-IsSolvent :
      (op : Op) (a : Account)
      → ¬ (IsBooking op)
      → IsExact (P.units a.balance -ℤ P.units a.locked_margin)
      → IsSolvent a
      → IsSolvent (perform op a).1
  unfolding perform
  perform-IsSolvent (locks x) a b e s = lock-IsSolvent x a s e
  perform-IsSolvent (unlocks x) a b e s = unlock-IsSolvent x a s
  perform-IsSolvent (books x) a b e s = absurd (b tt)
  perform-IsSolvent (deposits x) a b e s = deposit-IsSolvent x a s
  perform-IsSolvent (withdraws x) a b e s = withdraw-IsSolvent x a s e
