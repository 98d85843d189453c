-- ===== src/Service/OrderService/Lock.antt =====
-- The margin lock of a new order.
use aegis_oms_rs.Prelude.{
  ◌≡◌, ◌≢◌, ◌∙◌, ap, sym, pos, ◌+ℤ◌, ◌<ℤ◌, some, none, arith, ◌⊎◌, inl, inr, Option-cases,
  Bool-cases, +ℤ_cancel,
}
use aegis_oms_rs.Prelude.Map.{insert, get-insert_self}
use aegis_oms_rs.Prelude.Map.Sum.{insert-IsDistinct, AllPositive-insert, sum_by-insert_new}
use aegis_oms_rs.Platform.{Platform}
use aegis_oms_rs.Infra.Repository.{Stores}
use aegis_oms_rs.Platform.Decimal.{IsExact, add_exact, lt, le}
use aegis_oms_rs.Domain.Error.{ok, Result-cases}
use aegis_oms_rs.Domain.Account.{required_margin, lock_margin, available_balance}
use aegis_oms_rs.Service.RiskCheck.{validate_margin}
use aegis_oms_rs.Service.OrderService.State.{OrderService, lock_of}
use aegis_oms_rs.Service.OrderService.Submit.{lock_for}
use aegis_oms_rs.Service.OrderService.Locks.{LocksMatch, ExactRelease}

module _ ⦃P : Platform⦄ ⦃S : Stores⦄ (id : P.Ulid) (price quantity leverage : P.Decimal)
    (s : OrderService) where
  -- The margin that is required for the order is locked exactly.
  abbrev pub ExactLock : Type 0
  ExactLock =
      (m : P.Decimal)
      → required_margin price quantity leverage ≡ ok m
      → IsExact (P.units s.account.locked_margin +ℤ P.units m)

  -- The state after a lock of the margin `m`, with `c` locked in all.
  abbrev pub with_lock : P.Decimal → P.Decimal → OrderService
  with_lock m c = record s {
    account = record (s.account) { locked_margin = c };
    margin_locks = insert ⦃e = P.ulid_is_eq⦄ id m s.margin_locks;
  }

  -- The lock that `lock_for` makes, if it succeeds.
  abbrev pub Locked : Type 0
  Locked =
      (m c : P.Decimal) × (required_margin price quantity leverage ≡ ok m)
      × (pos 0 <ℤ P.units m)
      × (P.units c ≡ P.units s.account.locked_margin +ℤ P.units m)
      × (lock_for id price quantity leverage s ≡ (ok tt, with_lock m c))

  abbrev pub NotLocked : Type 0
  NotLocked =
      ((lock_for id price quantity leverage s).0 ≢ ok tt)
      × ((lock_for id price quantity leverage s).1 ≡ s)

  lock_with :
      (m v : P.Decimal)
      → required_margin price quantity leverage ≡ ok m
      → P.checked_sub s.account.balance s.account.locked_margin ≡ some v
      → IsExact (P.units s.account.locked_margin +ℤ P.units m)
      → Locked ⊎ NotLocked
  unfolding lock_for validate_margin lock_margin available_balance
  lock_with m v e ev exact =
      let (c, ec, sum) = add_exact s.account.locked_margin m exact in
      elim (Bool-cases (lt v m)) [
        | inl short ↦ inr (ground arith, ground arith)
        | inr enough ↦ elim (Bool-cases (le m P.zero_value)) [
          | inl bad ↦ inr (ground arith, ground arith)
          | inr good ↦ inl (m, c, e, ground (arith, P.zero_lem), sum, ground arith)
        ]
      ]

  -- Either the margin is computed, positive, and locked in full, or nothing changes.
  pub lock_for_cases : ExactLock → Locked ⊎ NotLocked
  unfolding lock_for validate_margin available_balance
  lock_for_cases exact =
      elim (Option-cases (P.checked_sub s.account.balance s.account.locked_margin)) [
        | inl overflow ↦ inr (ground arith, ground arith)
        | inr (v, ev) ↦ elim (Result-cases (required_margin price quantity leverage)) [
          | inl (m, e) ↦ lock_with m v e ev (exact m e)
          | inr (inl e) ↦ inr (ground arith, ground arith)
          | inr (inr (x, e)) ↦ inr (ground arith, ground arith)
        ]
      ]

  with_lock-LocksMatch :
      (m c : P.Decimal)
      → pos 0 <ℤ P.units m
      → P.units c ≡ P.units s.account.locked_margin +ℤ P.units m
      → lock_of id s ≡ none
      → LocksMatch s
      → LocksMatch (with_lock m c) × ExactRelease id (with_lock m c)
  with_lock-LocksMatch m c h sum fresh l = (
    record {
      distinct = insert-IsDistinct ⦃e = P.ulid_is_eq⦄ id m s.margin_locks l.distinct;
      positive = AllPositive-insert ⦃e = P.ulid_is_eq⦄ P.units id m s.margin_locks l.positive h;
      matched =
          sum
          ∙ ap (λ t. t +ℤ P.units m) l.matched
          ∙ sym (sum_by-insert_new ⦃e = P.ulid_is_eq⦄ P.units id m s.margin_locks fresh);
    },
    λ m' e.
        let same : m ≡ m' = cc (get-insert_self ⦃e = P.ulid_is_eq⦄ id m s.margin_locks) in
        (s.account.locked_margin, rw (← same, sum, +ℤ_cancel)),
  )

  -- Whatever its outcome, the lock of a new order keeps the locks and the account in step, and
  -- what it locks can be released exactly.
  pub lock_for-LocksMatch :
      ExactLock
      → lock_of id s ≡ none
      → LocksMatch s
      → let s' = (lock_for id price quantity leverage s).1 in LocksMatch s' × ExactRelease id s'
  lock_for-LocksMatch exact fresh l = elim (lock_for_cases exact) [
    | inl (m, c, _, h, sum, e) ↦ rw e (with_lock-LocksMatch m c h sum fresh l)
    | inr (_, e) ↦ rw e (l, λ m k. absurd (ground arith))
  ]
