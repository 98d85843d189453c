-- ===== src/Service/OrderService/Stuck.antt =====
-- A service with locked margin and no locks.
use aegis_oms_rs.Prelude.{
  ℕ, String, ◌≡◌, ◌∙◌, refl, ap, [], some, arith, inl, inr, Option-cases, Bool-cases,
}
use aegis_oms_rs.Prelude.Eq.{◌==◌}
use aegis_oms_rs.Platform.{Platform}
use aegis_oms_rs.Domain.Status.{OrderStatus, status_eq}
use aegis_oms_rs.Domain.Error.{ok, Result-cases, Method}
use aegis_oms_rs.Domain.Method.{Leads, lift-Leads}
use aegis_oms_rs.Domain.Account
use aegis_oms_rs.Domain.Order.{Order, cancel, apply_fill}
use aegis_oms_rs.Infra.Repository.{Stores}
use aegis_oms_rs.Service.OrderService.State.{OrderService, release_margin}
use aegis_oms_rs.Service.OrderService.Submit.{cancel_order}
use aegis_oms_rs.Service.OrderService.Fill.{
  fill_order, settle_fill, book_fill, check_fill_margin, is_market_order,
}
use aegis_oms_rs.Service.OrderService.Query.{deposit, withdraw, update_positions_pnl}
use aegis_oms_rs.Service.OrderService.Locks.{release_none}
use aegis_oms_rs.Service.OrderService.Filling.{
  book_fill-SameLocks, fill_missing, fill_failing, check_fill-state,
}
use aegis_oms_rs.Service.OrderService.Unchecked.{
  filled_order, announced, fill_order_checked, fill_order_unchecked,
}
use aegis_oms_rs.Service.Composite.{on_price_update}
use aegis_oms_rs.Service.Composite.Prices.{on_price_update-KeepsBooks}
use aegis_oms_rs.Service.Unwritten.{
  Change, Changes, here, next, cancels, fills, updates, deposits, withdraws, marks,
}

module _ ⦃P : Platform⦄ ⦃S : Stores⦄ (locked : P.Decimal) where
  -- That much is locked, and no order holds a lock.
  abbrev pub HoldsNoLock : OrderService → Type 0
  HoldsNoLock s = (s.account.locked_margin ≡ locked) × (s.margin_locks ≡ [])

  abbrev Keeps : {A : Type 0} → Method OrderService A → Type 0
  Keeps m = Leads HoldsNoLock HoldsNoLock m

  release-none : (id : P.Ulid) (s : OrderService) → HoldsNoLock s → release_margin id s ≡ (ok tt, s)
  release-none id s (l, n) = release_none id s (rw n refl)

  cancel-Keeps : (id : P.Ulid) (now : P.Timestamp) → Keeps (cancel_order id now)
  unfolding cancel_order
  cancel-Keeps id now s h = elim (Option-cases (S.orders.get_order id s.store)) [
    | inl e ↦ ground arith
    | inr (o, e) ↦
        let t = record s { store = S.orders.put_order id (cancel now o).1 s.store } in
        ground (arith, release-none id t h)
  ]

  module _ (trade_id : P.Ulid) (now : P.Timestamp) (id : P.Ulid) (qty price : P.Decimal)
      (o : Order) where
    book-Keeps : Keeps (book_fill trade_id now id qty price o)
    book-Keeps s h =
        let same = book_fill-SameLocks trade_id now id qty price o s in rw (same.0, same.1) h

    settle-Keeps : Keeps (settle_fill trade_id now id qty price o)
    unfolding settle_fill
    settle-Keeps s h = elim (Bool-cases (o.status == OrderStatus.filled)) [
      | inl f ↦ ground (arith, release-none id s h, book-Keeps s h)
      | inr f ↦ rw (f, settle_fill) (book-Keeps s h)
    ]

  module _ (trade_id : P.Ulid) (clock : ℕ → P.Timestamp) (id : P.Ulid) (qty price : P.Decimal) where
    fill_taken-Keeps :
        (s : OrderService) (o : Order)
        → S.orders.get_order id s.store ≡ some o
        → (apply_fill qty price (clock 0) o).0 ≡ ok tt
        → HoldsNoLock s
        → HoldsNoLock (fill_order trade_id clock id qty price s).1
    fill_taken-Keeps s o e k h =
        let o' = filled_order trade_id clock id qty price s o e k in
        let t = announced trade_id clock id qty price s o e k in
        let settle = settle_fill trade_id (clock 1) id qty price o' in
        let settled = settle-Keeps trade_id (clock 1) id qty price o' in
        elim (Bool-cases (is_market_order o'.order_type)) [
          | inl m ↦ rw (fill_order_checked trade_id clock id qty price s o e k m) (
              rw (check_fill-state o'.instrument qty price t) (
                lift-Leads HoldsNoLock HoldsNoLock (check_fill_margin o'.instrument qty price t).0
                  settle (λ u p. p) settled t h))
          | inr m ↦ rw (fill_order_unchecked trade_id clock id qty price s o e k m) (settled t h)
        ]

    fill-Keeps : Keeps (fill_order trade_id clock id qty price)
    fill-Keeps s h = elim (Option-cases (S.orders.get_order id s.store)) [
      | inl e ↦ rw (fill_missing trade_id clock id qty price s e) h
      | inr (o, e) ↦ elim (Result-cases (apply_fill qty price (clock 0) o).0) [
        | inl (u, k) ↦ fill_taken-Keeps s o e k h
        | inr (inl k) ↦ rw (fill_failing trade_id clock id qty price s o e (λ n. cc)) h
        | inr (inr (x, k)) ↦ rw (fill_failing trade_id clock id qty price s o e (λ n. cc)) h
      ]
    ]

  update-Keeps :
      (symbol : String) (price : P.Decimal) (clock : ℕ → P.Timestamp)
      → Keeps (on_price_update symbol price clock)
  update-Keeps symbol price clock s (l, n) =
      let books = on_price_update-KeepsBooks symbol price clock s in
      (ap (λ u. u.account.locked_margin) books ∙ l, ap (λ u. u.margin_locks) books ∙ n)

  Change-HoldsNoLock : {s t : OrderService} → Change s t → HoldsNoLock s → HoldsNoLock t
  unfolding deposit withdraw update_positions_pnl Account.deposit Account.withdraw
  Change-HoldsNoLock {s} (cancels id now) h = cancel-Keeps id now s h
  Change-HoldsNoLock {s} (fills trade_id clock id qty price) h =
      fill-Keeps trade_id clock id qty price s h
  Change-HoldsNoLock {s} (updates symbol price clock) h = update-Keeps symbol price clock s h
  Change-HoldsNoLock (deposits amount) h = ground arith
  Change-HoldsNoLock (withdraws amount) h = ground arith
  Change-HoldsNoLock (marks prices) h = h

  -- Locked margin for which no order holds a lock stays locked through any sequence of cancels,
  -- fills, price updates, deposits, withdrawals and markings, whatever their outcomes.
  pub Changes-HoldsNoLock : {s t : OrderService} → Changes s t → HoldsNoLock s → HoldsNoLock t
  Changes-HoldsNoLock here h = h
  Changes-HoldsNoLock (next c k) h = Change-HoldsNoLock k (Changes-HoldsNoLock c h)
