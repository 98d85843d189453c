-- ===== src/Service/OrderService/Booked.antt =====
-- A fill that succeeds keeps the loss in step with the trades that are stored.
use aegis_oms_rs.Prelude.{ℕ, ◌≡◌, refl, subst, some, arith, inl, inr, Option-cases, Bool-cases}
use aegis_oms_rs.Prelude.Eq.{◌==◌}
use aegis_oms_rs.Platform.{Platform}
use aegis_oms_rs.Infra.Repository.Memory.{in_memory_stores}
use aegis_oms_rs.Domain.Status.{OrderStatus, status_eq}
use aegis_oms_rs.Domain.Error.{Result, ok, err, panic, Method, Result-cases, lift, ◌>>◌}
use aegis_oms_rs.Domain.Order.{Order, apply_fill}
use aegis_oms_rs.Infra.OrderStore.{get_order}
use aegis_oms_rs.Service.OrderService.State.{OrderService, release_margin}
use aegis_oms_rs.Service.OrderService.Fill.{
  fill_order, settle_fill, book_fill, check_fill_margin, is_market_order,
}
use aegis_oms_rs.Service.OrderService.Filling.{fill_missing, fill_failing, check_fill-state}
use aegis_oms_rs.Service.OrderService.Unchecked.{
  filled_order, announced, fill_order_checked, fill_order_unchecked,
}
use aegis_oms_rs.Service.OrderService.Losses.{LossMatches, PlainZeros, book_fill-LossMatches}

module _ ⦃P : Platform⦄ where
  -- A call that succeeds and books no negative zero keeps the loss.
  abbrev Books : Result (Unit {0}) × OrderService → OrderService → Type 0
  Books (r, t) s = r ≡ ok tt → PlainZeros t.trade_store → LossMatches s → LossMatches t

  release-LossMatches :
      (id : P.Ulid) (s : OrderService) → LossMatches s → LossMatches (release_margin id s).1
  unfolding release_margin
  release-LossMatches id s l = ground arith

  lift-Books :
      (r : Result (Unit {0})) (m : Method OrderService (Unit {0})) (t : OrderService)
      → Books (m t) t
      → Books ((lift r >> m) t) t
  lift-Books (ok u) m t h k plain l = h k plain l
  lift-Books (err x) m t h k plain l = absurd (cc)
  lift-Books panic m t h k plain l = absurd (cc)

  module _ (trade_id : P.Ulid) (now : P.Timestamp) (id : P.Ulid) (qty price : P.Decimal)
      (o : Order) where
    settle_fill-Books : (s : OrderService) → Books (settle_fill trade_id now id qty price o s) s
    unfolding settle_fill
    settle_fill-Books s k plain l = elim (Bool-cases (o.status == OrderStatus.filled)) [
      | inl f ↦
          let (r, t) = release_margin id s in
          let book = book_fill trade_id now id qty price o in
          let same : settle_fill trade_id now id qty price o s ≡ (lift r >> book) t =
            rw (f, settle_fill) refl in
          rw same (
            lift-Books r book t (book_fill-LossMatches trade_id now id qty price o t) (rw same at k)
              (rw same at plain) (release-LossMatches id s l))
      | inr f ↦
          let same : settle_fill trade_id now id qty price o s
              ≡ book_fill trade_id now id qty price o s =
            rw (f, settle_fill) refl in
          rw same (
            book_fill-LossMatches trade_id now id qty price o s (rw same at k) (rw same at plain) l)
    ]

  taken :
      (trade_id : P.Ulid) (clock : ℕ → P.Timestamp) (id : P.Ulid) (qty price : P.Decimal)
      (s : OrderService) (o : Order)
      → get_order id s.store ≡ some o
      → (apply_fill qty price (clock 0) o).0 ≡ ok tt
      → Books (fill_order trade_id clock id qty price s) s
  taken trade_id clock id qty price s o e f k plain l =
      let o' = filled_order trade_id clock id qty price s o e f in
      let t = announced trade_id clock id qty price s o e f in
      let settle = settle_fill trade_id (clock 1) id qty price o' in
      let after = settle_fill-Books trade_id (clock 1) id qty price o' t in
      elim (Bool-cases (is_market_order o'.order_type)) [
        | inl m ↦
            let r = (check_fill_margin o'.instrument qty price t).0 in
            let same : fill_order trade_id clock id qty price s ≡ (lift r >> settle) t =
              subst (λ u. fill_order trade_id clock id qty price s ≡ (lift r >> settle) u)
                (check_fill-state o'.instrument qty price t)
                (fill_order_checked trade_id clock id qty price s o e f m) in
            rw same (lift-Books r settle t after (rw same at k) (rw same at plain) l)
        | inr m ↦
            let same = fill_order_unchecked trade_id clock id qty price s o e f m in
            rw same (after (rw same at k) (rw same at plain) l)
      ]

  -- Over the repositories in memory, a fill that succeeds, and leaves no trade with a negative zero
  -- for its profit, keeps the loss of the service equal to the sum of the losses of the trades that
  -- are stored, added up in the order in which they were saved.
  pub fill_order-LossMatches :
      (trade_id : P.Ulid) (clock : ℕ → P.Timestamp) (id : P.Ulid) (qty price : P.Decimal)
      (s : OrderService)
      → (fill_order trade_id clock id qty price s).0 ≡ ok tt
      → PlainZeros (fill_order trade_id clock id qty price s).1.trade_store
      → LossMatches s
      → LossMatches (fill_order trade_id clock id qty price s).1
  fill_order-LossMatches trade_id clock id qty price s k plain l =
      elim (Option-cases (get_order id s.store)) [
        | inl e ↦ rw (fill_missing trade_id clock id qty price s e) l
        | inr (o, e) ↦ elim (Result-cases (apply_fill qty price (clock 0) o).0) [
          | inl (u, f) ↦ taken trade_id clock id qty price s o e f k plain l
          | inr (inl f) ↦ rw (fill_failing trade_id clock id qty price s o e (λ h. cc)) l
          | inr (inr (x, f)) ↦ rw (fill_failing trade_id clock id qty price s o e (λ h. cc)) l
        ]
      ]
