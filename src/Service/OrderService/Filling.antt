-- ===== src/Service/OrderService/Filling.antt =====
-- What `fill_order` keeps of the margin locks, whatever its outcome.
use aegis_oms_rs.Prelude.{
  ℕ, String, ◌≡◌, ◌≢◌, some, none, arith, inl, inr, Option, Option-cases, Bool-cases,
}
use aegis_oms_rs.Prelude.Eq.{◌==◌, string_eq}
use aegis_oms_rs.Prelude.Map.{get}
use aegis_oms_rs.Platform.{Platform}
use aegis_oms_rs.Infra.Repository.{Stores}
use aegis_oms_rs.Domain.Status.{Side, OrderStatus, status_eq}
use aegis_oms_rs.Domain.Error.{Result, ok, err, Result-cases, lift, ◌>>◌, order_not_found}
use aegis_oms_rs.Domain.Method.{Leads, lift-Leads}
use aegis_oms_rs.Domain.Order.{Order, apply_fill}
use aegis_oms_rs.Domain.Account.{apply_realized_pnl}
use aegis_oms_rs.Domain.Position.{Position}
use aegis_oms_rs.Service.OrderService.State.{OrderService, release_margin}
use aegis_oms_rs.Service.OrderService.Fill.{
  fill_order, settle_fill, book_fill, update_position_with_pnl, close_against, book_loss,
  check_loss, check_fill_margin, is_market_order,
}
use aegis_oms_rs.Service.OrderService.Unchecked.{
  filled_order, announced, fill_order_checked, fill_order_unchecked,
}
use aegis_oms_rs.Service.OrderService.Locks.{LocksMatch, ExactRelease, release-LocksMatch}

module _ ⦃P : Platform⦄ ⦃S : Stores⦄ where
  -- The calls below touch neither the locks, nor what the account has locked, nor the orders.
  abbrev pub SameLocks : OrderService → OrderService → Type 0
  SameLocks s t =
      (t.account.locked_margin ≡ s.account.locked_margin)
      × (t.margin_locks ≡ s.margin_locks)
      × (t.store ≡ s.store)

  close-SameLocks :
      (instrument : String) (side : Side) (qty price : P.Decimal) (p : Position) (s : OrderService)
      → SameLocks s (close_against instrument side qty price p s).1
  unfolding close_against apply_realized_pnl
  close-SameLocks instrument side qty price p s = ground arith

  update-SameLocks :
      (instrument : String) (side : Side) (qty price : P.Decimal) (s : OrderService)
      → SameLocks s (update_position_with_pnl instrument side qty price s).1
  unfolding update_position_with_pnl
  update-SameLocks instrument side qty price s = elim (Option-cases (get instrument s.positions)) [
    | inl e ↦ ground arith
    | inr (p, e) ↦ ground (arith, close-SameLocks instrument side qty price p s)
  ]

  book-SameLocks : (r : Option P.Decimal) (s : OrderService) → SameLocks s (book_loss r s).1
  unfolding book_loss
  book-SameLocks none s = ground arith
  book-SameLocks (some x) s = ground arith

  check-SameLocks : (s : OrderService) → (check_loss s).1 ≡ s
  unfolding check_loss
  check-SameLocks s = ground arith

  module _ (trade_id : P.Ulid) (now : P.Timestamp) (id : P.Ulid) (qty price : P.Decimal)
      (o : Order) where
    pub book_fill-SameLocks :
        (s : OrderService) → SameLocks s (book_fill trade_id now id qty price o s).1
    unfolding book_fill
    book_fill-SameLocks s =
        let (r, u) = update_position_with_pnl o.instrument o.side qty price s in
        let same = update-SameLocks o.instrument o.side qty price s in
        elim (Result-cases (update_position_with_pnl o.instrument o.side qty price s).0) [
          | inl (pnl, e) ↦ ground (arith, book-SameLocks pnl u, check-SameLocks (book_loss pnl u).1)
          | inr (inl e) ↦ ground arith
          | inr (inr (x, e)) ↦ ground arith
        ]

    book_fill-LocksMatch : Leads LocksMatch LocksMatch (book_fill trade_id now id qty price o)
    book_fill-LocksMatch s l = let same = book_fill-SameLocks s in rw (same.0, same.1) l

    after_release :
        (r : Result (Unit {0}))
        → Leads LocksMatch LocksMatch (lift r >> book_fill trade_id now id qty price o)
    after_release r =
        lift-Leads LocksMatch LocksMatch r (book_fill trade_id now id qty price o) (λ t l. l)
          book_fill-LocksMatch

    settle_fill-LocksMatch :
        Leads
          (λ s. LocksMatch s × ExactRelease id s)
          LocksMatch
          (settle_fill trade_id now id qty price o)
    unfolding settle_fill
    settle_fill-LocksMatch s (l, x) = elim (Bool-cases (o.status == OrderStatus.filled)) [
      | inl f ↦
          let t = release_margin id s in
          rw (f, settle_fill) (after_release t.0 t.1 (release-LocksMatch id s (l, x)))
      | inr f ↦ rw (f, settle_fill) (book_fill-LocksMatch s l)
    ]

  pub check_fill-state :
      (instrument : String) (qty price : P.Decimal) (s : OrderService)
      → (check_fill_margin instrument qty price s).1 ≡ s
  unfolding check_fill_margin
  check_fill-state instrument qty price s = ground arith

  after_check :
      (trade_id : P.Ulid) (now : P.Timestamp) (id : P.Ulid) (qty price : P.Decimal) (o : Order)
      (r : Result (Unit {0}))
      → Leads
          (λ s. LocksMatch s × ExactRelease id s)
          LocksMatch
          (lift r >> settle_fill trade_id now id qty price o)
  after_check trade_id now id qty price o r =
      lift-Leads (λ s. LocksMatch s × ExactRelease id s) LocksMatch r
        (settle_fill trade_id now id qty price o) (λ t h. h.0)
        (settle_fill-LocksMatch trade_id now id qty price o)

  module _ (trade_id : P.Ulid) (clock : ℕ → P.Timestamp) (id : P.Ulid) (qty price : P.Decimal)
      (s : OrderService) where
    pub fill_missing :
        S.orders.get_order id s.store ≡ none
        → fill_order trade_id clock id qty price s ≡ (err (order_not_found id), s)
    unfolding fill_order
    fill_missing e = ground arith

    pub fill_failing :
        (o : Order)
        → S.orders.get_order id s.store ≡ some o
        → (apply_fill qty price (clock 0) o).0 ≢ ok tt
        → (fill_order trade_id clock id qty price s).1
          ≡ record s { store = S.orders.put_order id (apply_fill qty price (clock 0) o).1 s.store }
    unfolding fill_order
    fill_failing o e n = elim (Result-cases (apply_fill qty price (clock 0) o).0) [
      | inl (u, k) ↦ absurd (n k)
      | inr (inl k) ↦ ground arith
      | inr (inr (x, k)) ↦ ground arith
    ]

    fill_taken :
        (o : Order)
        → S.orders.get_order id s.store ≡ some o
        → (apply_fill qty price (clock 0) o).0 ≡ ok tt
        → LocksMatch s × ExactRelease id s
        → LocksMatch (fill_order trade_id clock id qty price s).1
    fill_taken o e k h =
        let o' = filled_order trade_id clock id qty price s o e k in
        let t = announced trade_id clock id qty price s o e k in
        elim (Bool-cases (is_market_order o'.order_type)) [
          | inl m ↦ rw (fill_order_checked trade_id clock id qty price s o e k m) (
              rw (check_fill-state o'.instrument qty price t) (
                after_check trade_id (clock 1) id qty price o'
                  (check_fill_margin o'.instrument qty price t).0 t h))
          | inr m ↦
              rw (fill_order_unchecked trade_id clock id qty price s o e k m)
                (settle_fill-LocksMatch trade_id (clock 1) id qty price o' t h)
        ]

    -- Whatever its outcome, a fill keeps the locks and the account in step, if a Decimal
    -- represents what is left when the order's lock is taken off.
    pub fill_order-LocksMatch :
        LocksMatch s → ExactRelease id s → LocksMatch (fill_order trade_id clock id qty price s).1
    fill_order-LocksMatch l x = elim (Option-cases (S.orders.get_order id s.store)) [
      | inl e ↦ rw (fill_missing e) l
      | inr (o, e) ↦ elim (Result-cases (apply_fill qty price (clock 0) o).0) [
        | inl (u, k) ↦ fill_taken o e k (l, x)
        | inr (inl k) ↦ rw (fill_failing o e (λ n. cc)) l
        | inr (inr (y, k)) ↦ rw (fill_failing o e (λ n. cc)) l
      ]
    ]
