-- ===== src/Service/Proper/Fills.antt =====
-- Fills and price updates.
use aegis_oms_rs.Prelude.{
  ℕ, suc, ◌≡◌, ◌≢◌, none, some, List, [], ◌∷◌, arith, inl, inr, Option-cases, Bool-cases, String,
}
use aegis_oms_rs.Prelude.Eq.{◌==◌}
use aegis_oms_rs.Platform.{Platform}
use aegis_oms_rs.Infra.Repository.{Stores}
use aegis_oms_rs.Domain.Status.{OrderStatus, status_eq}
use aegis_oms_rs.Domain.Error.{Result-cases, ok, ◌>>=◌}
use aegis_oms_rs.Domain.Method.{lift-Leads}
use aegis_oms_rs.Domain.Order.{Order, apply_fill}
use aegis_oms_rs.Service.OrderService.State.{OrderService, release_margin}
use aegis_oms_rs.Service.OrderService.Fill.{
  fill_order, settle_fill, book_fill, check_fill_margin, is_market_order,
}
use aegis_oms_rs.Service.OrderService.Filling.{
  book_fill-SameLocks, fill_missing, fill_failing, check_fill-state,
}
use aegis_oms_rs.Service.OrderService.Unchecked.{
  filled_order, announced, fill_order_checked, fill_order_unchecked,
}
use aegis_oms_rs.Service.OrderService.Query.{find_pending_trigger_orders_for}
use aegis_oms_rs.Service.Composite.{price_loop, on_price_update}
use aegis_oms_rs.Service.Composite.Visit.{visit, visit-id, visited}
use aegis_oms_rs.Service.Proper.{PutKeeps, Keeps}
use aegis_oms_rs.Service.Proper.Calls.{release-Keeps}

module _ ⦃P : Platform⦄ where
  apply_fill-id :
      (qty price : P.Decimal) (now : P.Timestamp) (o : Order)
      → (apply_fill qty price now o).1.id ≡ o.id
  unfolding apply_fill
  apply_fill-id qty price now o = ground arith

module _ ⦃P : Platform⦄ ⦃S : Stores⦄ (I : S.Orders → Type 0) where
  module _ (trade_id : P.Ulid) (now : P.Timestamp) (id : P.Ulid) (qty price : P.Decimal)
      (o : Order) where
    book_fill-Keeps : Keeps I (book_fill trade_id now id qty price o)
    book_fill-Keeps s kept = rw ((book_fill-SameLocks trade_id now id qty price o s).2) kept

    settle_fill-Keeps : Keeps I (settle_fill trade_id now id qty price o)
    unfolding settle_fill
    settle_fill-Keeps s kept = elim (Bool-cases (o.status == OrderStatus.filled)) [
      | inl f ↦
          let t = release_margin id s in
          rw (f, settle_fill)
            (lift-Leads (λ s. I s.store) (λ s. I s.store) t.0
              (book_fill trade_id now id qty price o) (λ u p. p) book_fill-Keeps t.1
              (release-Keeps I id s kept))
      | inr f ↦ rw (f, settle_fill) (book_fill-Keeps s kept)
    ]

module _ ⦃P : Platform⦄ ⦃S : Stores⦄ (I : S.Orders → Type 0) (put : PutKeeps I) where
  module _ (trade_id : P.Ulid) (clock : ℕ → P.Timestamp) (id : P.Ulid) (qty price : P.Decimal) where
    fill_taken-Keeps :
        (s : OrderService) (o : Order)
        → S.orders.get_order id s.store ≡ some o
        → (apply_fill qty price (clock 0) o).0 ≡ ok tt
        → I s.store
        → I (fill_order trade_id clock id qty price s).1.store
    fill_taken-Keeps s o e k kept =
        let o' = filled_order trade_id clock id qty price s o e k in
        let t = announced trade_id clock id qty price s o e k in
        let held : I t.store = put id o o' s.store e (apply_fill-id qty price (clock 0) o) kept in
        let settle = settle_fill trade_id (clock 1) id qty price o' in
        elim (Bool-cases (is_market_order o'.order_type)) [
          | inl m ↦ rw (fill_order_checked trade_id clock id qty price s o e k m) (
              rw (check_fill-state o'.instrument qty price t) (
                lift-Leads (λ s. I s.store) (λ s. I s.store)
                  (check_fill_margin o'.instrument qty price t).0 settle (λ u p. p)
                  (settle_fill-Keeps I trade_id (clock 1) id qty price o') t held))
          | inr m ↦
              rw (fill_order_unchecked trade_id clock id qty price s o e k m)
                (settle_fill-Keeps I trade_id (clock 1) id qty price o' t held)
        ]

    fill_failed-Keeps :
        (s : OrderService) (o : Order)
        → S.orders.get_order id s.store ≡ some o
        → (apply_fill qty price (clock 0) o).0 ≢ ok tt
        → I s.store
        → I (fill_order trade_id clock id qty price s).1.store
    fill_failed-Keeps s o e n kept = rw (fill_failing trade_id clock id qty price s o e n) (
        put id o (apply_fill qty price (clock 0) o).1 s.store e
          (apply_fill-id qty price (clock 0) o) kept)

    pub fill_order-Keeps : Keeps I (fill_order trade_id clock id qty price)
    fill_order-Keeps s kept = elim (Option-cases (S.orders.get_order id s.store)) [
      | inl e ↦ rw (fill_missing trade_id clock id qty price s e) kept
      | inr (o, e) ↦ elim (Result-cases (apply_fill qty price (clock 0) o).0) [
        | inl (u, k) ↦ fill_taken-Keeps s o e k kept
        | inr (inl k) ↦ fill_failed-Keeps s o e (λ h. cc) kept
        | inr (inr (x, k)) ↦ fill_failed-Keeps s o e (λ h. cc) kept
      ]
    ]

  visited-Keeps :
      (price : P.Decimal) (now : P.Timestamp) (id : P.Ulid) (o : Order) (s : OrderService)
      → S.orders.get_order id s.store ≡ some o
      → I s.store
      → I (visited price now id o s).store
  visited-Keeps price now id o s e kept =
      put id o (visit price now o).1 s.store e (visit-id price now o) kept

  loop-Keeps :
      (price : P.Decimal) (clock : ℕ → P.Timestamp) (ids : List P.Ulid)
      → Keeps I (price_loop price clock ids)
  unfolding price_loop
  loop-Keeps price clock [] s kept = kept
  loop-Keeps price clock (id ∷ ids) s kept = elim (Option-cases (S.orders.get_order id s.store)) [
    | inl e ↦ rw (e, price_loop) (loop-Keeps price (λ n. clock (suc n)) ids s kept)
    | inr (o, e) ↦
        let t = visited price (clock 0) id o s in
        let loop = price_loop price (λ n. clock (suc n)) ids in
        let seen = visited-Keeps price (clock 0) id o s e kept in
        let rest = loop-Keeps price (λ n. clock (suc n)) ids t seen in
        elim (Result-cases (visit price (clock 0) o).0) [
          | inl (some x, k) ↦ elim (Result-cases (loop t).0) [
            | inl (r, l) ↦ rw (price_loop, e, k, ◌>>=◌, l) rest
            | inr (inl l) ↦ rw (price_loop, e, k, ◌>>=◌, l) rest
            | inr (inr (y, l)) ↦ rw (price_loop, e, k, ◌>>=◌, l) rest
          ]
          | inl (none, k) ↦ elim (Result-cases (loop t).0) [
            | inl (r, l) ↦ rw (price_loop, e, k, ◌>>=◌, l) rest
            | inr (inl l) ↦ rw (price_loop, e, k, ◌>>=◌, l) rest
            | inr (inr (y, l)) ↦ rw (price_loop, e, k, ◌>>=◌, l) rest
          ]
          | inr (inl k) ↦ rw (price_loop, e, k) seen
          | inr (inr (y, k)) ↦ rw (price_loop, e, k) seen
        ]
  ]

  pub on_price_update-Keeps :
      (symbol : String) (price : P.Decimal) (clock : ℕ → P.Timestamp)
      → Keeps I (on_price_update symbol price clock)
  unfolding on_price_update
  on_price_update-Keeps symbol price clock s kept =
      let ids = find_pending_trigger_orders_for symbol s in
      let rest = loop-Keeps price clock ids s kept in
      elim (Result-cases (price_loop price clock ids s).0) [
        | inl (r, l) ↦ ground (arith, rest)
        | inr (inl l) ↦ ground (arith, rest)
        | inr (inr (y, l)) ↦ ground (arith, rest)
      ]
