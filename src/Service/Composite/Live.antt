-- ===== src/Service/Composite/Live.antt =====
-- A Stop order whose trigger is reached gets to the book.
use aegis_oms_rs.Prelude.{ℕ, String, ◌≡◌, ◌∙◌, List, some, arith, ap}
use aegis_oms_rs.Platform.{Platform}
use aegis_oms_rs.Prelude.Tests.{Has}
use aegis_oms_rs.Infra.Repository.{Stores, IsMap}
use aegis_oms_rs.Domain.Status.{OrderStatus, can_transition_to}
use aegis_oms_rs.Domain.Error.{ok}
use aegis_oms_rs.Domain.Order.{
  Order, market, stop, check_trigger, update_trailing_best, is_trailing_stop,
}
use aegis_oms_rs.Domain.Order.Trigger.{IsPast, check_trigger_stop}
use aegis_oms_rs.Service.OrderService.State.{OrderService}
use aegis_oms_rs.Service.Composite.{on_price_update}
use aegis_oms_rs.Service.Composite.Visit.{visit}
use aegis_oms_rs.Service.Composite.Pending.{ListsOnce}
use aegis_oms_rs.Service.Composite.Triggers.{on_price_update-Seen}
use aegis_oms_rs.Service.Composite.Returns.{TrailInRange, on_price_update_returns}

module _ ⦃P : Platform⦄ where
  -- The order as the price update accepts it.
  abbrev pub accepted_at : P.Timestamp → Order → Order
  accepted_at now o = record o { status = OrderStatus.accepted; updated_at = now }

  fired :
      (price : P.Decimal) (now : P.Timestamp) (o : Order)
      → (check_trigger price now o).0 ≡ ok (some market)
      → check_trigger price now o ≡ (ok (some market), accepted_at now o)
  unfolding check_trigger can_transition_to
  fired price now o e = ground arith

  visit_stop :
      (price : P.Decimal) (now : P.Timestamp) (o : Order) (trigger : P.Decimal)
      → o.status ≡ OrderStatus.pending_trigger
      → o.order_type ≡ stop trigger
      → IsPast o.side price trigger
      → visit price now o ≡ (ok (some market), accepted_at now o)
  unfolding update_trailing_best is_trailing_stop
  visit_stop price now o trigger pending t past =
      let same : update_trailing_best price o ≡ o = ground arith in
      rw same (fired price now o ((check_trigger_stop price now o trigger pending t).1 past))

module _ ⦃P : Platform⦄ ⦃S : Stores⦄ where
  -- Over a repository that is a map from identifiers to orders, finds each under its own identifier
  -- alone and lists none that waits for its trigger twice, and where the trigger of
  -- each pending trailing order of the symbol is in range, a pending Stop order of the symbol whose
  -- trigger price is reached does not wait any longer: the price update returns, the order is among
  -- those returned, and it is stored as Accepted.
  pub reached_stop_accepted :
      (symbol : String) (price : P.Decimal) (clock : ℕ → P.Timestamp) (s : OrderService)
      (id : P.Ulid) (o : Order) (trigger : P.Decimal)
      → IsMap S.orders
      → ListsOnce s.store
      → ((id : P.Ulid) (o : Order)
          → S.orders.get_order id s.store ≡ some o
          → o.status ≡ OrderStatus.pending_trigger
          → o.instrument ≡ symbol
          → TrailInRange price o)
      → S.orders.get_order id s.store ≡ some o
      → o.status ≡ OrderStatus.pending_trigger
      → o.instrument ≡ symbol
      → o.order_type ≡ stop trigger
      → IsPast o.side price trigger
      → let (r, t) = on_price_update symbol price clock s in
        (triggered : List P.Ulid) × (n : ℕ) × (r ≡ ok triggered)
        × Has id triggered
        × (S.orders.get_order id t.store ≡ some (accepted_at (clock n) o))
  reached_stop_accepted symbol price clock s id o trigger laws lists range f pending instrument t
        past =
      let (triggered, e) = on_price_update_returns laws symbol price clock s lists range in
      let ((n, left, listed), none_twice) =
        on_price_update-Seen symbol price clock s triggered id o laws lists f pending instrument
          e in
      let visited = visit_stop price (clock n) o trigger pending t past in
      (triggered, n, e, listed.1 (market, ap (λ v. v.0) visited), left ∙ ap (λ v. some v.1) visited)
