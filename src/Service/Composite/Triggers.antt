-- ===== src/Service/Composite/Triggers.antt =====
-- What a price update does to the pending orders of its symbol.
use aegis_oms_rs.Prelude.{ℕ, String, ◌≡◌, List, some, arith, inl, inr}
use aegis_oms_rs.Prelude.Eq.{string_eq}
use aegis_oms_rs.Platform.{Platform}
use aegis_oms_rs.Domain.Status.{OrderStatus, status_eq}
use aegis_oms_rs.Domain.Error.{Result-cases, ok}
use aegis_oms_rs.Domain.Event.{OrderEvent}
use aegis_oms_rs.Domain.Order.{Order}
use aegis_oms_rs.Infra.Repository.{Stores, IsMap}
use aegis_oms_rs.Service.OrderService.State.{OrderService}
use aegis_oms_rs.Service.OrderService.Query.{find_pending_trigger_orders_for}
use aegis_oms_rs.Service.Composite.{on_price_update, price_loop}
use aegis_oms_rs.Service.Composite.Seen.{Seen, loop-Seen, loop-NoDup}
use aegis_oms_rs.Service.Composite.Loop.{NoDup}
use aegis_oms_rs.Service.Composite.Pending.{ListsOnce, pending_once, pending_listed}

module _ ⦃P : Platform⦄ ⦃S : Stores⦄ where
  update_loop :
      (symbol : String) (price : P.Decimal) (clock : ℕ → P.Timestamp) (s : OrderService)
      (triggered : List P.Ulid)
      → (on_price_update symbol price clock s).0 ≡ ok triggered
      → (events : List OrderEvent) × ((price_loop price clock
            (find_pending_trigger_orders_for symbol s)
            s).0
          ≡ ok (triggered, events))
        × ((on_price_update symbol price clock s).1.store
            ≡ (price_loop price clock (find_pending_trigger_orders_for symbol s) s).1.store)
  unfolding on_price_update
  update_loop symbol price clock s triggered e =
      elim (Result-cases (price_loop price clock (find_pending_trigger_orders_for symbol s) s).0) [
        | inl ((ids, events), k) ↦ (events, ground arith, ground arith)
        | inr (inl k) ↦ absurd (ground arith)
        | inr (inr (x, k)) ↦ absurd (ground arith)
      ]

  -- Over a repository that is a map from identifiers to orders, finds each under its own identifier
  -- alone and lists none that waits for its trigger twice, a price update that
  -- returns leaves each pending order of its symbol as one visit leaves it, in which its best price
  -- follows the price and its trigger is then checked against it. The order is among those returned
  -- exactly if its trigger is reached, and none is returned twice.
  pub on_price_update-Seen :
      (symbol : String) (price : P.Decimal) (clock : ℕ → P.Timestamp) (s : OrderService)
      (triggered : List P.Ulid) (id : P.Ulid) (o : Order)
      → IsMap S.orders
      → ListsOnce s.store
      → S.orders.get_order id s.store ≡ some o
      → o.status ≡ OrderStatus.pending_trigger
      → o.instrument ≡ symbol
      → (on_price_update symbol price clock s).0 ≡ ok triggered
      → Seen price clock id o triggered (on_price_update symbol price clock s).1 × NoDup triggered
  on_price_update-Seen symbol price clock s triggered id o laws lists f pending instrument e =
      let (events, k, same) = update_loop symbol price clock s triggered e in
      let (n, left, listed) =
        loop-Seen laws price clock (find_pending_trigger_orders_for symbol s) s triggered events id
          o lists.keyed (pending_once laws symbol s lists) k
          (pending_listed laws symbol s lists id o f pending instrument) f in
      (
        (n, rw same left, listed),
        loop-NoDup laws price clock (find_pending_trigger_orders_for symbol s) s triggered events
            lists.keyed (pending_once laws symbol s lists) k,
      )
