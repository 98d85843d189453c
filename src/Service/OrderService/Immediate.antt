-- ===== src/Service/OrderService/Immediate.antt =====
-- A Market request that is Immediate-or-Cancel.
use aegis_oms_rs.Prelude.{
  ℕ, ◌≡◌, refl, ◌∙◌, sym, ◌-ℤ◌, ◌<ℤ◌, pos, some, none, arith, true, int_laws, eq_of_parts,
}
use aegis_oms_rs.Prelude.Eq.{string_eq}
use aegis_oms_rs.Prelude.Map.{get}
use aegis_oms_rs.Platform.{Platform}
use aegis_oms_rs.Infra.Repository.{Stores, IsMap}
use aegis_oms_rs.Platform.Decimal.{sub_exact}
use aegis_oms_rs.Domain.Status.{OrderStatus, TimeInForce, can_transition_to}
use aegis_oms_rs.Domain.Error.{ok}
use aegis_oms_rs.Domain.Order.{Order, market, accept, cancel, remaining_quantity, is_stop_type}
use aegis_oms_rs.Domain.Order
use aegis_oms_rs.Domain.Event.{OrderEvent}
use aegis_oms_rs.Domain.Instrument.{Instrument}
use aegis_oms_rs.Infra.EventBus
use aegis_oms_rs.Service.OrderService.State.{NewOrderRequest, OrderService, lock_of}
use aegis_oms_rs.Service.OrderService.Submit.{
  submit_order, new_order, place, apply_ioc_policy, submit_price,
}
use aegis_oms_rs.Service.OrderService.Locks.{release_none}
use aegis_oms_rs.Service.OrderService.Policy.{verdict, submit_unlocked}

module _ ⦃P : Platform⦄ ⦃S : Stores⦄ (id : P.Ulid) (now : P.Timestamp) (s : OrderService)
    (o : Order) (r : P.Decimal) where
  -- The policy on an order with a residual that holds no lock.
  ioc_cancels :
      S.orders.get_order id s.store ≡ some o
      → P.checked_sub o.quantity o.filled_quantity ≡ some r
      → pos 0 <ℤ P.units r
      → can_transition_to o.status OrderStatus.cancelled ≡ true
      → lock_of id s ≡ none
      → apply_ioc_policy id now s ≡ (
        ok tt,
        record s {
          store =
              S.orders.put_order id
                (record o { status = OrderStatus.cancelled; updated_at = now })
                s.store;
          event_bus = EventBus.publish (OrderEvent.ioc_residual_cancelled id r) s.event_bus;
        },
      )
  unfolding apply_ioc_policy cancel remaining_quantity
  ioc_cancels e v h c f =
      let after = record s {
        store =
            S.orders.put_order id (record o { status = OrderStatus.cancelled; updated_at = now })
              s.store;
      } in
      ground (arith, P.zero_lem, release_none id after f)

module _ ⦃P : Platform⦄ ⦃S : Stores⦄ (id : P.Ulid) (clock : ℕ → P.Timestamp) (req : NewOrderRequest)
    (s : OrderService) where
  -- The order as it is stored in the end.
  abbrev pub cancelled_order : Order
  cancelled_order = record (new_order id (clock 0) req) {
    status = OrderStatus.cancelled;
    updated_at = clock 2;
  }

  abbrev pub accepted_order : Order
  accepted_order = record (new_order id (clock 0) req) {
    status = OrderStatus.accepted;
    updated_at = clock 1;
  }

  -- The order can be stored.
  abbrev pub CanStore : Type 0
  CanStore = (S.orders.save accepted_order s.store).0 ≡ ok tt

  pub stored :
      IsMap S.orders
      → CanStore
      → S.orders.get_order id (S.orders.save accepted_order s.store).1 ≡ some accepted_order
  unfolding new_order Order.new
  stored m w =
      m.save_lem accepted_order s.store id ∙ rw (w, (P.ulid_is_eq.beq_iff id id).1 refl) refl

  abbrev accepting : OrderService
  accepting = record s {
    store = (S.orders.save accepted_order s.store).1;
    event_bus = EventBus.publish (OrderEvent.accepted id) s.event_bus;
  }

  less_zero : (q : P.Decimal) → P.units q ≡ P.units q -ℤ P.units P.zero_value
  less_zero q = rw P.zero_lem (eq_of_parts _ _ (omega int_laws))

  place_ioc :
      IsMap S.orders
      → CanStore
      → req.order_type ≡ market
      → req.time_in_force ≡ TimeInForce.ioc
      → lock_of id s ≡ none
      → pos 0 <ℤ P.units req.quantity
      → (r : P.Decimal) × (P.units r ≡ P.units req.quantity)
        × (place clock (new_order id (clock 0) req) s ≡ (
          ok id,
          record s {
            store = S.orders.put_order id cancelled_order (S.orders.save accepted_order s.store).1;
            event_bus =
                EventBus.publish
                  (OrderEvent.ioc_residual_cancelled id r)
                  (EventBus.publish (OrderEvent.accepted id) s.event_bus);
          },
        ))
  unfolding place accept can_transition_to is_stop_type new_order Order.new
  place_ioc map w m t f h =
      let (r, e, v) = sub_exact req.quantity P.zero_value (req.quantity, less_zero req.quantity) in
      let same : P.units r ≡ P.units req.quantity = v ∙ sym (less_zero req.quantity) in
      let found : S.orders.get_order id (S.orders.save accepted_order s.store).1
          ≡ some accepted_order =
        stored map w in
      let positive : pos 0 <ℤ P.units r = rw same h in
      let policy = ioc_cancels id (clock 2) accepting accepted_order r found e positive refl f in
      (r, same, ground (arith, policy))

  -- Over a repository that is a map from identifiers to orders and takes the order, a Market request
  -- of a positive quantity for a known instrument that is Immediate-or-Cancel and passes the risk
  -- checks, under an identifier that holds no lock, returns that identifier, but its order is
  -- already stored as Cancelled, with the whole quantity as its residual. Account, locks and
  -- positions are as before.
  pub submit_market_ioc :
      IsMap S.orders
      → CanStore
      → (i : Instrument) → get req.instrument s.instruments ≡ some i
      → verdict id clock req s ≡ ok tt
      → req.order_type ≡ market
      → req.time_in_force ≡ TimeInForce.ioc
      → lock_of id s ≡ none
      → pos 0 <ℤ P.units req.quantity
      → (r : P.Decimal) × (P.units r ≡ P.units req.quantity)
        × (submit_order id clock req s ≡ (
          ok id,
          record s {
            store = S.orders.put_order id cancelled_order (S.orders.save accepted_order s.store).1;
            event_bus =
                EventBus.publish
                  (OrderEvent.ioc_residual_cancelled id r)
                  (EventBus.publish (OrderEvent.accepted id) s.event_bus);
          },
        ))
  unfolding submit_price
  submit_market_ioc map w i e v m t f h =
      let (r, same, p) = place_ioc map w m t f h in
      (
        r,
        same,
        submit_unlocked id clock req s i e v (ground arith) (ground (arith, P.zero_lem)) ∙ p,
      )
