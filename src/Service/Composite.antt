-- ===== src/Service/Composite.antt =====
-- src/service/composite_order_service.rs: triggers on a price update, and what follows a fill.
pub mod Once
pub mod Prices
pub mod Visit
pub mod Loop
pub mod Seen
pub mod Pending
pub mod Stored
pub mod Triggers
pub mod Returns
pub mod Live
use aegis_oms_rs.Prelude.{
  ℕ, suc, String, Bool, true, false, not, ◌&&◌, if◌then◌else◌, Option, none, some, List, [], ◌∷◌,
}
use aegis_oms_rs.Prelude.Eq.{Eq, ◌==◌, string_eq}
use aegis_oms_rs.Prelude.Map.{HashMap, get, insert}
use aegis_oms_rs.Platform.{Platform}
use aegis_oms_rs.Domain.Status.{OrderStatus, status_eq}
use aegis_oms_rs.Domain.Error.{
  Result, ok, err, panic, Method, zoom, pure, lift, gets, modify, ◌>>=◌, ◌>>◌,
  invalid_state_transition,
}
use aegis_oms_rs.Domain.Order.{
  Order, OrderType, check_trigger, update_trailing_best, is_trailing_stop,
}
use aegis_oms_rs.Domain.Event.{OrderEvent}
use aegis_oms_rs.Domain.CompositeOrder.{CompositeOrderStatus, composite_eq, IfdOrder, OcoOrder}
use aegis_oms_rs.Infra.Repository.{Stores}
use aegis_oms_rs.Infra.EventBus
use aegis_oms_rs.Service.OrderService.State.{OrderService}
use aegis_oms_rs.Service.OrderService.Submit.{submit_order, cancel_order}
use aegis_oms_rs.Service.OrderService.Query.{find_pending_trigger_orders_for}

module _ ⦃P : Platform⦄ where
  pub record CompositeOrderService : Type 0 where
    pub ifd_orders : HashMap String IfdOrder
    pub oco_orders : HashMap String OcoOrder
    pub order_to_oco : HashMap P.Ulid String
    pub order_to_ifd : HashMap P.Ulid String

  abbrev pub new : CompositeOrderService
  new = record { ifd_orders = []; oco_orders = []; order_to_oco = []; order_to_ifd = [] }

  unfoldable pub register_ifd : IfdOrder → CompositeOrderService → CompositeOrderService
  register_ifd ifd c = record c {
    order_to_ifd = insert ⦃e = P.ulid_is_eq⦄ ifd.primary_id ifd.id c.order_to_ifd;
    ifd_orders = insert ifd.id ifd c.ifd_orders;
  }

  unfoldable pub register_oco : OcoOrder → CompositeOrderService → CompositeOrderService
  register_oco oco c = record c {
    order_to_oco =
        insert ⦃e = P.ulid_is_eq⦄ oco.order_b_id oco.id
          (insert ⦃e = P.ulid_is_eq⦄ oco.order_a_id oco.id c.order_to_oco);
    oco_orders = insert oco.id oco c.oco_orders;
  }

  abbrev pub get_ifd : String → CompositeOrderService → Option IfdOrder
  get_ifd id c = get id c.ifd_orders

  abbrev pub get_oco : String → CompositeOrderService → Option OcoOrder
  get_oco id c = get id c.oco_orders

  -- The events that the loop collects for an order that did not trigger.
  abbrev trailing_events : Order → List OrderEvent → List OrderEvent
  trailing_events o events = elim (is_trailing_stop o.order_type) [
    | false ↦ events
    | true ↦ elim o.best_price [
      | none ↦ events
      | some bp ↦ OrderEvent.trailing_stop_updated o.id bp ∷ events
    ]
  ]

  unfoldable pub publish_all : List OrderEvent → EventBus.EventBus → EventBus.EventBus
  publish_all [] bus = bus
  publish_all (e ∷ es) bus = publish_all es (EventBus.publish e bus)

module _ ⦃P : Platform⦄ ⦃S : Stores⦄ where
  -- The loop of `on_price_update` over the pending orders: the triggered ones, and the events.
  unfoldable pub price_loop :
      P.Decimal
      → (ℕ → P.Timestamp)
      → List P.Ulid
      → Method OrderService (List P.Ulid × List OrderEvent)
  price_loop price clock [] s = (ok ([], []), s)
  price_loop price clock (id ∷ ids) s = elim (S.orders.get_order id s.store) [
    | none ↦ price_loop price (λ n. clock (suc n)) ids s
    | some o ↦
        let o1 = update_trailing_best price o in
        let (r, o2) = check_trigger price (clock 0) o1 in
        let s2 = record s { store = S.orders.put_order id o2 s.store } in
        elim r [
          | ok (some exec_type) ↦
              (do
                (ids', events) ← price_loop price (λ n. clock (suc n)) ids
                pure (o1.id ∷ ids', OrderEvent.stop_triggered o1.id price ∷ events))
                s2
          | ok none ↦
              (do
                (ids', events) ← price_loop price (λ n. clock (suc n)) ids
                pure (ids', trailing_events o1 events))
                s2
          | err e ↦ (err e, s2)
          | panic ↦ (panic, s2)
        ]
  ]

  unfoldable pub on_price_update :
      String → P.Decimal → (ℕ → P.Timestamp) → Method OrderService (List P.Ulid)
  unfolding price_loop publish_all
  on_price_update symbol price clock = do
    pending ← gets (λ s. find_pending_trigger_orders_for symbol s)
    (triggered, events) ← price_loop price clock pending
    modify (λ s. record s { event_bus = publish_all events s.event_bus })
    pure triggered

  -- The two services that a fill notification works on.
  pub record Session : Type 0 where
    pub composite : CompositeOrderService
    pub orders : OrderService

  abbrev pub on_orders : {A : Type 0} → Method OrderService A → Method Session A
  on_orders = zoom (λ s. s.orders) (λ o s. record s { orders = o })

  abbrev pub is_filled : Option Order → Bool
  is_filled none = false
  is_filled (some o) = o.status == OrderStatus.filled

  -- `ifd.status = Completed` and `oco.status = Completed`
  abbrev pub complete_ifd : String → IfdOrder → Session → Session
  complete_ifd ifd_id ifd s = record s {
    composite = record (s.composite) {
      ifd_orders =
          insert ifd_id (record ifd { status = CompositeOrderStatus.completed })
            s.composite.ifd_orders;
    };
  }

  abbrev pub complete_oco : String → OcoOrder → Session → Session
  complete_oco oco_id oco s = record s {
    composite = record (s.composite) {
      oco_orders =
          insert oco_id (record oco { status = CompositeOrderStatus.completed })
            s.composite.oco_orders;
    };
  }

  -- The part of `handle_ifd` behind the look-ups.
  unfoldable pub run_ifd :
      P.Ulid → (ℕ → P.Timestamp) → P.Ulid → String → IfdOrder → Method Session (Unit {0})
  run_ifd id clock filled_id ifd_id ifd s =
      if not (ifd.status == CompositeOrderStatus.active)
      then (ok tt, s)
      else if is_filled (S.orders.get_order filled_id s.orders.store)
      then (do
        on_orders (submit_order id clock ifd.secondary_req)
        modify (complete_ifd ifd_id ifd))
          s
      else (ok tt, s)

  unfoldable pub handle_ifd : P.Ulid → (ℕ → P.Timestamp) → P.Ulid → Method Session (Unit {0})
  unfolding run_ifd
  handle_ifd id clock filled_id s =
      elim (get ⦃e = P.ulid_is_eq⦄ filled_id s.composite.order_to_ifd) [
        | none ↦ (ok tt, s)
        | some ifd_id ↦ elim (get ifd_id s.composite.ifd_orders) [
          | none ↦ (ok tt, s)
          | some ifd ↦ run_ifd id clock filled_id ifd_id ifd s
        ]
      ]

  -- An order that can no longer be cancelled is passed over.
  abbrev pub ignore_transition : Result (Unit {0}) → Result (Unit {0})
  ignore_transition (err (invalid_state_transition id from to)) = ok tt
  ignore_transition r = r

  abbrev pub other_order : OcoOrder → P.Ulid → P.Ulid
  other_order oco filled_id =
      if P.ulid_is_eq.beq oco.order_a_id filled_id then oco.order_b_id else oco.order_a_id

  -- The part of `handle_oco` behind the look-ups.
  unfoldable pub run_oco : P.Timestamp → P.Ulid → String → OcoOrder → Method Session (Unit {0})
  run_oco now filled_id oco_id oco s =
      if not (oco.status == CompositeOrderStatus.active)
      then (ok tt, s)
      else (do
        cancel_result ← (λ s.
            let (r, o) = cancel_order (other_order oco filled_id) now s.orders in
            (ok r, record s { orders = o }))
        lift (ignore_transition cancel_result)
        modify (complete_oco oco_id oco))
          s

  unfoldable pub handle_oco : P.Timestamp → P.Ulid → Method Session (Unit {0})
  unfolding run_oco
  handle_oco now filled_id s = elim (get ⦃e = P.ulid_is_eq⦄ filled_id s.composite.order_to_oco) [
    | none ↦ (ok tt, s)
    | some oco_id ↦ elim (get oco_id s.composite.oco_orders) [
      | none ↦ (ok tt, s)
      | some oco ↦ run_oco now filled_id oco_id oco s
    ]
  ]

  unfoldable pub on_order_filled :
      P.Ulid → (ℕ → P.Timestamp) → P.Timestamp → P.Ulid → Method Session (Unit {0})
  unfolding handle_ifd handle_oco
  on_order_filled id clock now filled_id = do
    handle_ifd id clock filled_id
    handle_oco now filled_id
