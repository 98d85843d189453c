-- ===== src/Service/Composite/Once.antt =====
-- A composite order acts once.
use aegis_oms_rs.Prelude.{ℕ, String, ◌≡◌, some, arith, true, false}
use aegis_oms_rs.Prelude.Eq.{string_eq}
use aegis_oms_rs.Prelude.Map.{get, get-insert_self}
use aegis_oms_rs.Platform.{Platform}
use aegis_oms_rs.Infra.Repository.{Stores}
use aegis_oms_rs.Domain.Error.{ok}
use aegis_oms_rs.Domain.CompositeOrder.{CompositeOrderStatus, IfdOrder, OcoOrder}
use aegis_oms_rs.Service.OrderService.Submit.{submit_order, cancel_order}
use aegis_oms_rs.Service.Composite.{
  Session, handle_ifd, is_filled, complete_ifd, handle_oco, ignore_transition, other_order,
  complete_oco,
}

module _ ⦃P : Platform⦄ ⦃S : Stores⦄ (filled_id : P.Ulid) (ifd_id : String) (ifd : IfdOrder)
    (s : Session) (linked : get ⦃e = P.ulid_is_eq⦄ filled_id s.composite.order_to_ifd ≡ some ifd_id)
    (known : get ifd_id s.composite.ifd_orders ≡ some ifd) where
  -- Until its primary order is filled whole, and once it is no longer active, an If-Done pair
  -- does nothing.
  pub handle_ifd_waits :
      (id : P.Ulid) (clock : ℕ → P.Timestamp)
      → is_filled (S.orders.get_order filled_id s.orders.store) ≡ false
      → handle_ifd id clock filled_id s ≡ (ok tt, s)
  unfolding handle_ifd
  handle_ifd_waits id clock w = ground arith

  -- When the primary order of a registered and active If-Done pair is filled whole, and the
  -- order service takes the secondary request, the notification submits it, and any further
  -- notification of the same fill does nothing.
  pub handle_ifd_once :
      (id id' : P.Ulid) (clock clock' : ℕ → P.Timestamp)
      → ifd.status ≡ CompositeOrderStatus.active
      → is_filled (S.orders.get_order filled_id s.orders.store) ≡ true
      → (submit_order id clock ifd.secondary_req s.orders).0 ≡ ok id
      → let s' = (handle_ifd id clock filled_id s).1 in
        (s'.orders ≡ (submit_order id clock ifd.secondary_req s.orders).1)
        × (handle_ifd id' clock' filled_id s' ≡ (ok tt, s'))
  unfolding handle_ifd
  handle_ifd_once id id' clock clock' a f k =
      let done = record ifd { status = CompositeOrderStatus.completed } in
      let first : handle_ifd id clock filled_id s ≡ (
        ok tt,
        complete_ifd ifd_id ifd
            (record s { orders = (submit_order id clock ifd.secondary_req s.orders).1 }),
      ) =
        ground arith in
      rw first (ground arith, ground (arith, get-insert_self ifd_id done s.composite.ifd_orders))

module _ ⦃P : Platform⦄ ⦃S : Stores⦄ (filled_id : P.Ulid) (oco_id : String) (oco : OcoOrder)
    (s : Session) (linked : get ⦃e = P.ulid_is_eq⦄ filled_id s.composite.order_to_oco ≡ some oco_id)
    (known : get oco_id s.composite.oco_orders ≡ some oco) where
  -- When an order of a registered and active One-Cancels-Other pair is filled, and the other one
  -- is cancelled or its status no longer allows that, the notification cancels the other one, and
  -- any further notification of an order of the pair does nothing.
  pub handle_oco_once :
      (id : P.Ulid) (now now' : P.Timestamp)
      → oco.status ≡ CompositeOrderStatus.active
      → get ⦃e = P.ulid_is_eq⦄ id s.composite.order_to_oco ≡ some oco_id
      → ignore_transition (cancel_order (other_order oco filled_id) now s.orders).0 ≡ ok tt
      → let s' = (handle_oco now filled_id s).1 in
        (s'.orders ≡ (cancel_order (other_order oco filled_id) now s.orders).1)
        × (handle_oco now' id s' ≡ (ok tt, s'))
  unfolding handle_oco
  handle_oco_once id now now' a l k =
      let done = record oco { status = CompositeOrderStatus.completed } in
      let after = record s { orders = (cancel_order (other_order oco filled_id) now s.orders).1 } in
      let first : handle_oco now filled_id s ≡ (ok tt, complete_oco oco_id oco after) =
        ground arith in
      rw first (ground arith, ground (arith, get-insert_self oco_id done s.composite.oco_orders))
