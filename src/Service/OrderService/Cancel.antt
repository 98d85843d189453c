-- ===== src/Service/OrderService/Cancel.antt =====
-- `cancel_order`, branch by branch.
use aegis_oms_rs.Prelude.{◌≡◌, ◌-ℤ◌, some, none, arith, true, false, Option-cases, inl, inr}
use aegis_oms_rs.Prelude.Map.{remove}
use aegis_oms_rs.Platform.{Platform}
use aegis_oms_rs.Infra.Repository.{Stores}
use aegis_oms_rs.Platform.Decimal.{IsExact}
use aegis_oms_rs.Domain.Status.{OrderStatus, can_transition_to}
use aegis_oms_rs.Domain.Error.{ok, err, order_not_found, invalid_state_transition}
use aegis_oms_rs.Domain.Order.{Order, cancel}
use aegis_oms_rs.Domain.Event.{OrderEvent, user_requested}
use aegis_oms_rs.Infra.EventBus
use aegis_oms_rs.Service.OrderService.State.{OrderService, lock_of}
use aegis_oms_rs.Service.OrderService.Submit.{cancel_order}
use aegis_oms_rs.Service.OrderService.Locks.{
  LocksMatch, ExactRelease, release_margin_lem, release-LocksMatch,
}

module _ ⦃P : Platform⦄ ⦃S : Stores⦄ (id : P.Ulid) (now : P.Timestamp) (s : OrderService) where
  -- Cancelling an order that is not there is an error and changes nothing.
  pub cancel_order_missing :
      S.orders.get_order id s.store ≡ none → cancel_order id now s ≡ (err (order_not_found id), s)
  unfolding cancel_order
  cancel_order_missing e = ground arith

  -- Cancelling an order whose status does not allow it is an error, and the order is written back
  -- as it was.
  pub cancel_order_refused :
      (o : Order)
      → S.orders.get_order id s.store ≡ some o
      → can_transition_to o.status OrderStatus.cancelled ≡ false
      → cancel_order id now s ≡ (
        err (invalid_state_transition o.id o.status OrderStatus.cancelled),
        record s { store = S.orders.put_order id o s.store },
      )
  unfolding cancel_order cancel
  cancel_order_refused o e c = ground arith

  abbrev cancelled : Order → OrderService
  cancelled o = record s {
    store =
        S.orders.put_order id (record o { status = OrderStatus.cancelled; updated_at = now })
          s.store;
  }

  -- Where the locks and the account are in step, and a Decimal represents what is left,
  -- cancelling an order whose status allows it and that holds a lock succeeds: the order is
  -- stored as Cancelled, its lock is taken off the account and forgotten, the cancellation is
  -- published, and nothing else changes.
  pub cancel_order_lem :
      (o : Order) (m : P.Decimal)
      → LocksMatch s
      → S.orders.get_order id s.store ≡ some o
      → can_transition_to o.status OrderStatus.cancelled ≡ true
      → lock_of id s ≡ some m
      → IsExact (P.units s.account.locked_margin -ℤ P.units m)
      → (c : P.Decimal) × (P.units c ≡ P.units s.account.locked_margin -ℤ P.units m)
        × (cancel_order id now s ≡ (
          ok tt,
          record s {
            store =
                S.orders.put_order id
                  (record o { status = OrderStatus.cancelled; updated_at = now })
                  s.store;
            account = record (s.account) { locked_margin = c };
            margin_locks = remove ⦃e = P.ulid_is_eq⦄ id s.margin_locks;
            event_bus = EventBus.publish (OrderEvent.cancelled id user_requested) s.event_bus;
          },
        ))
  unfolding cancel_order cancel
  cancel_order_lem o m l e t k exact =
      let (c, v, r) = release_margin_lem id m (cancelled o) l k exact in (c, v, ground arith)

  -- Whatever its outcome, a cancellation keeps the locks and the account in step, if a Decimal
  -- represents what is left when the order's lock is taken off.
  pub cancel_order-LocksMatch :
      LocksMatch s → ExactRelease id s → LocksMatch (cancel_order id now s).1
  unfolding cancel_order cancel
  cancel_order-LocksMatch l x = elim (Option-cases (S.orders.get_order id s.store)) [
    | inl e ↦ ground arith
    | inr (o, e) ↦ ground (arith, release-LocksMatch id (cancelled o) (l, x))
  ]
