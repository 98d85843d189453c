-- ===== src/Service/OrderService/Unchecked.antt =====
-- Fills whose margin check does not stop them.
use aegis_oms_rs.Prelude.{ℕ, ◌≡◌, some, arith, true, false, if◌then◌else◌}
use aegis_oms_rs.Prelude.Eq.{◌==◌, string_eq}
use aegis_oms_rs.Prelude.Map.{get}
use aegis_oms_rs.Platform.{Platform}
use aegis_oms_rs.Infra.Repository.{Stores}
use aegis_oms_rs.Domain.Status.{OrderStatus, status_eq}
use aegis_oms_rs.Domain.Error.{ok, err, insufficient_funds, lift, ◌>>◌}
use aegis_oms_rs.Domain.Order.{Order, market, apply_fill}
use aegis_oms_rs.Domain.Account.{available_balance}
use aegis_oms_rs.Domain.Instrument.{Instrument}
use aegis_oms_rs.Domain.Event.{OrderEvent}
use aegis_oms_rs.Infra.EventBus
use aegis_oms_rs.Service.RiskCheck.{validate_margin}
use aegis_oms_rs.Service.OrderService.State.{OrderService}
use aegis_oms_rs.Service.OrderService.Fill.{
  fill_order, is_market_order, settle_fill, check_fill_margin,
}

module _ ⦃P : Platform⦄ ⦃S : Stores⦄ (trade_id : P.Ulid) (clock : ℕ → P.Timestamp) (id : P.Ulid)
    (qty price : P.Decimal) (s : OrderService) (o : Order)
    (found : S.orders.get_order id s.store ≡ some o)
    (fills : (apply_fill qty price (clock 0) o).0 ≡ ok tt) where
  abbrev pub filled_order : Order
  filled_order = (apply_fill qty price (clock 0) o).1

  -- The state once the order has taken the fill and the fill has been published.
  abbrev pub announced : OrderService
  announced = record s {
    store = S.orders.put_order id filled_order s.store;
    event_bus =
        EventBus.publish
          (if filled_order.status == OrderStatus.filled
            then OrderEvent.filled id qty price
            else OrderEvent.partially_filled id qty price)
          s.event_bus;
  }

  -- A fill that a stored Market order of a known instrument takes, and for whose margin the
  -- balance that is available does not suffice, is an error, but the order as filled is stored
  -- and the fill is published: only position, account, locks and trades are as before.
  pub fill_order_underfunded :
      (i : Instrument) (available required : P.Decimal)
      → filled_order.order_type ≡ market
      → get filled_order.instrument s.instruments ≡ some i
      → available_balance s.account ≡ ok available
      → validate_margin available price qty i.leverage ≡ err (insufficient_funds required available)
      → fill_order trade_id clock id qty price s
        ≡ (err (insufficient_funds required available), announced)
  unfolding fill_order check_fill_margin
  fill_order_underfunded i available required t k a v = ground arith

  -- A fill of a Limit or StopLimit order goes on to its settlement with no look at the balance.
  pub fill_order_unchecked :
      is_market_order filled_order.order_type ≡ false
      → fill_order trade_id clock id qty price s
        ≡ settle_fill trade_id (clock 1) id qty price filled_order announced
  unfolding fill_order
  fill_order_unchecked t = ground arith

  -- A fill of another order is settled behind the margin check.
  pub fill_order_checked :
      is_market_order filled_order.order_type ≡ true
      → let (r, t) = check_fill_margin filled_order.instrument qty price announced in
        fill_order trade_id clock id qty price s
        ≡ (lift r >> settle_fill trade_id (clock 1) id qty price filled_order) t
  unfolding fill_order
  fill_order_checked t = ground arith
