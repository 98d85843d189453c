-- ===== src/Service/OrderService/Submit.antt =====
-- `submit_order`, with the fresh identifier that it takes and the readings of its clock, and the
-- cancellations.
use aegis_oms_rs.Prelude.{ℕ, not, ◌&&◌, if◌then◌else◌}
use aegis_oms_rs.Prelude.Eq.{◌==◌, string_eq}
use aegis_oms_rs.Prelude.Map.{get, insert, length}
use aegis_oms_rs.Platform.{Platform}
use aegis_oms_rs.Platform.Decimal.{lt}
use aegis_oms_rs.Domain.Status.{TimeInForce, tif_eq}
use aegis_oms_rs.Domain.Error.{
  err, panic, Method, or_err, pure, raise, lift, gets, modify, when, ◌>>=◌, ◌>>◌,
  instrument_not_found, order_not_found, fok_rejected,
}
use aegis_oms_rs.Domain.Order.{
  Order, OrderType, limit, reject, accept, pending_trigger, cancel, is_stop_type,
  remaining_quantity,
}
use aegis_oms_rs.Domain.Order
use aegis_oms_rs.Domain.Account.{available_balance, lock_margin}
use aegis_oms_rs.Domain.Event.{OrderEvent, user_requested}
use aegis_oms_rs.Infra.Repository.{Stores}
use aegis_oms_rs.Service.RiskCheck.{validate_order, validate_margin}
use aegis_oms_rs.Service.OrderService.State.{
  NewOrderRequest, OrderService, on_account, on_order, on_local, publish, release_margin,
  save_order,
}

module _ ⦃P : Platform⦄ where
  -- The price that a margin is locked for: that of a Limit order, else zero.
  unfoldable pub submit_price : OrderType → P.Decimal
  submit_price (limit price) = price
  submit_price _ = P.zero_value

  unfoldable pub new_order : P.Ulid → P.Timestamp → NewOrderRequest → Order
  new_order id now req =
      Order.new id now req.instrument req.side req.order_type req.quantity req.time_in_force

module _ ⦃P : Platform⦄ ⦃S : Stores⦄ where
  unfoldable pub cancel_order : P.Ulid → P.Timestamp → Method OrderService (Unit {0})
  unfolding release_margin
  cancel_order id now = do
    on_order id (err (order_not_found id)) (cancel now)
    release_margin id
    publish (OrderEvent.cancelled id user_requested)

  unfoldable pub apply_ioc_policy : P.Ulid → P.Timestamp → Method OrderService (Unit {0})
  apply_ioc_policy id now = do
    s ← gets (λ s. s)
    o ← lift (or_err (S.orders.get_order id s.store) (order_not_found id))
    residual ← lift (remaining_quantity o)
    when (lt P.zero_value residual) (do
      on_order id panic (cancel now)
      release_margin id
      publish (OrderEvent.ioc_residual_cancelled id residual))

  -- The branch for Fill-or-Kill: the order is stored as rejected, and the call fails.
  unfoldable pub reject_fok : P.Timestamp → Order → Method OrderService P.Ulid
  reject_fok now order = do
    order' ← on_local (reject now) order
    save_order order'
    publish (OrderEvent.fok_rejected order'.id P.zero_value order.quantity)
    raise (fok_rejected order'.id P.zero_value order.quantity)

  -- The margin check and lock of an order with a price.
  unfoldable pub lock_for :
      P.Ulid → P.Decimal → P.Decimal → P.Decimal → Method OrderService (Unit {0})
  lock_for id price quantity leverage = do
    s ← gets (λ s. s)
    available ← lift (available_balance s.account)
    required ← lift (validate_margin available price quantity leverage)
    on_account (lock_margin required)
    modify (λ s. record s { margin_locks = insert ⦃e = P.ulid_is_eq⦄ id required s.margin_locks })

  -- Storing the order, and what follows it.
  unfoldable pub place : (ℕ → P.Timestamp) → Order → Method OrderService P.Ulid
  place clock order = do
    let is_stop = is_stop_type order.order_type
    order' ← on_local (if is_stop then pending_trigger (clock 1) else accept (clock 1)) order
    save_order order'
    when (not is_stop) (publish (OrderEvent.accepted order.id))
    when (not is_stop && (order.time_in_force == TimeInForce.ioc))
        (apply_ioc_policy order.id (clock 2))
    pure order.id

  unfoldable pub submit_order :
      P.Ulid → (ℕ → P.Timestamp) → NewOrderRequest → Method OrderService P.Ulid
  unfolding submit_price new_order reject_fok lock_for place
  submit_order id clock req = do
    s ← gets (λ s. s)
    instrument ←
        lift (or_err (get req.instrument s.instruments) (instrument_not_found req.instrument))
    lift (
        validate_order s.limits req.order_type req.quantity
          (length (S.orders.find_open_orders s.store)) (length s.positions))
    let price = submit_price req.order_type
    let order = new_order id (clock 0) req
    if req.time_in_force == TimeInForce.fok then reject_fok (clock 1) order else (do
      when (lt P.zero_value price) (lock_for id price req.quantity instrument.leverage)
      place clock order)
