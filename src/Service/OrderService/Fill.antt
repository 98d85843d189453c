-- ===== src/Service/OrderService/Fill.antt =====
-- `fill_order`, and the position that a fill opens, grows, shrinks or turns.
use aegis_oms_rs.Prelude.{ℕ, String, Bool, true, false, if◌then◌else◌, Option, none, some}
use aegis_oms_rs.Prelude.Eq.{◌==◌, string_eq}
use aegis_oms_rs.Prelude.Map.{get, insert, remove}
use aegis_oms_rs.Platform.{Platform}
use aegis_oms_rs.Platform.Decimal.{lt}
use aegis_oms_rs.Domain.Status.{Side, side_eq, OrderStatus, status_eq}
use aegis_oms_rs.Domain.Error.{
  ok, err, Method, add, sub, or_err, pure, raise_if, lift, gets, modify, when, ◌>>=◌, ◌>>◌,
  instrument_not_found, order_not_found, risk_check_failed, loss_limit_exceeded,
}
use aegis_oms_rs.Domain.Order.{Order, OrderType, market, stop, trailing_stop, apply_fill}
use aegis_oms_rs.Domain.Account.{available_balance, apply_realized_pnl}
use aegis_oms_rs.Domain.Position.{Position, add_fill, reduce, is_flat}
use aegis_oms_rs.Domain.Position
use aegis_oms_rs.Domain.Event.{OrderEvent, new_trade}
use aegis_oms_rs.Infra.Repository.{Stores}
use aegis_oms_rs.Service.RiskCheck.{validate_margin}
use aegis_oms_rs.Service.OrderService.State.{
  OrderService, on_account, on_order, publish, release_margin, save_trade,
}

module _ ⦃P : Platform⦄ where
  -- The types whose margin is checked at the fill.
  unfoldable pub is_market_order : OrderType → Bool
  is_market_order market = true
  is_market_order (stop trigger) = true
  is_market_order (trailing_stop trail) = true
  is_market_order _ = false

module _ ⦃P : Platform⦄ ⦃S : Stores⦄ where
  -- A method of the position that was found in an instrument.
  abbrev pub on_position :
      {A : Type 0} → String → Position → Method Position A → Method OrderService A
  on_position instrument pos m s =
      let (r, pos') = m pos in (r, record s { positions = insert instrument pos' s.positions })

  abbrev pub open_position : String → Side → P.Decimal → P.Decimal → Method OrderService (Unit {0})
  open_position instrument side qty price = modify (λ s. record s {
    positions = insert instrument (Position.new instrument side qty price) s.positions;
  })

  -- A fill against the position: it shrinks; if it is flat then it goes, and what is left of the
  -- fill opens a position on the other side.
  unfoldable pub close_against :
      String → Side → P.Decimal → P.Decimal → Position → Method OrderService (Option P.Decimal)
  close_against instrument side qty price pos = do
    (pnl, pos') ←
        on_position instrument pos
          (do pnl ← reduce qty price; pos' ← gets (λ p. p); pure (pnl, pos'))
    on_account (apply_realized_pnl pnl)
    when (is_flat pos') (do
      remaining ← lift (sub qty pos.quantity)
      modify (λ s. record s { positions = remove instrument s.positions })
      when (lt P.zero_value remaining) (open_position instrument side remaining price))
    pure (some pnl)

  unfoldable pub update_position_with_pnl :
      String → Side → P.Decimal → P.Decimal → Method OrderService (Option P.Decimal)
  unfolding close_against
  update_position_with_pnl instrument side qty price = do
    s ← gets (λ s. s)
    elim (get instrument s.positions) [
      | none ↦ (do open_position instrument side qty price; pure none)
      | some pos ↦
          if pos.side == side
          then (do on_position instrument pos (add_fill qty price); pure none)
          else close_against instrument side qty price pos
    ]

  -- The margin check of a fill of such an order.
  unfoldable pub check_fill_margin : String → P.Decimal → P.Decimal → Method OrderService (Unit {0})
  check_fill_margin instrument qty price = do
    s ← gets (λ s. s)
    inst ← lift (or_err (get instrument s.instruments) (instrument_not_found instrument))
    available ← lift (available_balance s.account)
    required ← lift (validate_margin available price qty inst.leverage)
    pure tt

  -- The losses are added up, and checked against the limit.
  unfoldable pub book_loss : Option P.Decimal → Method OrderService (Unit {0})
  book_loss none = pure tt
  book_loss (some pnl) = when (P.is_sign_negative pnl) (do
    s ← gets (λ s. s)
    loss ← lift (add s.cumulative_realized_loss pnl)
    modify (λ s. record s { cumulative_realized_loss = loss }))

  unfoldable pub check_loss : Method OrderService (Unit {0})
  check_loss s = elim s.limits.max_loss [
    | none ↦ (ok tt, s)
    | some max_loss ↦
        raise_if (lt s.cumulative_realized_loss (P.neg max_loss))
          (risk_check_failed (loss_limit_exceeded s.cumulative_realized_loss max_loss)) s
  ]

  -- The position, the losses and the trade of a fill.
  unfoldable pub book_fill :
      P.Ulid → P.Timestamp → P.Ulid → P.Decimal → P.Decimal → Order → Method OrderService (Unit {0})
  book_fill trade_id now id qty price o = do
    realized_pnl ← update_position_with_pnl o.instrument o.side qty price
    book_loss realized_pnl
    check_loss
    save_trade (new_trade trade_id now id o.instrument o.side qty price realized_pnl)

  -- What follows the margin check: the lock of a filled order is released, and the fill is booked.
  unfoldable pub settle_fill :
      P.Ulid → P.Timestamp → P.Ulid → P.Decimal → P.Decimal → Order → Method OrderService (Unit {0})
  settle_fill trade_id now id qty price o = do
    when (o.status == OrderStatus.filled) (release_margin id)
    book_fill trade_id now id qty price o

  unfoldable pub fill_order :
      P.Ulid → (ℕ → P.Timestamp) → P.Ulid → P.Decimal → P.Decimal → Method OrderService (Unit {0})
  unfolding is_market_order
  fill_order trade_id clock id qty price = do
    o ← on_order id (err (order_not_found id)) (do apply_fill qty price (clock 0); gets (λ o. o))
    publish (
        if o.status == OrderStatus.filled
        then OrderEvent.filled id qty price
        else OrderEvent.partially_filled id qty price)
    when (is_market_order o.order_type) (check_fill_margin o.instrument qty price)
    settle_fill trade_id (clock 1) id qty price o
