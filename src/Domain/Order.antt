-- ===== src/Domain/Order.antt =====
-- src/domain/order.rs: the order and its methods. A method takes the reading `now` of the clock
-- that its transition stores.
pub mod Lifecycle
pub mod Fill
pub mod Trigger
use aegis_oms_rs.Prelude.{String, Bool, true, false, not, ◌||◌, Option, none, some, if◌then◌else◌}
use aegis_oms_rs.Prelude.Eq.{◌==◌}
use aegis_oms_rs.Platform.{Platform}
use aegis_oms_rs.Platform.Decimal.{lt, le, equal, min, max}
use aegis_oms_rs.Domain.Status.{Side, TimeInForce, OrderStatus, status_eq, can_transition_to}
use aegis_oms_rs.Domain.Error.{
  OrderId, OmsError, invalid_state_transition, over_fill, Result, ok, err, Method, add, sub, bind,
  pure, raise, lift, gets, modify, ◌>>=◌, ◌>>◌,
}

module _ ⦃P : Platform⦄ where
  pub data OrderType : Type 0 where
    market : OrderType
    limit : P.Decimal → OrderType
    stop : P.Decimal → OrderType
    stop_limit : P.Decimal → P.Decimal → OrderType
    trailing_stop : P.Decimal → OrderType

  pub record Order : Type 0 where
    pub id : P.Ulid
    pub instrument : String
    pub side : Side
    pub order_type : OrderType
    pub quantity : P.Decimal
    pub filled_quantity : P.Decimal
    pub time_in_force : TimeInForce
    pub status : OrderStatus
    pub created_at : P.Timestamp
    pub updated_at : P.Timestamp
    pub best_price : Option P.Decimal

  -- `Order::new`, with the fresh identifier and the clock reading that it takes.
  unfoldable pub new :
      P.Ulid → P.Timestamp → String → Side → OrderType → P.Decimal → TimeInForce → Order
  new id now instrument side order_type quantity time_in_force = record {
    id = id;
    instrument = instrument;
    side = side;
    order_type = order_type;
    quantity = quantity;
    filled_quantity = P.zero_value;
    time_in_force = time_in_force;
    status = OrderStatus.new;
    created_at = now;
    updated_at = now;
    best_price = none;
  }

  unfoldable pub remaining_quantity : Order → Result P.Decimal
  remaining_quantity o = sub o.quantity o.filled_quantity

  unfoldable pub transition_to : OrderStatus → P.Timestamp → Method Order (Unit {0})
  transition_to next now o =
      if not (can_transition_to o.status next)
      then (err (invalid_state_transition o.id o.status next), o)
      else (ok tt, record o { status = next; updated_at = now })

  unfoldable pub apply_fill : P.Decimal → P.Decimal → P.Timestamp → Method Order (Unit {0})
  unfolding remaining_quantity transition_to
  apply_fill qty price now = do
    o ← gets (λ o. o)
    new_filled ← lift (add o.filled_quantity qty)
    if lt o.quantity new_filled
        then (do remaining ← lift (remaining_quantity o); raise (over_fill o.id qty remaining))
        else (do
          modify (λ o. record o { filled_quantity = new_filled })
          transition_to
              (if equal new_filled o.quantity
                then OrderStatus.filled
                else OrderStatus.partially_filled)
              now)

  unfoldable pub cancel : P.Timestamp → Method Order (Unit {0})
  unfolding transition_to
  cancel = transition_to OrderStatus.cancelled

  unfoldable pub accept : P.Timestamp → Method Order (Unit {0})
  unfolding transition_to
  accept = transition_to OrderStatus.accepted

  unfoldable pub reject : P.Timestamp → Method Order (Unit {0})
  unfolding transition_to
  reject = transition_to OrderStatus.rejected

  unfoldable pub pending_trigger : P.Timestamp → Method Order (Unit {0})
  unfolding transition_to
  pending_trigger = transition_to OrderStatus.pending_trigger

  -- `Option::unwrap_or`
  abbrev pub unwrap_or {ℓ} : {A : Type ℓ} → Option A → A → A
  unwrap_or none d = d
  unwrap_or (some a) d = a

  -- A stop price that the market has reached, from below for a buy and from above for a sell.
  reached : Side → P.Decimal → P.Decimal → Bool
  reached Side.buy market_price trigger = le trigger market_price
  reached Side.sell market_price trigger = le market_price trigger

  -- The trailing price: `best + trail_amount` for a buy, `best - trail_amount` for a sell.
  trail_price : Side → P.Decimal → P.Decimal → Result P.Decimal
  trail_price Side.buy best trail = add best trail
  trail_price Side.sell best trail = sub best trail

  -- The value of `triggered` in `check_trigger`.
  is_triggered : OrderType → Side → Option P.Decimal → P.Decimal → Result Bool
  unfolding reached trail_price
  is_triggered (stop trigger) side best_price market_price = ok (reached side market_price trigger)
  is_triggered (stop_limit trigger limit_price) side best_price market_price =
      ok (reached side market_price trigger)
  is_triggered (trailing_stop trail) side best_price market_price =
      bind (trail_price side (unwrap_or best_price market_price) trail)
        (λ trigger. ok (reached side market_price trigger))
  is_triggered _ side best_price market_price = ok false

  -- The value of `exec_type` in `check_trigger`.
  exec_type : OrderType → OrderType
  exec_type (stop trigger) = market
  exec_type (trailing_stop trail) = market
  exec_type (stop_limit trigger limit_price) = limit limit_price
  exec_type other = other

  unfoldable pub check_trigger : P.Decimal → P.Timestamp → Method Order (Option OrderType)
  unfolding is_triggered exec_type transition_to
  check_trigger market_price now = do
    o ← gets (λ o. o)
    if not (o.status == OrderStatus.pending_trigger) then pure none else (do
      triggered ← lift (is_triggered o.order_type o.side o.best_price market_price)
      if triggered
          then (do transition_to OrderStatus.accepted now; pure (some (exec_type o.order_type)))
          else pure none)

  unfoldable pub is_trailing_stop : OrderType → Bool
  is_trailing_stop (trailing_stop trail) = true
  is_trailing_stop _ = false

  unfoldable pub best_of : Side → Option P.Decimal → P.Decimal → P.Decimal
  best_of Side.buy none market_price = market_price
  best_of Side.buy (some b) market_price = min b market_price
  best_of Side.sell none market_price = market_price
  best_of Side.sell (some b) market_price = max b market_price

  unfoldable pub update_trailing_best : P.Decimal → Order → Order
  unfolding is_trailing_stop best_of
  update_trailing_best market_price o =
      if not (is_trailing_stop o.order_type) || not (o.status == OrderStatus.pending_trigger)
      then o
      else record o { best_price = some (best_of o.side o.best_price market_price) }

  unfoldable pub limit_price : Order → Option P.Decimal
  limit_price o = elim o.order_type [ limit price ↦ some price | _ ↦ none ]

  unfoldable pub is_stop_type : OrderType → Bool
  is_stop_type (stop trigger) = true
  is_stop_type (stop_limit trigger price) = true
  is_stop_type (trailing_stop trail) = true
  is_stop_type _ = false
