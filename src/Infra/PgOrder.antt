-- ===== src/Infra/PgOrder.antt =====
-- src/infra/pg_order_repo.rs: the orders in PostgreSQL, with a cache of what was saved.
pub mod Database
pub mod Repository
pub mod Saved
pub mod Table
use aegis_oms_rs.Prelude.{
  String, Option, none, some, Bool, if◌then◌else◌, List, [], ◌∷◌, ◌⊎◌, inl, inr,
}
use aegis_oms_rs.Prelude.Eq.{◌==◌, string_eq}
use aegis_oms_rs.Platform.{Platform}
use aegis_oms_rs.Platform.Text.{Texts}
use aegis_oms_rs.Domain.Status.{Side, TimeInForce, OrderStatus}
use aegis_oms_rs.Domain.Error.{Result, ok, err, risk_check_failed, database}
use aegis_oms_rs.Domain.Order.{Order, OrderType, market, limit, stop, stop_limit, trailing_stop}

unfoldable pub side_to_str : Side → String
side_to_str Side.buy = "buy"
side_to_str Side.sell = "sell"

unfoldable pub str_to_side : String → Option Side
str_to_side s = if s == "buy" then some Side.buy else if s == "sell" then some Side.sell else none

unfoldable pub time_in_force_to_str : TimeInForce → String
time_in_force_to_str TimeInForce.gtc = "gtc"
time_in_force_to_str TimeInForce.ioc = "ioc"
time_in_force_to_str TimeInForce.fok = "fok"

unfoldable pub str_to_time_in_force : String → Option TimeInForce
str_to_time_in_force s =
    if s == "gtc"
    then some TimeInForce.gtc
    else if s == "ioc"
    then some TimeInForce.ioc
    else if s == "fok"
    then some TimeInForce.fok
    else none

unfoldable pub status_to_str : OrderStatus → String
status_to_str OrderStatus.new = "new"
status_to_str OrderStatus.pending_trigger = "pending_trigger"
status_to_str OrderStatus.accepted = "accepted"
status_to_str OrderStatus.partially_filled = "partially_filled"
status_to_str OrderStatus.filled = "filled"
status_to_str OrderStatus.cancelled = "cancelled"
status_to_str OrderStatus.rejected = "rejected"

unfoldable pub str_to_status : String → Option OrderStatus
str_to_status s =
    if s == "new"
    then some OrderStatus.new
    else if s == "pending_trigger"
    then some OrderStatus.pending_trigger
    else if s == "accepted"
    then some OrderStatus.accepted
    else if s == "partially_filled"
    then some OrderStatus.partially_filled
    else if s == "filled"
    then some OrderStatus.filled
    else if s == "cancelled"
    then some OrderStatus.cancelled
    else if s == "rejected"
    then some OrderStatus.rejected
    else none

-- The `?` of a chain of options.
infixl 5 ◌>>=◌
abbrev pub ◌>>=◌ : {A B : Type 0} → Option A → (A → Option B) → Option B
none >>= f = none
some a >>= f = f a

-- `.map_err(|e| OmsError::RiskCheckFailed { reason: e.to_string() })`
abbrev pub or_database : ⦃P : Platform⦄ {A : Type 0} → String ⊎ A → Result A
or_database (inl e) = err (risk_check_failed (database e))
or_database (inr a) = ok a

module _ ⦃P : Platform⦄ where
  pub record OrderRow : Type 0 where
    pub id : String
    pub instrument : String
    pub side : String
    pub order_type : String
    pub price : Option P.Decimal
    pub quantity : P.Decimal
    pub filled_quantity : P.Decimal
    pub time_in_force : String
    pub status : String
    pub trigger_price : Option P.Decimal
    pub limit_price : Option P.Decimal
    pub trail_amount : Option P.Decimal
    pub best_price : Option P.Decimal
    pub created_at : P.Timestamp
    pub updated_at : P.Timestamp

  unfoldable pub order_type_to_fields :
      OrderType → String × Option P.Decimal × Option P.Decimal × Option P.Decimal
  order_type_to_fields market = ("market", none, none, none)
  order_type_to_fields (limit price) = ("limit", some price, none, none)
  order_type_to_fields (stop trigger) = ("stop", none, some trigger, none)
  order_type_to_fields (stop_limit trigger price) = ("stop_limit", none, some trigger, some price)
  order_type_to_fields (trailing_stop trail) = ("trailing_stop", none, none, some trail)

  unfoldable pub row_to_order_type :
      String
      → Option P.Decimal
      → Option P.Decimal
      → Option P.Decimal
      → Option P.Decimal
      → Option OrderType
  row_to_order_type type_str price trigger_price limit_price trail_amount =
      if type_str == "market"
      then some market
      else if type_str == "limit"
      then (do p ← price; some (limit p))
      else if type_str == "stop"
      then (do t ← trigger_price; some (stop t))
      else if type_str == "stop_limit"
      then (do t ← trigger_price; l ← limit_price; some (stop_limit t l))
      else if type_str == "trailing_stop"
      then (do t ← trail_amount; some (trailing_stop t))
      else none

  module _ ⦃T : Texts⦄ where
    unfoldable pub row_to_order : OrderRow → Option Order
    unfolding str_to_side row_to_order_type str_to_time_in_force str_to_status
    row_to_order row = do
      side ← str_to_side row.side
      order_type ←
          row_to_order_type row.order_type row.price row.trigger_price row.limit_price
            row.trail_amount
      time_in_force ← str_to_time_in_force row.time_in_force
      status ← str_to_status row.status
      id ← T.ulid_from_string row.id
      some (record {
        id = id;
        instrument = row.instrument;
        side = side;
        order_type = order_type;
        quantity = row.quantity;
        filled_quantity = row.filled_quantity;
        time_in_force = time_in_force;
        status = status;
        created_at = row.created_at;
        updated_at = row.updated_at;
        best_price = row.best_price;
      })

    -- The values that `save` binds: the third number of the order's type goes to the column
    -- limit_price, and the column trail_amount is always NULL.
    unfoldable pub saved_row : Order → OrderRow
    unfolding side_to_str order_type_to_fields time_in_force_to_str status_to_str
    saved_row o =
        let (type_str, price, trigger_price, limit_price) = order_type_to_fields o.order_type in
        record {
          id = T.ulid_text o.id;
          instrument = o.instrument;
          side = side_to_str o.side;
          order_type = type_str;
          price = price;
          quantity = o.quantity;
          filled_quantity = o.filled_quantity;
          time_in_force = time_in_force_to_str o.time_in_force;
          status = status_to_str o.status;
          trigger_price = trigger_price;
          limit_price = limit_price;
          trail_amount = none;
          best_price = o.best_price;
          created_at = o.created_at;
          updated_at = o.updated_at;
        }
