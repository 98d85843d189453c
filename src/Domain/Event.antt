-- ===== src/Domain/Event.antt =====
-- src/domain/event.rs and src/domain/trade.rs: the events that are published and the trade record.
use aegis_oms_rs.Prelude.{String, Option}
use aegis_oms_rs.Platform.{Platform}
use aegis_oms_rs.Domain.Status.{Side}

-- The reasons that the program puts into an event.
pub data EventReason : Type 0 where
  user_requested : EventReason

module _ ⦃P : Platform⦄ where
  pub data OrderEvent : Type 0 where
    created accepted : P.Ulid → OrderEvent
    partially_filled filled : P.Ulid → P.Decimal → P.Decimal → OrderEvent
    cancelled rejected : P.Ulid → EventReason → OrderEvent
    stop_triggered : P.Ulid → P.Decimal → OrderEvent
    margin_call stop_out : P.Decimal → OrderEvent
    trailing_stop_updated : P.Ulid → P.Decimal → OrderEvent
    ioc_residual_cancelled : P.Ulid → P.Decimal → OrderEvent
    fok_rejected : P.Ulid → P.Decimal → P.Decimal → OrderEvent

  pub record Trade : Type 0 where
    pub id : P.Ulid
    pub order_id : P.Ulid
    pub instrument : String
    pub side : Side
    pub quantity : P.Decimal
    pub price : P.Decimal
    pub realized_pnl : Option P.Decimal
    pub executed_at : P.Timestamp

  -- `Trade::new`, with the fresh identifier and the clock reading that it takes.
  unfoldable pub new_trade :
      P.Ulid
      → P.Timestamp
      → P.Ulid
      → String
      → Side
      → P.Decimal
      → P.Decimal
      → Option P.Decimal
      → Trade
  new_trade id now order_id instrument side quantity price realized_pnl = record {
    id = id;
    order_id = order_id;
    instrument = instrument;
    side = side;
    quantity = quantity;
    price = price;
    realized_pnl = realized_pnl;
    executed_at = now;
  }
