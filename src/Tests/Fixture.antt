-- ===== src/Tests/Fixture.antt =====
-- The data that the tests run on.
use aegis_oms_rs.Prelude.{ℕ, ◌*◌, ℤ, pos, none, some, [], ◌∷◌}
use aegis_oms_rs.Platform.{unit}
use aegis_oms_rs.Platform.Whole.{whole}
use aegis_oms_rs.Infra.Repository.Memory.{in_memory_stores}
use aegis_oms_rs.Domain.Status.{Side, TimeInForce, OrderStatus}
use aegis_oms_rs.Domain.Order.{Order, limit, trailing_stop}
use aegis_oms_rs.Domain.Account.{Account}
use aegis_oms_rs.Domain.Position.{Position}
use aegis_oms_rs.Domain.Instrument.{Instrument, AssetClass}
use aegis_oms_rs.Infra.EventBus
use aegis_oms_rs.Service.RiskCheck.{default_limits}
use aegis_oms_rs.Service.OrderService.State.{OrderService, NewOrderRequest}

abbrev pub dec : ℕ → ℤ
dec n = pos (n * unit)

abbrev pub clock : ℕ → ℕ
clock n = n

abbrev pub btc : Instrument
btc = record {
  symbol = "BTC";
  asset_class = AssetClass.crypto;
  tick_size = dec 1;
  lot_size = dec 1;
  leverage = dec 1;
}

abbrev pub alice : Account
alice = record {
  id = "A1";
  name = "alice";
  balance = dec 1000;
  locked_margin = dec 200;
  created_at = 0;
}

-- An order for two at a price of 100.
abbrev pub resting : Order
resting = record {
  id = 7;
  instrument = "BTC";
  side = Side.buy;
  order_type = limit (dec 100);
  quantity = dec 2;
  filled_quantity = dec 0;
  time_in_force = TimeInForce.gtc;
  status = OrderStatus.accepted;
  created_at = 0;
  updated_at = 0;
  best_price = none;
}

abbrev pub trailing : Order
trailing = record resting {
  side = Side.sell;
  order_type = trailing_stop (dec 5);
  status = OrderStatus.pending_trigger;
  best_price = some (dec 100);
}

abbrev pub short : Position
short = record {
  instrument = "BTC";
  side = Side.sell;
  quantity = dec 3;
  avg_price = dec 120;
  unrealized_pnl = dec 0;
}

-- A service with the resting order, its margin lock, and a short position.
abbrev pub desk : OrderService
desk = record {
  store = (7, resting) ∷ [];
  account = alice;
  instruments = ("BTC", btc) ∷ [];
  positions = ("BTC", short) ∷ [];
  margin_locks = (7, dec 200) ∷ [];
  limits = default_limits;
  event_bus = EventBus.new;
  trade_store = [];
  cumulative_realized_loss = dec 0;
}

abbrev pub request : NewOrderRequest
request = record {
  instrument = "BTC";
  side = Side.buy;
  order_type = limit (dec 100);
  quantity = dec 2;
  time_in_force = TimeInForce.gtc;
}
