-- ===== src/Service/MarginMonitor.antt =====
-- src/service/margin_monitor.rs: alerts and forced liquidation by the margin level.
pub mod Liquidation
pub mod Latched
use aegis_oms_rs.Prelude.{ℕ, suc, String, not, if◌then◌else◌, List, [], ◌∷◌, ◌++◌}
use aegis_oms_rs.Prelude.Eq.{◌==◌}
use aegis_oms_rs.Prelude.Map.{HashMap}
use aegis_oms_rs.Platform.{Platform}
use aegis_oms_rs.Domain.Status.{Side, TimeInForce}
use aegis_oms_rs.Domain.Error.{Method, zoom, pure, lift, gets, modify, ◌>>=◌, ◌>>◌}
use aegis_oms_rs.Domain.Order.{market}
use aegis_oms_rs.Domain.Event.{OrderEvent}
use aegis_oms_rs.Domain.Instrument.{Instrument}
use aegis_oms_rs.Domain.Position.{Position}
use aegis_oms_rs.Domain.RiskEngine.{MarginLevel, level_eq, MarginStatus, Prices, calculate}
use aegis_oms_rs.Infra.Repository.{Stores}
use aegis_oms_rs.Infra.Alert.{Alert, new_alert}
use aegis_oms_rs.Service.OrderService.State.{NewOrderRequest, OrderService, publish}
use aegis_oms_rs.Service.OrderService.Submit.{submit_order}
use aegis_oms_rs.Service.OrderService.Query.{get_positions, get_account, get_instruments}

module _ ⦃P : Platform⦄ where
  -- The monitor, with the alerts that its sender has been handed, oldest first.
  pub record MarginMonitor : Type 0 where
    pub sent : List Alert
    pub margin_call_ratio : P.Decimal
    pub stop_out_ratio : P.Decimal
    pub last_level : MarginLevel

  unfoldable pub new : P.Decimal → P.Decimal → MarginMonitor
  new margin_call_ratio stop_out_ratio = record {
    sent = [];
    margin_call_ratio = margin_call_ratio;
    stop_out_ratio = stop_out_ratio;
    last_level = MarginLevel.normal;
  }

  unfoldable pub leverages_of : HashMap String Instrument → Prices
  leverages_of [] = []
  leverages_of ((symbol, inst) ∷ m) = (symbol, inst.leverage) ∷ leverages_of m

  unfoldable pub close_side : Side → Side
  close_side Side.buy = Side.sell
  close_side Side.sell = Side.buy

  unfoldable pub close_request : Position → NewOrderRequest
  unfolding close_side
  close_request p = record {
    instrument = p.instrument;
    side = close_side p.side;
    order_type = market;
    quantity = p.quantity;
    time_in_force = TimeInForce.ioc;
  }

module _ ⦃P : Platform⦄ ⦃S : Stores⦄ where
  -- The monitor and the order service that `check` works on.
  pub record Watch : Type 0 where
    pub monitor : MarginMonitor
    pub orders : OrderService

  abbrev pub on_orders : {A : Type 0} → Method OrderService A → Method Watch A
  on_orders = zoom (λ w. w.orders) (λ o w. record w { orders = o })

  abbrev pub on_monitor : (MarginMonitor → MarginMonitor) → Method Watch (Unit {0})
  on_monitor f = modify (λ w. record w { monitor = f w.monitor })

  -- `alert_sender.send(..)`, whose result is dropped.
  abbrev pub send : MarginLevel → P.Decimal → Method Watch (Unit {0})
  send level ratio = on_monitor (λ m. record m { sent = m.sent ++ (new_alert level ratio ∷ []) })

  abbrev pub set_level : MarginLevel → Method Watch (Unit {0})
  set_level level = on_monitor (λ m. record m { last_level = level })

  -- The loop of `force_liquidate`, with an identifier and a clock for each order.
  unfoldable pub liquidate :
      (ℕ → P.Ulid) → (ℕ → ℕ → P.Timestamp) → List Position → Method OrderService (Unit {0})
  unfolding close_request
  liquidate ids clock [] = pure tt
  liquidate ids clock (p ∷ ps) = do
    submit_order (ids 0) (clock 0) (close_request p)
    liquidate (λ n. ids (suc n)) (λ n. clock (suc n)) ps

  unfoldable pub force_liquidate :
      (ℕ → P.Ulid) → (ℕ → ℕ → P.Timestamp) → Method OrderService (Unit {0})
  unfolding liquidate
  force_liquidate ids clock = do
    positions ← gets (λ s. get_positions s)
    liquidate ids clock positions

  -- What `check` does at a level, given the level before.
  unfoldable pub react :
      (ℕ → P.Ulid)
      → (ℕ → ℕ → P.Timestamp)
      → MarginLevel
      → P.Decimal
      → MarginLevel
      → Method Watch (Unit {0})
  unfolding force_liquidate
  react ids clock MarginLevel.stop_out ratio last =
      if not (last == MarginLevel.stop_out)
      then (do
        send MarginLevel.stop_out ratio
        on_orders (publish (OrderEvent.stop_out ratio))
        on_orders (force_liquidate ids clock)
        set_level MarginLevel.stop_out)
      else pure tt
  react ids clock MarginLevel.margin_call ratio last =
      if last == MarginLevel.normal
      then (do
        send MarginLevel.margin_call ratio
        on_orders (publish (OrderEvent.margin_call ratio))
        set_level MarginLevel.margin_call)
      else pure tt
  react ids clock MarginLevel.normal ratio last = set_level MarginLevel.normal

  unfoldable pub check : (ℕ → P.Ulid) → (ℕ → ℕ → P.Timestamp) → Prices → Method Watch MarginStatus
  unfolding leverages_of react
  check ids clock marks = do
    w ← gets (λ w. w)
    status ← lift (
        calculate (get_account w.orders) (get_positions w.orders) marks
          (leverages_of (get_instruments w.orders)) w.monitor.margin_call_ratio
          w.monitor.stop_out_ratio)
    react ids clock status.level status.margin_ratio w.monitor.last_level
    pure status
