-- ===== src/Service/OrderService/State.antt =====
-- The state of OrderService, and the steps that its methods share.
use aegis_oms_rs.Prelude.{String, Option, none, some, List, [], ◌∷◌}
use aegis_oms_rs.Prelude.Eq.{string_eq}
use aegis_oms_rs.Prelude.Map.{HashMap, get, insert, remove}
use aegis_oms_rs.Platform.{Platform}
use aegis_oms_rs.Domain.Status.{Side, TimeInForce}
use aegis_oms_rs.Domain.Error.{Result, ok, err, panic, Method, zoom}
use aegis_oms_rs.Domain.Order.{Order, OrderType}
use aegis_oms_rs.Domain.Account.{Account, unlock_margin}
use aegis_oms_rs.Domain.Position.{Position}
use aegis_oms_rs.Domain.Instrument.{Instrument}
use aegis_oms_rs.Domain.Event.{OrderEvent, Trade}
use aegis_oms_rs.Infra.Repository.{Stores}
use aegis_oms_rs.Infra.Repository.Memory.{in_memory_stores}
use aegis_oms_rs.Infra.OrderStore
use aegis_oms_rs.Infra.EventBus.{EventBus}
use aegis_oms_rs.Infra.EventBus
use aegis_oms_rs.Service.RiskCheck.{RiskLimits}

module _ ⦃P : Platform⦄ where
  pub record NewOrderRequest : Type 0 where
    pub instrument : String
    pub side : Side
    pub order_type : OrderType
    pub quantity : P.Decimal
    pub time_in_force : TimeInForce

  -- `instruments.into_iter().map(|i| (i.symbol.clone(), i)).collect()`
  unfoldable pub by_symbol : List Instrument → HashMap String Instrument → HashMap String Instrument
  by_symbol [] m = m
  by_symbol (i ∷ is) m = by_symbol is (insert i.symbol i m)

module _ ⦃P : Platform⦄ ⦃S : Stores⦄ where
  pub record OrderService : Type 0 where
    pub store : S.Orders
    pub account : Account
    pub instruments : HashMap String Instrument
    pub positions : HashMap String Position
    pub margin_locks : HashMap P.Ulid P.Decimal
    pub limits : RiskLimits
    pub event_bus : EventBus
    pub trade_store : S.Trades
    pub cumulative_realized_loss : P.Decimal

  unfoldable pub with_repos :
      Account → List Instrument → RiskLimits → EventBus → S.Orders → S.Trades → OrderService
  unfolding by_symbol
  with_repos account instruments limits event_bus store trade_store = record {
    store = store;
    account = account;
    instruments = by_symbol instruments [];
    positions = [];
    margin_locks = [];
    limits = limits;
    event_bus = event_bus;
    trade_store = trade_store;
    cumulative_realized_loss = P.zero_value;
  }

  -- A method of the account.
  abbrev pub on_account : {A : Type 0} → Method Account A → Method OrderService A
  on_account = zoom (λ s. s.account) (λ a s. record s { account = a })

  -- `store.get_mut(id)` and a method of the order found; `missing` is the outcome if none is.
  abbrev pub on_order : {A : Type 0} → P.Ulid → Result A → Method Order A → Method OrderService A
  on_order id missing m s = elim (S.orders.get_order id s.store) [
    | none ↦ (missing, s)
    | some o ↦ let (r, o') = m o in (r, record s { store = S.orders.put_order id o' s.store })
  ]

  -- `store.save(order)` and `trade_store.save(trade)`
  abbrev pub save_order : Order → Method OrderService (Unit {0})
  save_order o = zoom (λ s. s.store) (λ store s. record s { store = store }) (S.orders.save o)

  abbrev pub save_trade : Trade → Method OrderService (Unit {0})
  save_trade t =
      zoom (λ s. s.trade_store) (λ store s. record s { trade_store = store }) (S.trades.save t)

  abbrev pub publish : OrderEvent → Method OrderService (Unit {0})
  publish e s = (ok tt, record s { event_bus = EventBus.publish e s.event_bus })

  abbrev pub lock_of : P.Ulid → OrderService → Option P.Decimal
  lock_of id s = get ⦃e = P.ulid_is_eq⦄ id s.margin_locks

  -- `if let Some(margin) = self.margin_locks.remove(id) { self.account.unlock_margin(margin)?; }`
  unfoldable pub release_margin : P.Ulid → Method OrderService (Unit {0})
  release_margin id s = elim (lock_of id s) [
    | none ↦ (ok tt, s)
    | some margin ↦
        on_account (unlock_margin margin)
          (record s { margin_locks = remove ⦃e = P.ulid_is_eq⦄ id s.margin_locks })
  ]

module _ ⦃P : Platform⦄ where
  -- `OrderService::new`
  unfoldable pub new : Account → List Instrument → RiskLimits → EventBus → OrderService
  unfolding with_repos
  new account instruments limits event_bus =
      with_repos account instruments limits event_bus OrderStore.new []

  -- A method of an order that is not yet stored; the order comes back.
  abbrev pub on_local : {S A : Type 0} → Method Order A → Order → Method S Order
  on_local m o s =
      let (r, o') = m o in elim r [ ok a ↦ (ok o', s) | err e ↦ (err e, s) | panic ↦ (panic, s) ]
