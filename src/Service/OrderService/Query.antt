-- ===== src/Service/OrderService/Query.antt =====
-- The rest of OrderService: queries, deposits, marking to market, and the restart.
use aegis_oms_rs.Prelude.{String, Bool, Option, none, some, List, [], ◌∷◌, map}
use aegis_oms_rs.Prelude.Eq.{◌==◌, string_eq}
use aegis_oms_rs.Prelude.Map.{HashMap, get, insert, values}
use aegis_oms_rs.Platform.{Platform}
use aegis_oms_rs.Platform.Decimal.{lt}
use aegis_oms_rs.Domain.Status.{Side}
use aegis_oms_rs.Domain.Error.{
  Result, ok, err, panic, Method, add, lift, modify, gets, pure, ◌>>=◌, ◌>>◌,
}
use aegis_oms_rs.Domain.Order.{Order}
use aegis_oms_rs.Domain.Account.{Account}
use aegis_oms_rs.Domain.Account
use aegis_oms_rs.Domain.Position.{Position, update_unrealized_pnl}
use aegis_oms_rs.Domain.Position
use aegis_oms_rs.Domain.Event.{Trade}
use aegis_oms_rs.Domain.Instrument.{Instrument}
use aegis_oms_rs.Infra.OrderStore.{filter}
use aegis_oms_rs.Infra.Repository.{Stores}
use aegis_oms_rs.Service.OrderService.State.{OrderService, on_account, save_order}

module _ ⦃P : Platform⦄ where
  -- The loop of `update_positions_pnl`: a position with a mark price is marked to it.
  unfoldable pub mark_positions :
      HashMap String P.Decimal → Method (HashMap String Position) (Unit {0})
  mark_positions marks [] = (ok tt, [])
  mark_positions marks ((symbol, pos) ∷ m) =
      let rest = mark_positions marks m in
      elim (get symbol marks) [
        | none ↦ (rest.0, (symbol, pos) ∷ rest.1)
        | some price ↦
            let (r, pos') = update_unrealized_pnl price pos in
            elim r [
              | ok _ ↦ (rest.0, (symbol, pos') ∷ rest.1)
              | err e ↦ (err e, (symbol, pos') ∷ m)
              | panic ↦ (panic, (symbol, pos') ∷ m)
            ]
      ]

  -- The negative realized profits of the trades, added up from the left.
  unfoldable pub total_loss : P.Decimal → List Trade → Result P.Decimal
  total_loss acc [] = ok acc
  total_loss acc (t ∷ ts) = elim t.realized_pnl [
    | none ↦ total_loss acc ts
    | some pnl ↦ elim (lt pnl P.zero_value) [
      | Bool.false ↦ total_loss acc ts
      | Bool.true ↦ elim (add acc pnl) [
        | ok acc' ↦ total_loss acc' ts
        | err e ↦ err e
        | panic ↦ panic
      ]
    ]
  ]

  unfoldable pub restore_positions :
      List (String × Side × P.Decimal × P.Decimal)
      → HashMap String Position
      → HashMap String Position
  restore_positions [] m = m
  restore_positions ((symbol, side, quantity, avg_price) ∷ ps) m =
      restore_positions ps (insert symbol (Position.new symbol side quantity avg_price) m)

module _ ⦃P : Platform⦄ ⦃S : Stores⦄ where
  unfoldable pub get_order : P.Ulid → OrderService → Option Order
  get_order id s = S.orders.get_order id s.store

  -- `get_order_mut` and `get_account_mut`, with what the caller does to the order that is found
  -- and to the account.
  unfoldable pub get_order_mut : P.Ulid → (Order → Order) → OrderService → OrderService
  get_order_mut id f s = elim (S.orders.get_order id s.store) [
    | none ↦ s
    | some o ↦ record s { store = S.orders.put_order id (f o) s.store }
  ]

  unfoldable pub get_account_mut : (Account → Account) → OrderService → OrderService
  get_account_mut f s = record s { account = f s.account }

  unfoldable pub get_open_orders : OrderService → List Order
  get_open_orders s = S.orders.find_open_orders s.store

  unfoldable pub get_positions : OrderService → List Position
  get_positions s = values s.positions

  abbrev pub get_account : OrderService → Account
  get_account s = s.account

  abbrev pub get_instruments : OrderService → HashMap String Instrument
  get_instruments s = s.instruments

  unfoldable pub deposit : P.Decimal → Method OrderService (Unit {0})
  deposit amount = on_account (Account.deposit amount)

  unfoldable pub withdraw : P.Decimal → Method OrderService (Unit {0})
  withdraw amount = on_account (Account.withdraw amount)

  unfoldable pub get_trade_history : Option String → OrderService → List Trade
  get_trade_history (some sym) s = S.trades.by_instrument sym s.trade_store
  get_trade_history none s = S.trades.all s.trade_store

  unfoldable pub find_pending_trigger_orders_for : String → OrderService → List P.Ulid
  find_pending_trigger_orders_for symbol s =
      map (λ o. o.id)
        (filter (λ o. o.instrument == symbol) (S.orders.find_pending_trigger_orders s.store))

  unfoldable pub update_positions_pnl : HashMap String P.Decimal → Method OrderService (Unit {0})
  unfolding mark_positions
  update_positions_pnl marks s =
      let (r, m) = mark_positions marks s.positions in (r, record s { positions = m })

  unfoldable pub save_all : List Order → Method OrderService (Unit {0})
  save_all [] = pure tt
  save_all (o ∷ os) = save_order o >> save_all os

  -- `restore_from_db`, with what the account repository loads.
  unfoldable pub restore_from_db :
      Result (Option Account)
      → List (String × Side × P.Decimal × P.Decimal)
      → Method OrderService (Unit {0})
  unfolding save_all total_loss restore_positions
  restore_from_db loaded positions = do
    account ← lift loaded
    modify (λ s. elim account [ none ↦ s | some a ↦ record s { account = a } ])
    s ← gets (λ s. s)
    orders ← lift (S.orders.load_all_owned s.store)
    save_all orders
    trades ← lift (S.trades.load_all_owned s.trade_store)
    loss ← lift (total_loss P.zero_value trades)
    modify (λ s. record s { cumulative_realized_loss = loss })
    modify (λ s. record s { positions = restore_positions positions s.positions })
