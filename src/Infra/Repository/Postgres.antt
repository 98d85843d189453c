-- ===== src/Infra/Repository/Postgres.antt =====
-- src/infra/pg_order_repo.rs implements the interface, whatever the database answers.
use aegis_oms_rs.Prelude.{◌≡◌, true, false, refl, arith, inl, inr, Sum-cases, ◌⊎◌}
use aegis_oms_rs.Platform.{Platform}
use aegis_oms_rs.Platform.Text.{Texts}
use aegis_oms_rs.Domain.Order.{Order}
use aegis_oms_rs.Infra.PgOrder.{saved_row}
use aegis_oms_rs.Infra.PgOrder.Database.{OrderTable}
use aegis_oms_rs.Infra.PgOrder.Repository as Orders
use aegis_oms_rs.Infra.PgOrder.Repository.{PgOrderRepository}
use aegis_oms_rs.Infra.OrderStore
use aegis_oms_rs.Infra.PgTrade.Repository as Trades
use aegis_oms_rs.Infra.PgTrade.Repository.{TradeTable, AccountTable}
use aegis_oms_rs.Infra.Repository.{
  OrderRepository, TradeRepository, AccountRepository, Stores, IsMap, is_ok,
}
use aegis_oms_rs.Infra.Repository.Memory.{in_memory-IsMap}

module _ ⦃P : Platform⦄ ⦃T : Texts⦄ (D : OrderTable) where
  abbrev pub postgres : OrderRepository (PgOrderRepository D)
  postgres = record {
    save = Orders.save D;
    get_order = Orders.get_order D;
    put_order = Orders.put_order D;
    find_open_orders = Orders.find_open_orders D;
    find_pending_trigger_orders = Orders.find_pending_trigger_orders D;
    all_orders = Orders.all_orders D;
    load_all_owned = Orders.load_all_owned D;
  }

  -- The cache after a save: that of the orders in memory where it succeeds, and as before else.
  save_cases :
      (o : Order) (r : PgOrderRepository D)
      → ((is_ok (Orders.save D o r).0 ≡ true)
          × ((Orders.save D o r).1.cache ≡ OrderStore.save o r.cache))
        ⊎ ((is_ok (Orders.save D o r).0 ≡ false) × ((Orders.save D o r).1.cache ≡ r.cache))
  unfolding Orders.save
  save_cases o r = elim (Sum-cases (D.insert_order (saved_row o) r.db).0) [
    | inl (e, k) ↦ inr (ground arith, ground arith)
    | inr (u, k) ↦ inl (ground arith, ground arith)
  ]

  -- Behind PostgreSQL, as in memory, the orders are a map from identifiers to orders: a save sets
  -- an order, or changes nothing where the database turns it down.
  pub postgres-IsMap : IsMap postgres
  unfolding Orders.get_order Orders.put_order Orders.find_open_orders
      Orders.find_pending_trigger_orders Orders.all_orders
  postgres-IsMap = record {
    save_lem = λ o r id. elim (save_cases o r) [
      | inl (e, c) ↦ rw (c, e) (in_memory-IsMap.save_lem o r.cache id)
      | inr (n, c) ↦ rw (c, n) refl
    ];
    put_lem = λ id j o r. in_memory-IsMap.put_lem id j o r.cache;
    all_lem = λ id r. in_memory-IsMap.all_lem id r.cache;
    open_lem = λ o r. in_memory-IsMap.open_lem o r.cache;
    pending_lem = λ o r. in_memory-IsMap.pending_lem o r.cache;
  }

module _ ⦃P : Platform⦄ ⦃T : Texts⦄ where
  abbrev pub postgres_trades : (D : TradeTable) → TradeRepository D.Db
  postgres_trades D = record {
    save = Trades.save_trade D;
    all = Trades.all_trades D;
    by_instrument = Trades.trades_by_instrument D;
    load_all_owned = Trades.load_all_trades D;
  }

  abbrev pub postgres_accounts : (D : AccountTable) → AccountRepository D.Accounts
  postgres_accounts D = record { save = Trades.save_account D; load = Trades.load_account D }

  -- The stores that `create_pg_service` makes a service with.
  abbrev pub postgres_stores : OrderTable → TradeTable → Stores
  postgres_stores O D = record {
    Orders = PgOrderRepository O;
    orders = postgres O;
    Trades = D.Db;
    trades = postgres_trades D;
  }
