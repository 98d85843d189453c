-- ===== src/Cli/Postgres.antt =====
-- `create_pg_service` of src/main.rs: the service behind PostgreSQL, with what it restores from the
-- database. Connecting and migrating are an argument: the database, or none where that panics.
use aegis_oms_rs.Prelude.{Option, none, some, List, [], ◌∷◌, String, ◌⊎◌, inl, inr}
use aegis_oms_rs.Platform.{Platform}
use aegis_oms_rs.Platform.Text.{Texts}
use aegis_oms_rs.Domain.Status.{Side}
use aegis_oms_rs.Domain.Error.{Result, ok, err, panic}
use aegis_oms_rs.Domain.Account
use aegis_oms_rs.Infra.EventBus
use aegis_oms_rs.Infra.PgOrder.{str_to_side}
use aegis_oms_rs.Infra.PgOrder.Database.{OrderTable}
use aegis_oms_rs.Infra.PgOrder.Repository
use aegis_oms_rs.Infra.PgTrade.Repository.{TradeTable, AccountTable}
use aegis_oms_rs.Infra.Repository.Postgres.{postgres_stores, postgres_accounts}
use aegis_oms_rs.Service.RiskCheck.{default_limits}
use aegis_oms_rs.Service.OrderService.State.{OrderService, with_repos}
use aegis_oms_rs.Service.OrderService.Query.{restore_from_db}
use aegis_oms_rs.Config.{Environment, load}
use aegis_oms_rs.Cli.Service.{default_instruments}

module _ ⦃P : Platform⦄ where
  -- A row of the table `positions`.
  pub record PosRow : Type 0 where
    pub instrument : String
    pub side : String
    pub quantity : P.Decimal
    pub avg_price : P.Decimal

  -- The rows that `create_pg_service` hands to restore_from_db: those with a side.
  unfoldable pub stored_positions : List PosRow → List (String × Side × P.Decimal × P.Decimal)
  unfolding str_to_side
  stored_positions [] = []
  stored_positions (r ∷ rows) = elim (str_to_side r.side) [
    | none ↦ stored_positions rows
    | some side ↦ (r.instrument, side, r.quantity, r.avg_price) ∷ stored_positions rows
  ]

  -- `fetch_all(&pool).await.unwrap_or_default()`
  abbrev pub unwrap_or_default : String ⊎ List PosRow → List PosRow
  unwrap_or_default (inl e) = []
  unwrap_or_default (inr rows) = rows

  module _ (O : OrderTable) (D : TradeTable) (A : AccountTable) where
    -- The tables, and what the query of the positions of "acc-001" gives.
    pub record PgDatabase : Type 0 where
      pub orders : O.Db
      pub trades : D.Db
      pub accounts : A.Accounts
      pub positions : String ⊎ List PosRow

    module _ ⦃T : Texts⦄ where
      abbrev PgService : Type 0
      PgService = OrderService ⦃S = postgres_stores O D⦄

      -- The service before it is restored, at `now`.
      unfoldable pub fresh_service : Environment → P.Timestamp → PgDatabase → PgService
      unfolding load default_instruments
      fresh_service env now db =
          with_repos ⦃S = postgres_stores O D⦄
            (Account.new now "acc-001" "Default" (load env).account.initial_balance)
            default_instruments default_limits EventBus.new (Repository.new O db.orders) db.trades

      -- An error of the restart is logged; the service goes on as it was left.
      abbrev pub despite_error : Result (Unit {0}) × PgService → Result PgService
      despite_error (ok u, svc) = ok svc
      despite_error (err e, svc) = ok svc
      despite_error (panic, svc) = panic

      unfoldable pub create_pg_service :
          Environment → P.Timestamp → Option PgDatabase → Result PgService
      unfolding fresh_service stored_positions
      create_pg_service env now none = panic
      create_pg_service env now (some db) =
          let accounts = postgres_accounts A in
          despite_error (
            restore_from_db ⦃S = postgres_stores O D⦄ (accounts.load "acc-001" db.accounts)
              (stored_positions (unwrap_or_default db.positions)) (fresh_service env now db))
