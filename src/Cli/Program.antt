-- ===== src/Cli/Program.antt =====
-- `main` of src/main.rs: the service in memory or behind PostgreSQL, and the subcommand on it.
use aegis_oms_rs.Prelude.{ℕ, String, Option, none, some, List}
use aegis_oms_rs.Platform.{Platform}
use aegis_oms_rs.Platform.Text.{Texts}
use aegis_oms_rs.Domain.Error.{Result, bind}
use aegis_oms_rs.Infra.PgOrder.Database.{OrderTable}
use aegis_oms_rs.Infra.PgTrade.Repository.{TradeTable, AccountTable}
use aegis_oms_rs.Infra.Repository.Memory.{in_memory_stores}
use aegis_oms_rs.Infra.Repository.Postgres.{postgres_stores}
use aegis_oms_rs.Config.{Environment}
use aegis_oms_rs.Cli.{Commands}
use aegis_oms_rs.Cli.Handlers.{Line}
use aegis_oms_rs.Cli.Repl.{Turn}
use aegis_oms_rs.Cli.Main.{run_command}
use aegis_oms_rs.Cli.Service.{create_service}
use aegis_oms_rs.Cli.Postgres.{PgDatabase, create_pg_service}

module _ ⦃P : Platform⦄ ⦃T : Texts⦄ (O : OrderTable) (D : TradeTable) (A : AccountTable) where
  -- What the program prints: `connect` gives the database that a URL stands for, with the
  -- migrations run on it, or none where connecting or migrating panics.
  unfoldable pub main :
      Environment
      → P.Timestamp
      → (String → Option (PgDatabase O D A))
      → P.Ulid
      → (ℕ → P.Timestamp)
      → List Turn
      → Option String
      → Option Commands
      → Result (List Line)
  unfolding run_command create_service create_pg_service
  main env now connect id clock turns none command =
      (run_command ⦃S = in_memory_stores⦄ id clock turns command (create_service env now)).0
  main env now connect id clock turns (some db_url) command =
      bind (create_pg_service O D A env now (connect db_url))
        (λ svc. (run_command ⦃S = postgres_stores O D⦄ id clock turns command svc).0)
