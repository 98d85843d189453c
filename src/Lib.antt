-- ===== src/Lib.antt =====
-- Aegis OMS: a verification library for the order management system, a Rust program.
--
-- A client submits orders to an OrderService. The service checks an order against the risk
-- limits, locks margin of the account for an order with a limit price, stores it, and publishes
-- what happened on the event bus. A fill moves the order, releases the lock, nets the position,
-- books the profit on the account and records a trade. Around it stand the
-- CompositeOrderService, which watches prices for stop orders and links pairs of orders, and the
-- MarginMonitor, which watches the margin level, sends alerts and liquidates positions.
--
-- Files, and the code that they model:
--   Domain/Status, Domain/Order: src/domain/order.rs (Side, TimeInForce, OrderStatus; Order and
--     its methods, by their names in the source)
--   Domain/Error: src/domain/error.rs, with the outcome of a call
--   Domain/Account: src/domain/account.rs (Account, MarginCalculator)
--   Domain/Position: src/domain/position.rs (Position::add is `add_fill`)
--   Domain/Instrument, Domain/Event, Domain/CompositeOrder: src/domain/instrument.rs, event.rs
--     with trade.rs, and composite_order.rs
--   Domain/RiskEngine: src/domain/risk_engine.rs
--   Infra/OrderStore, Infra/TradeStore, Infra/EventBus, Infra/AsyncEventBus, Infra/Alert: the
--     files of src/infra with these names
--   Infra/PgOrder (Database, Repository): src/infra/pg_order_repo.rs
--   Infra/PgTrade (Repository): src/infra/pg_trade_repo.rs and pg_account_repo.rs
--   Infra/Repository: the traits of src/domain/repository.rs, and the two repositories that a service
--     is made with (`Stores`); its children Memory and Postgres are the two implementations
--   Service/RiskCheck: src/service/risk_check.rs
--   Service/OrderService (State, Submit, Fill, Query): src/service/order_service.rs
--   Service/Composite: src/service/composite_order_service.rs
--   Service/MarginMonitor: src/service/margin_monitor.rs
--   Config: src/config.rs
--   Cli (Words, Handlers, Repl, Service): src/cli
--   Cli/Meaning: what the words of a line ask of the service, a description apart from the handlers
--   Cli (Main, Postgres, Program): src/main.rs
-- The modules below these hold the proofs, Tests holds the theorems at concrete inputs, and
-- Prelude the shared names, integers, Boolean equality and finite maps.
--
-- How the code is read:
--   - A method that borrows mutably is a function from the object to an outcome and the object
--     after it. The outcome is a value, an error or a panic; what was written before an error
--     stays written.
--   - rust_decimal, chrono and ulid are not part of the program. Platform is a record of their
--     operations as far as they are called, with their laws: a Decimal has a value in units of
--     10^-28; a checked operation that has a value rounds monotonically to a Decimal, and has one
--     where the result is represented exactly; an operator panics where its checked form has no
--     value. Platform/Whole shows that the laws can hold together.
--   - A fresh identifier is an argument, and so is the clock, as the sequence of its readings.
--   - A HashMap is an association list that holds a key once; its order stands for the iteration
--     order, which the source leaves open. `get_mut` is a look-up and a write-back.
--   - A loop is structural recursion over the list that it walks, so that no fuel is needed.
--   - A text that is built for an error is a constructor with the values that it prints.
--   - A PostgreSQL table is an interface: its statements, and what PostgreSQL documents of them
--     (what an INSERT with its ON CONFLICT clause leaves, what a SELECT gives). A statement may
--     fail. Infra/PgOrder/Table and Infra/PgTrade/Table show that the laws can hold together.
--   - The order service, and what stands on it, takes its two repositories as an instance of `Stores`,
--     as the source takes them as trait objects. Theorems that need no more of them hold over any
--     repositories, some over any that are maps from identifiers to orders (`IsMap`) or that list
--     no pending order twice (`ListsOnce`); those on the trades that are kept are on the ones in
--     memory. What restore_from_db loads from the account repository is an argument.
--   - Ulid's and Decimal's texts, to_lowercase, the environment variables, the file system, TOML
--     and lettre are interfaces, too; Platform/Plain is an instance for the tests. So is tokio's
--     broadcast channel, Infra/AsyncEventBus/Channel; Queues shows that its laws can hold together.
--   - The command line reads a list of lines and prints a list of lines; a printed line is a
--     constructor with the values that it shows.
--
-- Not modelled: the parsing of the command line by clap and the layout of what is printed; the
-- shared wrapper (src/service/shared.rs), which only puts a service into a mutex; connecting to
-- the database and its migrations (src/infra/db.rs); and the Display texts.
pub mod Prelude
pub mod Platform
pub mod Domain
pub mod Infra
pub mod Service
pub mod Config
pub mod Cli
pub mod Tests
