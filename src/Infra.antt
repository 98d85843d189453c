-- ===== src/Infra.antt =====
-- The infrastructure layer, src/infra: what it keeps in memory.
pub mod OrderStore
pub mod TradeStore
pub mod EventBus
pub mod AsyncEventBus
pub mod Alert
pub mod PgOrder
pub mod Repository
pub mod PgTrade
