-- ===== src/Service.antt =====
-- The application layer, src/service.
pub mod RiskCheck
pub mod OrderService
pub mod Composite
pub mod MarginMonitor
pub mod Proper
pub mod Reachable
pub mod Unwritten
