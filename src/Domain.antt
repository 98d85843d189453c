-- ===== src/Domain.antt =====
-- The domain layer, src/domain.
pub mod Status
pub mod Error
pub mod Method
pub mod Order
pub mod Account
pub mod Position
pub mod Instrument
pub mod Event
pub mod RiskEngine
pub mod CompositeOrder
