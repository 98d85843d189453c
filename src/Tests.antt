-- ===== src/Tests.antt =====
-- The theorems at concrete inputs, on the platform of whole units.
pub mod Fixture
pub mod Orders
pub mod Accounts
pub mod Services
pub mod Composites
pub mod Postgres
pub mod Cli
pub mod Triggers
pub mod Reachable
pub mod Restart
pub mod Failing
pub mod Life
pub mod Watch
pub mod Booking
pub mod Bus
