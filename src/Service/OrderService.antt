-- ===== src/Service/OrderService.antt =====
-- src/service/order_service.rs: orders, account, positions and margin locks kept together.
pub mod Losses
pub mod Booked
pub mod State
pub mod Locks
pub mod Immediate
pub mod Filling
pub mod Exposure
pub mod Unchecked
pub mod Policy
pub mod Lock
pub mod Cancel
pub mod Unstored
pub mod Life
pub mod Booking
pub mod Killed
pub mod Whole
pub mod Stuck
pub mod Submit
pub mod Fill
pub mod Query
