-- ===== src/Scheduler.antt =====
-- src/scheduler/
pub mod Placement
pub mod Evict
pub mod Capacity
pub mod Promotes
pub mod Decide
pub mod Access
mod Tests
