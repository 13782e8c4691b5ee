-- ===== src/Engine.antt =====
-- src/engine/
pub mod Bindings
pub mod DependencyGraph
pub mod ClaimComplete
pub mod Claim
pub mod Interpreter
pub mod Wait
pub mod Plain
pub mod Promote
pub mod Complete
pub mod Scheduling
pub mod Completion
pub mod Submit
mod Tests
