-- ===== src/Worker.antt =====
-- src/apps/worker/
pub mod AgentClient
pub mod ArgText
pub mod Bindings
pub mod Dispatch
pub mod Loop
pub mod Failing
pub mod Attempt
pub mod Outcomes
pub mod Safety
pub mod Sorting
pub mod Requests
pub mod Given
pub mod Contents
pub mod Passing
pub mod Buildable
pub mod Registered
pub mod Advancing
pub mod Completing
pub mod Closing
pub mod OpenCount
pub mod Progress
mod Tests
