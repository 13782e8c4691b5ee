-- ===== src/Core.antt =====
-- src/core/
pub mod Ratio
pub mod Domain
pub mod Db
pub mod SessionPointer
pub mod SessionLog
pub mod Executions
pub mod Checkpoints
pub mod RunNodeOutputs
pub mod WorkflowRuns
pub mod Waits
pub mod Placements
pub mod PlacementAccesses
