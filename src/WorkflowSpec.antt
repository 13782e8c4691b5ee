-- ===== src/WorkflowSpec.antt =====
-- src/workflow-spec/
pub mod Domain
pub mod BindingRefs
