-- ===== src/Core/Domain.antt =====
-- src/core/domain/: the rows of the tables of src/core/database/schema.sql. A time is in
-- milliseconds, and a BIGINT is a number.
use workflow_spec.Prelude.{ℕ, String, Bool, Option}
use workflow_spec.Json.{Json}
use workflow_spec.WorkflowSpec.Domain.{WorkflowSpec, Interactivity}
use workflow_spec.Core.Ratio.{Ratio}

pub data ExecutionStatus : Type 0 where
  blocked queued running waiting done failed : ExecutionStatus

pub record Execution : Type 0 where
  pub id : ℕ
  pub session_id : String
  pub step : String
  pub input : Json
  pub status : ExecutionStatus
  pub worker_id : Option String
  pub lease_until : Option ℕ
  pub attempts : ℕ
  pub created_at : ℕ
  pub updated_at : ℕ
  pub run_id : Option ℕ

pub record Checkpoint : Type 0 where
  pub execution_id : ℕ
  pub step_id : String
  pub output : Json
  pub committed_at : ℕ

pub record Wait : Type 0 where
  pub id : ℕ
  pub execution_id : ℕ
  pub wait_key : Option String
  pub wake_at : Option ℕ
  pub satisfied_at : Option ℕ
  pub created_at : ℕ

pub record SessionLogEntry : Type 0 where
  pub id : ℕ
  pub session_id : String
  pub sequence : ℕ
  pub input : Json
  pub created_at : ℕ

pub record SessionPointer : Type 0 where
  pub session_id : String
  pub current_sequence : ℕ
  pub updated_at : ℕ

pub data CostClass : Type 0 where
  trivial cheap moderate expensive : CostClass

pub record Placement : Type 0 where
  pub content_hash : String
  pub replica_id : Option String
  pub session_id : Option String
  pub pinned : Bool
  pub pinned_at : Option ℕ
  pub interactivity : Interactivity
  pub access_count : ℕ
  pub first_accessed_at : Option ℕ
  pub last_accessed_at : Option ℕ
  pub declared_cost_class : Option CostClass
  pub observed_rehydration_ms : Option Ratio
  pub observed_sample_count : ℕ
  pub size_bytes : ℕ
  pub created_at : ℕ
  pub updated_at : ℕ

-- A row of `placement_access`.
pub record PlacementAccess : Type 0 where
  pub content_hash : String
  pub accessed_at : ℕ

pub record PlacementConfig : Type 0 where
  pub frequency_threshold : ℕ
  pub frequency_window_ms : ℕ
  pub rehydration_cost_threshold_ms : Ratio
  pub idle_threshold_ms : ℕ
  pub pinned_budget_bytes : ℕ
  pub observed_min_samples : ℕ
  pub class_priors_ms : CostClass → Ratio

pub data WorkflowRunStatus : Type 0 where
  running done failed : WorkflowRunStatus

-- `spec` is a `WorkflowSpec` that the table stores as JSON.
pub record WorkflowRun : Type 0 where
  pub id : ℕ
  pub session_id : Option String
  pub spec : WorkflowSpec
  pub input : Json
  pub status : WorkflowRunStatus
  pub created_at : ℕ
  pub updated_at : ℕ

pub record RunNodeOutput : Type 0 where
  pub run_id : ℕ
  pub node_id : String
  pub output : Json
  pub completed_at : ℕ
