-- ===== src/Shared/Errors.antt =====
-- src/shared/errors.ts: the ids of the platform's errors, and its two classes of errors.

use mathlib.Core.Path.{◌≡◌, refl}

-- `ERROR_IDS`, spelled by its values' last words where the source has the key.
pub data ErrorId : Type 0 where
  core_enqueue_no_row_returned : ErrorId
  core_checkpoint_conflict_not_found : ErrorId
  core_wait_no_row_returned : ErrorId
  core_wait_key_too_long : ErrorId
  core_session_log_no_row_returned : ErrorId
  core_session_pointer_no_row_returned : ErrorId
  core_placement_upsert_no_row_returned : ErrorId
  core_placement_set_pinned_not_found : ErrorId
  session_rewind_target_out_of_range : ErrorId
  core_workflow_run_no_row_returned : ErrorId
  core_workflow_run_not_found : ErrorId
  core_run_node_output_no_row_returned : ErrorId
  engine_unsupported_node_kind : ErrorId
  engine_duplicate_node_id : ErrorId
  engine_run_not_found : ErrorId
  engine_node_not_found : ErrorId
  engine_binding_kind_not_supported : ErrorId
  engine_node_output_missing : ErrorId
  registry_validation_failed : ErrorId
  registry_trust_tier_invalid : ErrorId
  registry_trust_tier_unknown_digest : ErrorId
  registry_service_image_upsert_no_row_returned : ErrorId
  worker_agent_unreachable : ErrorId
  worker_invoke_request_rejected : ErrorId
  worker_invalid_arg_flag_name : ErrorId
  worker_unsafe_arg_value : ErrorId
  worker_malformed_invoke_output : ErrorId
  worker_execution_missing_run : ErrorId
  worker_invalid_heavy_binding_value : ErrorId

-- `PlatformError` by its two subclasses. The context and the cause serve logs only.
pub data PlatformError : Type 0 where
  retryable : ErrorId → PlatformError
  fatal : ErrorId → PlatformError

-- What a rejected promise holds: an error of the platform, or one that the database or the
-- runtime raised.
pub data Failure : Type 0 where
  platform : PlatformError → Failure
  database : Failure

-- What a function that reads no database returns or throws.
pub data Result {ℓ} (A : Type ℓ) : Type ℓ where
  returns : A → Result A
  throws : PlatformError → Result A

infixl 5 ◌>>=◌
abbrev pub ◌>>=◌ {ℓ κ} : {A : Type ℓ} {B : Type κ} → Result A → (A → Result B) → Result B
returns a >>= f = f a
throws e >>= f = throws e

infixl 5 ◌>>◌
abbrev pub ◌>>◌ {κ} : {B : Type κ} → Result (Unit {0}) → Result B → Result B
m >> k = m >>= λ _. k

-- A chain that returns has returned at its first link and from there on.
pub >>=-returns {ℓ κ} :
    {A : Type ℓ} {B : Type κ} (m : Result A) (f : A → Result B) (b : B)
    → (m >>= f) ≡ returns b
    → (a : A) × (m ≡ returns a) × (f a ≡ returns b)
>>=-returns (returns a) f b h = (a, refl, h)
>>=-returns (throws e) f b h = absurd (cc h)

pub returns_inj {ℓ} : {A : Type ℓ} {a b : A} → returns a ≡ returns b → a ≡ b
returns_inj h = cc h
