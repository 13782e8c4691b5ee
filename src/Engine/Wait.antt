-- ===== src/Engine/Wait.antt =====
-- src/engine/wait.ts
use workflow_spec.Prelude.{ℕ, String, List, Option}
use workflow_spec.Shared.Transaction.{pure, ◌>>=◌, ◌>>◌}
use workflow_spec.Core.Domain
use workflow_spec.Core.Db.{Query}
use workflow_spec.Core.Executions
use workflow_spec.Core.Waits

-- `size` is the length of a JavaScript string, in UTF-16 units.
unfoldable pub wait_for : (size : String → ℕ) → ℕ → Option String → Option ℕ → Query Domain.Wait
wait_for size execution_id wait_key wake_at = do
  wait ← Waits.create size execution_id wait_key wake_at
  Executions.mark_waiting execution_id
  pure wait

unfoldable pub signal_wait : String → Query (List Domain.Wait)
signal_wait wait_key = Waits.signal wait_key
