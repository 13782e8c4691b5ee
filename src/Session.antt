-- ===== src/Session.antt =====
-- src/session/session-log.ts
pub mod Rows
pub mod Steps
pub mod Refinement
pub mod Rewind
pub mod Machine
mod Tests
use workflow_spec.Prelude.{ℕ, ◌+◌, ℤ, pos, negsuc, String, List, ltb, ◌==◌, nat_eq, if◌then◌else◌}
use workflow_spec.Json.{Json}
use workflow_spec.Shared.Errors.{session_rewind_target_out_of_range, fatal}
use workflow_spec.Shared.Transaction.{pure, throw, ◌>>=◌, ◌>>◌}
use workflow_spec.Core.Domain.{SessionLogEntry, SessionPointer}
use workflow_spec.Core.Db.{Query}
use workflow_spec.Core.SessionLog
use workflow_spec.Core.SessionPointer

unfoldable pub append_entry : String → Json → Query SessionLogEntry
append_entry session_id input = do
  pointer ← SessionPointer.lock session_id
  SessionLog.delete_after session_id pointer.current_sequence
  let next_sequence = pointer.current_sequence + 1
  entry ← SessionLog.append session_id next_sequence input
  SessionPointer.set_sequence session_id next_sequence
  pure entry

rewind_to : String → ℕ → SessionPointer → Query SessionPointer
rewind_to session_id target pointer =
    if ltb pointer.current_sequence target
    then throw (fatal session_rewind_target_out_of_range)
    else if target == pointer.current_sequence
    then pure pointer
    else SessionPointer.set_sequence session_id target

-- The target is a number of the caller's, and may be negative.
unfoldable pub rewind_session : String → ℤ → Query SessionPointer
unfolding rewind_to
rewind_session session_id target = do
  pointer ← SessionPointer.lock session_id
  elim target [
    | negsuc _ ↦ throw (fatal session_rewind_target_out_of_range)
    | pos n ↦ rewind_to session_id n pointer
  ]

unfoldable pub replay_session : String → Query (List SessionLogEntry)
replay_session session_id = SessionLog.list_live session_id
