-- ===== src/Core/SessionPointer.antt =====
-- src/core/repositories/session-pointer.repository.ts and its queries
use workflow_spec.Prelude.{
  ℕ, String, List, [], ◌∷◌, ◌++◌, Option, none, some, ◌==◌, string_eq, first, update_where,
}
use workflow_spec.Shared.Errors.{core_session_pointer_no_row_returned}
use workflow_spec.Shared.Transaction.{ok, ◌>>=◌}
use workflow_spec.Core.Domain.{SessionPointer}
use workflow_spec.Core.Db.{Query, row_or_throw}

abbrev pub find_pointer : String → List SessionPointer → Option SessionPointer
find_pointer session_id = first (λ p. p.session_id == session_id)

-- SQL_LOCK_OR_CREATE_SESSION_POINTER. The update on a conflict changes nothing but takes the lock.
unfoldable pub sql_lock_or_create_pointer : String → Query (Option SessionPointer)
sql_lock_or_create_pointer session_id db = elim (find_pointer session_id db.session_pointer) [
  | some p ↦ ok (some p) db
  | none ↦
      let row : SessionPointer = record {
        session_id = session_id;
        current_sequence = 0;
        updated_at = db.now;
      } in
      ok (some row) (record db { session_pointer = db.session_pointer ++ (row ∷ []) })
]

-- SQL_SET_SESSION_POINTER_SEQUENCE
unfoldable pub sql_set_pointer_sequence : String → ℕ → Query (Option SessionPointer)
sql_set_pointer_sequence session_id sequence db =
    let pointers =
      update_where (λ (p : SessionPointer). p.session_id == session_id)
        (λ p. record p { current_sequence = sequence; updated_at = db.now }) db.session_pointer in
    ok (find_pointer session_id pointers) (record db { session_pointer = pointers })

unfoldable pub lock : String → Query SessionPointer
lock session_id = do
  row ← sql_lock_or_create_pointer session_id
  row_or_throw core_session_pointer_no_row_returned row

unfoldable pub set_sequence : String → ℕ → Query SessionPointer
set_sequence session_id sequence = do
  row ← sql_set_pointer_sequence session_id sequence
  row_or_throw core_session_pointer_no_row_returned row
