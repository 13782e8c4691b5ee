-- ===== src/Core/SessionLog.antt =====
-- src/core/repositories/session-log.repository.ts and its queries
use workflow_spec.Prelude.{
  ℕ, suc, String, Bool, true, false, not, ◌&&◌, List, [], ◌∷◌, ◌++◌, Option, none, some, ltb, leb,
  ◌==◌, string_eq, nat_eq, if◌then◌else◌, select, first,
}
use workflow_spec.Json.{Json}
use workflow_spec.Shared.Errors.{core_session_log_no_row_returned}
use workflow_spec.Shared.Transaction.{ok, aborted, gets, modify, ◌>>=◌}
use workflow_spec.Core.Domain.{SessionLogEntry, SessionPointer}
use workflow_spec.Core.Db.{Db, Query, row_or_throw}
use workflow_spec.Core.SessionPointer.{find_pointer}

abbrev pub has_sequence : String → ℕ → SessionLogEntry → Bool
has_sequence session_id sequence e = e.session_id == session_id && e.sequence == sequence

abbrev pub is_some {ℓ} : {A : Type ℓ} → Option A → Bool
is_some none = false
is_some (some a) = true

-- SQL_INSERT_SESSION_LOG_ENTRY, refused where UNIQUE (session_id, sequence) does not hold
unfoldable pub sql_insert_session_log_entry : String → ℕ → Json → Query (Option SessionLogEntry)
sql_insert_session_log_entry session_id sequence input db =
    if is_some (first (has_sequence session_id sequence) db.session_log)
    then aborted
    else let row : SessionLogEntry = record {
      id = db.next_session_log_id;
      session_id = session_id;
      sequence = sequence;
      input = input;
      created_at = db.now;
    } in
      ok (some row) (record db {
        session_log = db.session_log ++ (row ∷ []);
        next_session_log_id = suc db.next_session_log_id;
      })

-- SQL_DELETE_SESSION_LOG_ENTRIES_AFTER_SEQUENCE
unfoldable pub sql_delete_after : String → ℕ → Db → Db
sql_delete_after session_id sequence db = record db {
  session_log =
      select (λ e. not (e.session_id == session_id && ltb sequence e.sequence)) db.session_log;
}

-- ORDER BY sequence ASC
unfoldable pub insert_by_sequence : SessionLogEntry → List SessionLogEntry → List SessionLogEntry
insert_by_sequence e [] = e ∷ []
insert_by_sequence e (x ∷ xs) =
    if ltb x.sequence e.sequence then x ∷ insert_by_sequence e xs else e ∷ x ∷ xs

unfoldable pub order_by_sequence : List SessionLogEntry → List SessionLogEntry
order_by_sequence [] = []
order_by_sequence (x ∷ xs) = insert_by_sequence x (order_by_sequence xs)

abbrev pub of_session : String → List SessionLogEntry → List SessionLogEntry
of_session session_id = select (λ e. e.session_id == session_id)

-- SQL_FIND_SESSION_LOG_ENTRIES_BY_SESSION
unfoldable pub sql_find_by_session : String → Db → List SessionLogEntry
sql_find_by_session session_id db = order_by_sequence (of_session session_id db.session_log)

-- `sequence <= (SELECT current_sequence …)`, which no row passes where there is no pointer
abbrev pub within : Option SessionPointer → SessionLogEntry → Bool
within none e = false
within (some p) e = leb e.sequence p.current_sequence

-- SQL_FIND_LIVE_SESSION_LOG_ENTRIES
unfoldable pub sql_find_live : String → Db → List SessionLogEntry
sql_find_live session_id db = order_by_sequence (
    select
      (λ e. e.session_id == session_id && within (find_pointer session_id db.session_pointer) e)
      db.session_log)

unfoldable pub append : String → ℕ → Json → Query SessionLogEntry
append session_id sequence input = do
  row ← sql_insert_session_log_entry session_id sequence input
  row_or_throw core_session_log_no_row_returned row

unfoldable pub delete_after : String → ℕ → Query Unit
delete_after session_id after_sequence = modify (sql_delete_after session_id after_sequence)

unfoldable pub list_by_session : String → Query (List SessionLogEntry)
list_by_session session_id = gets (sql_find_by_session session_id)

unfoldable pub list_live : String → Query (List SessionLogEntry)
list_live session_id = gets (sql_find_live session_id)
