-- ===== src/Session/Tests.antt =====
-- Sessions at concrete inputs.
use workflow_spec.Prelude.{
  ◌+◌, pos, negsuc, ◌≡◌, ◌≤◌, refl, ap, ℕ_discrete, String, List, [], ◌∷◌, ◌++◌, arith, length,
  take, string_eq, ◌==◌, if◌then◌else◌,
}
use workflow_spec.Json.{null, str}
use workflow_spec.Shared.Errors.{session_rewind_target_out_of_range, fatal}
use workflow_spec.Shared.Transaction.{ok, thrown}
use workflow_spec.Core.Domain.{SessionLogEntry, SessionPointer}
use workflow_spec.Core.Db.{Db}
use workflow_spec.Core.SessionLog
use workflow_spec.Core.SessionPointer
use workflow_spec.Session.{append_entry, rewind_session, replay_session}
use workflow_spec.Session.Rows.{current}
use workflow_spec.Session.Steps.{IsValid}
use workflow_spec.Session.Refinement.{history, append_entry-refines}
use workflow_spec.Session.Rewind.{rewind_session-refines, rewind_session_error}
use workflow_spec.Session.Machine.{
  append, rewind, Op, perform, perform_all, spec_all, perform_all-refines,
}
use workflow_spec.Samples.{empty_db}

empty_db-IsValid : IsValid empty_db
unfolding current
empty_db-IsValid = record { numbered = λ t. tt; reached = λ t. omega arith }

abbrev script : List Op
script =
    append "s" (str "a")
    ∷ append "s" (str "b")
    ∷ rewind "s" (pos 1)
    ∷ append "s" (str "c")
    ∷ append "t" null
    ∷ rewind "s" (negsuc 0)
    ∷ []

program : Unit {0}
unfolding perform perform_all append_entry rewind_session replay_session string_eq ℕ_discrete
    SessionPointer.lock SessionPointer.set_sequence SessionLog.append SessionLog.delete_after
    SessionLog.list_live SessionLog.sql_find_live SessionLog.order_by_sequence
    SessionLog.insert_by_sequence SessionLog.sql_insert_session_log_entry
    SessionLog.sql_delete_after SessionPointer.sql_lock_or_create_pointer
    SessionPointer.sql_set_pointer_sequence
program = tt

script_runs : history "s" (perform_all script empty_db) ≡ str "a" ∷ str "c" ∷ []
unfolding program
script_runs = refl

append_entry-refines_example :
    (e : SessionLogEntry) × (db' : Db) × (append_entry "s" null empty_db ≡ ok e db')
    × (e.sequence ≡ length (history "s" empty_db) + 1)
    × ((t : String)
        → history t db'
          ≡ (if t == "s" then history t empty_db ++ (null ∷ []) else history t empty_db))
    × IsValid db'
append_entry-refines_example = append_entry-refines "s" null empty_db empty_db-IsValid

abbrev two_entries : Db
two_entries = perform_all (append "s" (str "a") ∷ append "s" (str "b") ∷ []) empty_db

two_entries-IsValid : IsValid two_entries
two_entries-IsValid =
    (perform_all-refines (append "s" (str "a") ∷ append "s" (str "b") ∷ []) empty_db
      empty_db-IsValid).0

two_inputs : history "s" two_entries ≡ str "a" ∷ str "b" ∷ []
unfolding program
two_inputs = refl

one-le-history : 1 ≤ length (history "s" two_entries)
one-le-history = omega (arith, ap length two_inputs)

rewind_session-refines_example :
    (p : SessionPointer) × (db' : Db) × (rewind_session "s" (pos 1) two_entries ≡ ok p db')
    × (p.current_sequence ≡ 1)
    × ((t : String)
        → history t db'
          ≡ (if t == "s" then take 1 (history t two_entries) else history t two_entries))
    × (db'.session_log ≡ two_entries.session_log)
    × IsValid db'
rewind_session-refines_example =
    rewind_session-refines "s" 1 two_entries two_entries-IsValid one-le-history

rewind_session_error_example :
    (db' : Db) × (rewind_session "s" (negsuc 0) empty_db
      ≡ thrown (fatal session_rewind_target_out_of_range) db')
    × ((t : String) → history t db' ≡ history t empty_db)
    × IsValid db'
rewind_session_error_example = rewind_session_error "s" (negsuc 0) empty_db empty_db-IsValid tt

perform_all-refines_example :
    IsValid (perform_all script empty_db)
    × ((t : String)
        → history t (perform_all script empty_db) ≡ spec_all script (λ u. history u empty_db) t)
perform_all-refines_example = perform_all-refines script empty_db empty_db-IsValid
