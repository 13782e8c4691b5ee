-- ===== src/Session/Steps.antt =====
-- What `append_entry` and `rewind_session` leave in the database, statement by statement.
use workflow_spec.Prelude.{
  ℕ, suc, ◌+◌, ◌≤◌, ◌≡◌, refl, ◌∙◌, String, not, ◌&&◌, List, [], ◌∷◌, ◌++◌, none, some, arith, ltb,
  ◌==◌, string_eq, nat_eq, if◌then◌else◌, select, first, length, length-take, take, update_where,
}
use workflow_spec.Json.{Json}
use workflow_spec.Shared.Transaction.{ok}
use workflow_spec.Core.Domain.{SessionLogEntry, SessionPointer}
use workflow_spec.Core.Db.{Db}
use workflow_spec.Core.SessionPointer
use workflow_spec.Core.SessionPointer.{find_pointer}
use workflow_spec.Core.SessionLog
use workflow_spec.Core.SessionLog.{of_session, has_sequence}
use workflow_spec.Session.{append_entry}
use workflow_spec.Session.Rows.{
  Consecutive, Consecutive-take, select-take, of_session-delete_after, first-has_sequence,
  first-next_sequence, current, find_pointer-set, first-append,
}

abbrev pub rows : String → Db → List SessionLogEntry
rows t db = of_session t db.session_log

-- Every session's rows are numbered from 1, and its pointer does not run past them.
pub record IsValid (db : Db) : Type 0 where
  pub numbered : (t : String) → Consecutive 1 (rows t db)
  pub reached : (t : String) → current t db.session_pointer ≤ length (rows t db)

abbrev new_pointer : String → Db → SessionPointer
new_pointer s db = record { session_id = s; current_sequence = 0; updated_at = db.now }

abbrev pub pointer_of : String → Db → SessionPointer
pointer_of s db = elim (find_pointer s db.session_pointer) [ some p ↦ p | none ↦ new_pointer s db ]

-- The database after `lock`.
abbrev pub with_pointer : String → Db → Db
with_pointer s db = record db {
  session_pointer = elim (find_pointer s db.session_pointer) [
    | some _ ↦ db.session_pointer
    | none ↦ db.session_pointer ++ (new_pointer s db ∷ [])
  ];
}

pub lock_lem :
    (s : String) (db : Db) → SessionPointer.lock s db ≡ ok (pointer_of s db) (with_pointer s db)
unfolding SessionPointer.lock SessionPointer.sql_lock_or_create_pointer
lock_lem s db = ground arith

pub current-pointer_of :
    (s : String) (db : Db) → (pointer_of s db).current_sequence ≡ current s db.session_pointer
unfolding current
current-pointer_of s db = ground arith

pub find_pointer-with_pointer :
    (s t : String) (db : Db)
    → find_pointer t (with_pointer s db).session_pointer
      ≡ (if t == s then some (pointer_of s db) else find_pointer t db.session_pointer)
find_pointer-with_pointer s t db = ground (
  arith,
  first-append (λ (p : SessionPointer). p.session_id == t) db.session_pointer
      (new_pointer s db ∷ []),
)

-- A new pointer stands at 0, where a session without one is read to stand.
pub current-with_pointer :
    (s t : String) (db : Db)
    → current t (with_pointer s db).session_pointer ≡ current t db.session_pointer
unfolding current
current-with_pointer s t db = ground (arith, find_pointer-with_pointer s t db)

-- The rows that the session keeps, and the new one behind them.
abbrev pub set_pointers : String → ℕ → Db → List SessionPointer
set_pointers s c db =
    update_where (λ (p : SessionPointer). p.session_id == s)
      (λ p. record p { current_sequence = c; updated_at = db.now })
      (with_pointer s db).session_pointer

pub find_pointer-set_pointers :
    (s t : String) (c : ℕ) (db : Db)
    → find_pointer t (set_pointers s c db) ≡ (
        if t == s
        then some (record (pointer_of s db) { current_sequence = c; updated_at = db.now })
        else find_pointer t db.session_pointer)
find_pointer-set_pointers s t c db = ground (
  arith,
  find_pointer-with_pointer s t db,
  find_pointer-set s t c db.now (with_pointer s db).session_pointer,
)

pub current-set_pointers :
    (s t : String) (c : ℕ) (db : Db)
    → current t (set_pointers s c db) ≡ (if t == s then c else current t db.session_pointer)
unfolding current
current-set_pointers s t c db = ground (arith, find_pointer-set_pointers s t c db)

unfoldable pub kept : String → Db → List SessionLogEntry
kept s db =
    select (λ e. not (e.session_id == s && ltb (pointer_of s db).current_sequence e.sequence))
      db.session_log

pub rows-kept :
    (s t : String) (db : Db)
    → IsValid db
    → of_session t (kept s db)
      ≡ (if t == s then take (current s db.session_pointer) (rows s db) else rows t db)
unfolding kept
rows-kept s t db v = ground (
  arith,
  of_session-delete_after s t (pointer_of s db).current_sequence db.session_log,
  current-pointer_of s db,
  select-take (current s db.session_pointer) 0 (pointer_of s db).current_sequence (rows s db)
      (current-pointer_of s db ∙ omega arith) (v.numbered s),
)

unfoldable pub new_entry : String → Json → Db → SessionLogEntry
new_entry s input db = record {
  id = db.next_session_log_id;
  session_id = s;
  sequence = (pointer_of s db).current_sequence + 1;
  input = input;
  created_at = db.now;
}

unfoldable pub appended : String → Json → Db → Db
appended s input db = record db {
  session_log = kept s db ++ (new_entry s input db ∷ []);
  next_session_log_id = suc db.next_session_log_id;
  session_pointer = set_pointers s ((pointer_of s db).current_sequence + 1) db;
}

no_conflict :
    (s : String) (db : Db)
    → IsValid db
    → first (has_sequence s ((pointer_of s db).current_sequence + 1)) (kept s db) ≡ none
no_conflict s db v =
    let c = current s db.session_pointer in
    let live : of_session s (kept s db) ≡ take c (rows s db) = ground (arith, rows-kept s s db v) in
    first-has_sequence s ((pointer_of s db).current_sequence + 1) (kept s db)
    ∙ rw live (
        first-next_sequence 1 ((pointer_of s db).current_sequence + 1) (take c (rows s db))
          (Consecutive-take c 1 (rows s db) (v.numbered s))
          (omega (arith, current-pointer_of s db, length-take c (rows s db) (v.reached s))))

pub set_sequence_lem :
    (s : String) (c : ℕ) (db0 db : Db)
    → db.session_pointer ≡ (with_pointer s db0).session_pointer
    → db.now ≡ db0.now
    → SessionPointer.set_sequence s c db
      ≡ ok
          (record (pointer_of s db0) { current_sequence = c; updated_at = db0.now })
          (record db { session_pointer = set_pointers s c db0 })
unfolding SessionPointer.set_sequence SessionPointer.sql_set_pointer_sequence
set_sequence_lem s c db0 db p q = rw (p, q) (ground (arith, find_pointer-set_pointers s s c db0))

append_lem :
    (s : String) (q : ℕ) (input : Json) (db : Db)
    → first (has_sequence s q) db.session_log ≡ none
    → let e : SessionLogEntry = record {
      id = db.next_session_log_id;
      session_id = s;
      sequence = q;
      input = input;
      created_at = db.now;
    } in
      SessionLog.append s q input db
      ≡ ok e (record db {
        session_log = db.session_log ++ (e ∷ []);
        next_session_log_id = suc db.next_session_log_id;
      })
unfolding SessionLog.append SessionLog.sql_insert_session_log_entry
append_lem s q input db h = ground arith

-- In a valid database an append always goes through.
pub append_entry-appended :
    (s : String) (input : Json) (db : Db)
    → IsValid db
    → append_entry s input db ≡ ok (new_entry s input db) (appended s input db)
unfolding append_entry SessionLog.delete_after SessionLog.sql_delete_after kept new_entry appended
append_entry-appended s input db v = ground (
  arith,
  lock_lem s db,
  append_lem s ((pointer_of s db).current_sequence + 1) input
      (record (with_pointer s db) { session_log = kept s db }),
  no_conflict s db v,
  set_sequence_lem s ((pointer_of s db).current_sequence + 1) db
      (record (with_pointer s db) {
        session_log = kept s db ++ (new_entry s input db ∷ []);
        next_session_log_id = suc db.next_session_log_id;
      })
      refl refl,
)
