-- ===== src/Core/Waits.antt =====
-- src/core/repositories/waits.repository.ts, its queries, and `signal_wait` of
-- src/core/database/schema.sql
use Prim.Native.String.{count}
use workflow_spec.Prelude.{
  ℕ, suc, String, Bool, true, false, ◌&&◌, ◌||◌, List, [], ◌∷◌, ◌++◌, Option, none, some, ltb, ◌==◌,
  string_eq, nat_eq, if◌then◌else◌, select, first, update_where,
}
use workflow_spec.Shared.Errors.{core_wait_no_row_returned, core_wait_key_too_long, fatal}
use workflow_spec.Shared.Transaction.{ok, aborted, throw, gets, ◌>>=◌}
use workflow_spec.Core.Domain.{Wait, queued}
use workflow_spec.Core.Db.{Db, Query, row_or_throw}
use workflow_spec.Core.Executions.{has_id, is_waiting, set_status}

-- WAIT_KEY_MAX_LENGTH
abbrev pub wait_key_max_length : ℕ
wait_key_max_length = 256

-- `key.length` is in UTF-16 units and `length(key)` in characters: `length` stands for the first.
abbrev pub key_too_long : (String → ℕ) → Option String → Bool
key_too_long size none = false
key_too_long size (some k) = ltb wait_key_max_length (size k)

-- The CHECK constraints of `waits`, and its reference to an execution.
abbrev pub accepts_wait : ℕ → Option String → Option ℕ → Db → Bool
accepts_wait execution_id wait_key wake_at db =
    (elim wait_key [ none ↦ false | some _ ↦ true ]
      || elim wake_at [ none ↦ false | some _ ↦ true ])
    && (if key_too_long count wait_key then false else true)
    && elim (first (has_id execution_id) db.executions) [ none ↦ false | some _ ↦ true ]

-- SQL_INSERT_WAIT
unfoldable pub sql_insert : ℕ → Option String → Option ℕ → Query (Option Wait)
sql_insert execution_id wait_key wake_at db =
    let row : Wait = record {
      id = db.next_wait_id;
      execution_id = execution_id;
      wait_key = wait_key;
      wake_at = wake_at;
      satisfied_at = none;
      created_at = db.now;
    } in
    if accepts_wait execution_id wait_key wake_at db
    then ok (some row)
        (record db { waits = db.waits ++ (row ∷ []); next_wait_id = suc db.next_wait_id })
    else aborted

-- Pending, and waiting for this key.
abbrev pub pending_on : String → Wait → Bool
pending_on key w =
    elim w.wait_key [ none ↦ false | some k ↦ k == key ]
    && elim w.satisfied_at [ none ↦ true | some _ ↦ false ]

-- One round of the loop of `signal_wait`.
abbrev pub satisfy : Wait → Db → Db
satisfy w db =
    set_status (λ e. has_id w.execution_id e && is_waiting e.status) queued
      (record db {
        waits =
            update_where (λ (v : Wait). v.id == w.id) (λ v. record v { satisfied_at = some db.now })
              db.waits;
      })

unfoldable pub satisfy_all : List Wait → Db → Db
unfolding set_status
satisfy_all [] db = db
satisfy_all (w ∷ ws) db = satisfy_all ws (satisfy w db)

-- SQL_SIGNAL_WAIT, as one transaction runs it alone: no candidate is satisfied in between.
unfoldable pub signal : String → Query (List Wait)
unfolding satisfy_all
signal key db =
    let candidates = select (pending_on key) db.waits in
    ok (update_where (λ _. true) (λ (w : Wait). record w { satisfied_at = some db.now }) candidates)
      (satisfy_all candidates db)

module _ (size : String → ℕ) where
  unfoldable pub create : ℕ → Option String → Option ℕ → Query Wait
  unfolding sql_insert
  create execution_id wait_key wake_at =
      if key_too_long size wait_key then throw (fatal core_wait_key_too_long) else (do
        row ← sql_insert execution_id wait_key wake_at
        row_or_throw core_wait_no_row_returned row)

unfoldable pub find_by_execution_id : ℕ → Query (List Wait)
find_by_execution_id execution_id =
    gets (λ db. select (λ (w : Wait). w.execution_id == execution_id) db.waits)
