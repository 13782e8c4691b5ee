-- ===== src/Session/Rewind.antt =====
-- `rewind_session` on a session's list of inputs: it keeps a first part, and deletes no row.
use native.Mathlib.Decide.{dec_lt}
use native.Mathlib.Nat.{le_refl}
use workflow_spec.Prelude.{
  ℕ, ◌≤◌, ◌<◌, ℤ, pos, negsuc, ◌≡◌, refl, ap, sym, ◌∙◌, String, arith, ◌==◌, string_eq,
  if◌then◌else◌, length, subst, take, take_all, take-take,
}
use workflow_spec.Shared.Errors.{session_rewind_target_out_of_range, fatal}
use workflow_spec.Shared.Transaction.{ok, thrown}
use workflow_spec.Core.Domain.{SessionLogEntry, SessionPointer}
use workflow_spec.Core.Db.{Db}
use workflow_spec.Session.{rewind_session}
use workflow_spec.Session.Rows.{current}
use workflow_spec.Session.Steps.{
  rows, IsValid, lock_lem, set_sequence_lem, pointer_of, with_pointer, set_pointers,
  current-set_pointers, current-with_pointer, current-pointer_of,
}
use workflow_spec.Session.Refinement.{live, history, history-live, length-history, map-take}

-- The databases that `rewind_session` can leave: the rows stay, and so do the other pointers.
record IsRewound (s : String) (n : ℕ) (db db' : Db) : Type 0 where
  same_log : db'.session_log ≡ db.session_log
  pointers :
      (t : String)
      → current t db'.session_pointer ≡ (if t == s then n else current t db.session_pointer)

IsValid-rewound :
    (s : String) (n : ℕ) (db db' : Db)
    → IsRewound s n db db'
    → n ≤ current s db.session_pointer
    → IsValid db
    → IsValid db'
IsValid-rewound s n db db' r le v = record {
  numbered = λ t. rw r.same_log (v.numbered t);
  reached = λ t. rw (r.same_log, r.pointers t) (ground (arith, v.reached t));
}

history-rewound :
    (s t : String) (n : ℕ) (db db' : Db)
    → IsRewound s n db db'
    → n ≤ current s db.session_pointer
    → IsValid db
    → history t db' ≡ (if t == s then take n (history s db) else history t db)
history-rewound s t n db db' r le v =
    history-live t db' (IsValid-rewound s n db db' r le v)
    ∙ rw (r.same_log, r.pointers t)
        (ground (
          arith,
          history-live s db v,
          history-live t db v,
          map-take (λ (e : SessionLogEntry). e.input) n (live s db),
          take-take n (current s db.session_pointer) (rows s db) le,
        ))

rewind-to_lower :
    (s : String) (n : ℕ) (db : Db)
    → n < current s db.session_pointer
    → rewind_session s (pos n) db
      ≡ ok
          (record (pointer_of s db) { current_sequence = n; updated_at = db.now })
          (record db { session_pointer = set_pointers s n db })
unfolding rewind_session
rewind-to_lower s n db lt = ground (
  arith,
  lock_lem s db,
  current-pointer_of s db,
  set_sequence_lem s n db (with_pointer s db) refl refl,
)

rewind-to_current :
    (s : String) (n : ℕ) (db : Db)
    → n ≡ current s db.session_pointer
    → rewind_session s (pos n) db ≡ ok (pointer_of s db) (with_pointer s db)
unfolding rewind_session
rewind-to_current s n db e = ground (arith, lock_lem s db, current-pointer_of s db)

IsRewound-lower :
    (s : String) (n : ℕ) (db : Db)
    → IsRewound s n db (record db { session_pointer = set_pointers s n db })
IsRewound-lower s n db = record { same_log = refl; pointers = λ t. current-set_pointers s t n db }

IsRewound-current :
    (s : String) (n : ℕ) (db : Db)
    → n ≡ current s db.session_pointer
    → IsRewound s n db (with_pointer s db)
IsRewound-current s n db e = record {
  same_log = refl;
  pointers = λ t. ground (arith, current-with_pointer s t db);
}

-- What a rewind of `s` to `n` that goes through leaves.
record Rewinds (s : String) (n : ℕ) (db : Db) : Type 0 where
  pub pointer : SessionPointer
  pub db' : Db
  pub result : rewind_session s (pos n) db ≡ ok pointer db'
  pub at : pointer.current_sequence ≡ n
  pub rewound : IsRewound s n db db'

rewinds : (s : String) (n : ℕ) (db : Db) → n ≤ current s db.session_pointer → Rewinds s n db
rewinds s n db le = elim (dec_lt n (current s db.session_pointer)) [
  | yes lt ↦ record {
    pointer = record (pointer_of s db) { current_sequence = n; updated_at = db.now };
    db' = record db { session_pointer = set_pointers s n db };
    result = rewind-to_lower s n db lt;
    at = refl;
    rewound = IsRewound-lower s n db;
  }
  | no ge ↦
      let e : n ≡ current s db.session_pointer = omega arith in
      record {
        pointer = pointer_of s db;
        db' = with_pointer s db;
        result = rewind-to_current s n db e;
        at = current-pointer_of s db ∙ sym e;
        rewound = IsRewound-current s n db e;
      }
]

-- In a valid database a rewind to a length within the history goes through, returns a pointer at
-- that length, cuts this session's history there, leaves every other session's history and every
-- row of the log as they were, and leaves a valid database.
pub rewind_session-refines :
    (s : String) (n : ℕ) (db : Db)
    → IsValid db
    → n ≤ length (history s db)
    → (p : SessionPointer) × (db' : Db) × (rewind_session s (pos n) db ≡ ok p db')
      × (p.current_sequence ≡ n)
      × ((t : String) → history t db' ≡ (if t == s then take n (history t db) else history t db))
      × (db'.session_log ≡ db.session_log)
      × IsValid db'
rewind_session-refines s n db v le =
    let le' : n ≤ current s db.session_pointer = omega (arith, length-history s db v) in
    let r = rewinds s n db le' in
    (
      r.pointer,
      r.db',
      r.result,
      r.at,
      λ t. ground (
        arith,
        history-rewound s t n db r.db' r.rewound le' v,
        ap (λ u. history u db) {x = t} {y = s},
      ),
      r.rewound.same_log,
      IsValid-rewound s n db r.db' r.rewound le' v,
    )

-- A target before 0 or past a history of `n` inputs.
abbrev pub OutOfRange : ℤ → ℕ → Type 0
OutOfRange (negsuc _) n = Unit
OutOfRange (pos k) n = n < k

rewind-OutOfRange :
    (s : String) (target : ℤ) (db : Db)
    → OutOfRange target (current s db.session_pointer)
    → rewind_session s target db
      ≡ thrown (fatal session_rewind_target_out_of_range) (with_pointer s db)
unfolding rewind_session
rewind-OutOfRange s (negsuc k) db h = ground (arith, lock_lem s db)
rewind-OutOfRange s (pos k) db h = ground (arith, lock_lem s db, current-pointer_of s db)

-- In a valid database a rewind to a target out of range throws the fatal error for it, and every
-- session's history and the validity of the database stay.
pub rewind_session_error :
    (s : String) (target : ℤ) (db : Db)
    → IsValid db
    → OutOfRange target (length (history s db))
    → (db' : Db) × (rewind_session s target db
        ≡ thrown (fatal session_rewind_target_out_of_range) db')
      × ((t : String) → history t db' ≡ history t db)
      × IsValid db'
rewind_session_error s target db v out =
    let c = current s db.session_pointer in
    let same = IsRewound-current s c db refl in
    (
      with_pointer s db,
      rewind-OutOfRange s target db (subst (OutOfRange target) (length-history s db v) out),
      λ t. history-unmoved t,
      IsValid-rewound s c db (with_pointer s db) same (le_refl c) v,
    )
  where
    history-unmoved : (t : String) → history t (with_pointer s db) ≡ history t db
    history-unmoved t =
        let c = current s db.session_pointer in
        ground (
          arith,
          history-rewound s t c db (with_pointer s db) (IsRewound-current s c db refl) (le_refl c)
              v,
          take_all c (history s db) (omega (arith, length-history s db v)),
        )
