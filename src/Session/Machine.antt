-- ===== src/Session/Machine.antt =====
-- Any sequence of session operations, each in a transaction of its own, against lists of inputs.
use mathlib.Core.Path.{fun_ext}
use native.Mathlib.Decide.{dec_le}
use workflow_spec.Prelude.{
  ℕ, ◌≤◌, ℤ, pos, negsuc, ◌≡◌, ◌≢◌, refl, ap, ◌∙◌, String, List, [], ◌∷◌, ◌++◌, arith, leb, le→leb,
  ◌==◌, string_eq, if◌then◌else◌, length, take,
}
use workflow_spec.Json.{Json}
use workflow_spec.Shared.Transaction.{with_transaction}
use workflow_spec.Core.Db.{Db}
use workflow_spec.Session.{append_entry, rewind_session}
use workflow_spec.Session.Steps.{IsValid}
use workflow_spec.Session.Refinement.{history, append_entry-refines}
use workflow_spec.Session.Rewind.{rewind_session-refines, OutOfRange, rewind_session_error}

pub data Op : Type 0 where
  append : (session_id : String) → (input : Json) → Op
  rewind : (session_id : String) → (target : ℤ) → Op

-- One request: the operation commits, or it is rolled back.
unfoldable pub perform : Op → Db → Db
unfolding with_transaction
perform (append s input) db = (with_transaction (append_entry s input) db).1
perform (rewind s target) db = (with_transaction (rewind_session s target) db).1

unfoldable pub perform_all : List Op → Db → Db
perform_all [] db = db
perform_all (op ∷ ops) db = perform_all ops (perform op db)

-- The specification: a list of inputs for each session.
abbrev pub Histories : Type 0
Histories = String → List Json

abbrev pub set_history : String → List Json → Histories → Histories
set_history s l h t = if t == s then l else h t

abbrev rewound_history : ℤ → List Json → List Json
rewound_history (negsuc _) l = l
rewound_history (pos n) l = if leb n (length l) then take n l else l

unfoldable pub spec_step : Op → Histories → Histories
spec_step (append s input) h = set_history s (h s ++ (input ∷ [])) h
spec_step (rewind s target) h = set_history s (rewound_history target (h s)) h

unfoldable pub spec_all : List Op → Histories → Histories
spec_all [] h = h
spec_all (op ∷ ops) h = spec_all ops (spec_step op h)

record Refines (op : Op) (db : Db) : Type 0 where
  valid : IsValid (perform op db)
  agrees : (t : String) → history t (perform op db) ≡ spec_step op (λ u. history u db) t

-- One session's new history, the others' old ones, and where the operation led.
Refines-of :
    (op : Op) (s : String) (l : List Json) (db db' : Db)
    → perform op db ≡ db'
    → IsValid db'
    → spec_step op (λ u. history u db) ≡ set_history s l (λ u. history u db)
    → history s db' ≡ l
    → ((t : String) → t ≢ s → history t db' ≡ history t db)
    → Refines op db
Refines-of op s l db db' run v' spec mine others = record {
  valid = rw run v';
  agrees = λ t.
      rw (run, spec)
        (elim (string_eq.dec t s) [
          | yes same ↦ ground (arith, mine, ap (λ u. history u db') same)
          | no other ↦ ground (arith, others t other)
        ]);
}

append-Refines : (s : String) (input : Json) (db : Db) → IsValid db → Refines (append s input) db
unfolding perform spec_step
append-Refines s input db v =
    let (e, db', run, number, after, v') = append_entry-refines s input db v in
    Refines-of (append s input) s (history s db ++ (input ∷ [])) db db' (ground (arith, run)) v'
      refl (ground (arith, after s)) (λ t ne. ground (arith, after t))

rewind_within-Refines :
    (s : String) (n : ℕ) (db : Db)
    → IsValid db
    → n ≤ length (history s db)
    → Refines (rewind s (pos n)) db
unfolding perform spec_step
rewind_within-Refines s n db v le =
    let (p, db', run, at, after, same_log, v') = rewind_session-refines s n db v le in
    Refines-of (rewind s (pos n)) s (take n (history s db)) db db' (ground (arith, run)) v'
      (rw (le→leb _ _ le)) (ground (arith, after s)) (λ t ne. ground (arith, after t))

rewind_error-Refines :
    (s : String) (target : ℤ) (db : Db)
    → IsValid db
    → OutOfRange target (length (history s db))
    → rewound_history target (history s db) ≡ history s db
    → Refines (rewind s target) db
unfolding perform spec_step
rewind_error-Refines s target db v out same =
    let (db', run, unmoved, v') = rewind_session_error s target db v out in
    Refines-of (rewind s target) s (history s db) db db (ground (arith, run)) v (rw same) refl
      (λ t ne. refl)

perform-Refines : (op : Op) (db : Db) → IsValid db → Refines op db
perform-Refines (append s input) db v = append-Refines s input db v
perform-Refines (rewind s (negsuc k)) db v = rewind_error-Refines s (negsuc k) db v tt refl
perform-Refines (rewind s (pos n)) db v = elim (dec_le n (length (history s db))) [
  | yes le ↦ rewind_within-Refines s n db v le
  | no gt ↦ rewind_error-Refines s (pos n) db v (omega arith) (ground arith)
]

-- From any valid database, whatever operations run, what each session replays is what the lists
-- of inputs give: inputs added at the end, cut by the rewinds in range, and by nothing else.
pub perform_all-refines :
    (ops : List Op) (db : Db)
    → IsValid db
    → IsValid (perform_all ops db)
      × ((t : String) → history t (perform_all ops db) ≡ spec_all ops (λ u. history u db) t)
unfolding perform_all spec_all
perform_all-refines [] db v = (v, λ t. refl)
perform_all-refines (op ∷ ops) db v =
    let step = perform-Refines op db v in
    let (v', rest) = perform_all-refines ops (perform op db) step.valid in
    (v', λ t. rest t ∙ ap (λ h. spec_all ops h t) (fun_ext step.agrees))
