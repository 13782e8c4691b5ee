-- ===== src/Session/Refinement.antt =====
-- A session as a list of inputs, what its replay returns, and `append_entry` on such lists.
use mathlib.Core.List.{map-append, append-nil}
use workflow_spec.Prelude.{
  Bool-cases, inl, inr, ℕ, zero, suc, ◌+◌, ◌≡◌, refl, ap, ◌∙◌, String, List, [], ◌∷◌, ◌++◌, map,
  arith, ◌==◌, string_eq, if◌then◌else◌, length, length-take, length-append, select-append, take,
  take_all,
}
use workflow_spec.Json.{Json}
use workflow_spec.Shared.Transaction.{Outcome, ok, thrown, aborted}
use workflow_spec.Core.Domain.{SessionLogEntry}
use workflow_spec.Core.Db.{Db}
use workflow_spec.Core.SessionPointer.{find_pointer}
use workflow_spec.Core.SessionLog
use workflow_spec.Session.{append_entry, replay_session}
use workflow_spec.Session.Rows.{
  Consecutive, Consecutive-take, Consecutive-snoc, select-of_session, select-within,
  order_by_sequence-Consecutive, current,
}
use workflow_spec.Session.Steps.{
  rows, IsValid, rows-kept, pointer_of, new_entry, appended, kept, append_entry-appended,
  current-set_pointers, current-pointer_of,
}

abbrev pub live : String → Db → List SessionLogEntry
live t db = take (current t db.session_pointer) (rows t db)

pub replay_session-live :
    (t : String) (db : Db) → IsValid db → replay_session t db ≡ ok (live t db) db
unfolding replay_session SessionLog.list_live SessionLog.sql_find_live current
replay_session-live t db v =
    ap (λ es. ok es db)
      (ap SessionLog.order_by_sequence (
          select-of_session (SessionLog.within (find_pointer t db.session_pointer)) t db.session_log
          ∙ select-within (find_pointer t db.session_pointer) (rows t db) (v.numbered t))
        ∙ order_by_sequence-Consecutive 1 (live t db)
            (Consecutive-take (current t db.session_pointer) 1 (rows t db) (v.numbered t)))

abbrev inputs : Outcome Db (List SessionLogEntry) → List Json
inputs (ok es _) = map (λ e. e.input) es
inputs (thrown _ _) = []
inputs aborted = []

abbrev pub history : String → Db → List Json
history t db = inputs (replay_session t db)

pub history-live :
    (t : String) (db : Db) → IsValid db → history t db ≡ map (λ e. e.input) (live t db)
history-live t db v = ap inputs (replay_session-live t db v)

length-map {ℓ κ} :
    {A : Type ℓ} {B : Type κ} (f : A → B) (xs : List A) → length (map f xs) ≡ length xs
length-map f [] = refl
length-map f (x ∷ xs) = ap suc (length-map f xs)

pub map-take {ℓ κ} :
    {A : Type ℓ} {B : Type κ} (f : A → B) (n : ℕ) (xs : List A)
    → map f (take n xs) ≡ take n (map f xs)
map-take f zero xs = refl
map-take f (suc n) [] = refl
map-take f (suc n) (x ∷ xs) = ap (λ ys. f x ∷ ys) (map-take f n xs)

pub length-history :
    (t : String) (db : Db) → IsValid db → length (history t db) ≡ current t db.session_pointer
length-history t db v =
    ap length (history-live t db v)
    ∙ length-map (λ (e : SessionLogEntry). e.input) (live t db)
    ∙ length-take (current t db.session_pointer) (rows t db) (v.reached t)

-- The rows of each session after an append.
rows-appended :
    (s t : String) (input : Json) (db : Db)
    → IsValid db
    → rows t (appended s input db)
      ≡ (if t == s then live s db ++ (new_entry s input db ∷ []) else rows t db)
unfolding appended new_entry
rows-appended s t input db v =
    select-append (λ e. e.session_id == t) (kept s db) (new_entry s input db ∷ [])
    ∙ ground (arith, rows-kept s t db v, append-nil (rows t db))

current-appended :
    (s t : String) (input : Json) (db : Db)
    → current t (appended s input db).session_pointer
      ≡ (if t == s then suc (current s db.session_pointer) else current t db.session_pointer)
unfolding appended
current-appended s t input db =
    current-set_pointers s t ((pointer_of s db).current_sequence + 1) db
    ∙ ground (arith, current-pointer_of s db)

pub length-live :
    (t : String) (db : Db) → IsValid db → length (live t db) ≡ current t db.session_pointer
length-live t db v = length-take (current t db.session_pointer) (rows t db) (v.reached t)

Consecutive-appended :
    (s : String) (input : Json) (db : Db)
    → IsValid db
    → Consecutive 1 (live s db ++ (new_entry s input db ∷ []))
unfolding new_entry
Consecutive-appended s input db v =
    Consecutive-snoc 1 (live s db) (new_entry s input db)
      (Consecutive-take (current s db.session_pointer) 1 (rows s db) (v.numbered s))
      (omega (arith, length-live s db v, current-pointer_of s db))

appended-IsValid :
    (s : String) (input : Json) (db : Db) → IsValid db → IsValid (appended s input db)
appended-IsValid s input db v = record {
  numbered = λ t. rw (rows-appended s t input db v) (elim (Bool-cases (t == s)) [
    | inl same ↦ rw same (Consecutive-appended s input db v)
    | inr other ↦ rw other (v.numbered t)
  ]);
  reached = λ t. rw (rows-appended s t input db v) (
      ground (
        arith,
        current-appended s t input db,
        length-append (live s db) (new_entry s input db ∷ []),
        length-live s db v,
        v.reached t,
      ));
}

live-appended :
    (s t : String) (input : Json) (db : Db)
    → IsValid db
    → live t (appended s input db)
      ≡ (if t == s then live s db ++ (new_entry s input db ∷ []) else live t db)
live-appended s t input db v = ground (
  arith,
  rows-appended s t input db v,
  current-appended s t input db,
  take_all (suc (current s db.session_pointer)) (live s db ++ (new_entry s input db ∷ []))
      (omega (arith, length-append (live s db) (new_entry s input db ∷ []), length-live s db v)),
)

history-appended :
    (s t : String) (input : Json) (db : Db)
    → IsValid db
    → history t (appended s input db)
      ≡ (if t == s then history s db ++ (input ∷ []) else history t db)
unfolding new_entry
history-appended s t input db v =
    history-live t (appended s input db) (appended-IsValid s input db v)
    ∙ ground (
      arith,
      live-appended s t input db v,
      map-append (λ (e : SessionLogEntry). e.input) (live s db) (new_entry s input db ∷ []),
      history-live s db v,
      history-live t db v,
    )

sequence-new_entry :
    (s : String) (input : Json) (db : Db)
    → IsValid db
    → (new_entry s input db).sequence ≡ length (history s db) + 1
unfolding new_entry
sequence-new_entry s input db v = omega (arith, current-pointer_of s db, length-history s db v)

-- In a valid database an append goes through, numbers its entry by the length of the history,
-- puts the input at the end of this session's history, leaves every other session's history as
-- it was, and leaves a valid database.
pub append_entry-refines :
    (s : String) (input : Json) (db : Db)
    → IsValid db
    → (e : SessionLogEntry) × (db' : Db) × (append_entry s input db ≡ ok e db')
      × (e.sequence ≡ length (history s db) + 1)
      × ((t : String)
          → history t db' ≡ (if t == s then history t db ++ (input ∷ []) else history t db))
      × IsValid db'
append_entry-refines s input db v = (
  new_entry s input db,
  appended s input db,
  append_entry-appended s input db v,
  sequence-new_entry s input db v,
  λ t. ground (arith, history-appended s t input db v, ap (λ u. history u db) {x = t} {y = s}),
  appended-IsValid s input db v,
)
