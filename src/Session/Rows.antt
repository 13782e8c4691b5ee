-- ===== src/Session/Rows.antt =====
-- The rows of one session in the log, and what the statements of the repositories do to them.
use workflow_spec.Prelude.{
  ℕ, zero, suc, ◌+◌, ◌≤◌, ◌<◌, ◌≡◌, refl, ap, ◌∙◌, String, Bool, false, not, ◌&&◌, List, [], ◌∷◌,
  ◌++◌, Option, none, some, arith, ltb, leb, ◌==◌, string_eq, nat_eq, if◌then◌else◌, select, first,
  length, take, update_where,
}
use mathlib.Core.Option
use mathlib.Core.Path.{fun_ext}
use workflow_spec.Core.Domain.{SessionLogEntry, SessionPointer}
use workflow_spec.Core.SessionPointer.{find_pointer}
use workflow_spec.Core.SessionLog.{
  of_session, has_sequence, within, insert_by_sequence, order_by_sequence,
}

-- The sequences of the entries are n, n + 1, and so on.
abbrev pub Consecutive : ℕ → List SessionLogEntry → Type 0
Consecutive n [] = Unit
Consecutive n (e ∷ es) = (e.sequence ≡ n) × Consecutive (suc n) es

pub Consecutive-take :
    (k n : ℕ) (es : List SessionLogEntry) → Consecutive n es → Consecutive n (take k es)
Consecutive-take zero n es h = tt
Consecutive-take (suc k) n [] h = tt
Consecutive-take (suc k) n (e ∷ es) h = (h.0, Consecutive-take k (suc n) es h.1)

pub Consecutive-snoc :
    (n : ℕ) (es : List SessionLogEntry) (e : SessionLogEntry)
    → Consecutive n es
    → e.sequence ≡ n + length es
    → Consecutive n (es ++ (e ∷ []))
Consecutive-snoc n [] e h q = (omega arith, tt)
Consecutive-snoc n (x ∷ es) e h q = (h.0, Consecutive-snoc (suc n) es e h.1 (omega arith))

-- Entries behind `c` are all dropped.
select-behind :
    (c n : ℕ) (es : List SessionLogEntry)
    → c < n
    → Consecutive n es
    → select (λ e. not (ltb c e.sequence)) es ≡ []
select-behind c n [] lt h = refl
select-behind c n (e ∷ es) lt h = ground (arith, select-behind c (suc n) es)

pub select-take :
    (k n c : ℕ) (es : List SessionLogEntry)
    → c ≡ n + k
    → Consecutive (suc n) es
    → select (λ e. not (ltb c e.sequence)) es ≡ take k es
select-take zero n c es q h = select-behind c (suc n) es (omega arith) h
select-take (suc k) n c [] q h = refl
select-take (suc k) n c (e ∷ es) q h = ground (arith, select-take k (suc n) c es)

not-ltb : (c n : ℕ) → leb n c ≡ not (ltb c n)
not-ltb c n = ground arith

select_none {ℓ} : {A : Type ℓ} (xs : List A) → select (λ _. false) xs ≡ []
select_none [] = refl
select_none (x ∷ xs) = select_none xs

-- The rows up to a pointer.
pub select-within :
    (o : Option SessionPointer) (es : List SessionLogEntry)
    → Consecutive 1 es
    → select (within o) es ≡ take (elim o [ none ↦ 0 | some p ↦ p.current_sequence ]) es
select-within none es h = select_none es
select-within (some p) es h =
    let c = p.current_sequence in
    ap (λ f. select f es) (fun_ext (λ e. not-ltb c e.sequence))
    ∙ select-take c 0 c es (omega arith) h

-- Deleting behind `c` in one session selects within that session, and leaves the others alone.
pub of_session-delete_after :
    (session_id t : String) (c : ℕ) (es : List SessionLogEntry)
    → of_session t (select (λ e. not (e.session_id == session_id && ltb c e.sequence)) es) ≡ (
        if t == session_id
        then select (λ e. not (ltb c e.sequence)) (of_session t es)
        else of_session t es)
of_session-delete_after session_id t c [] = ground arith
of_session-delete_after session_id t c (e ∷ es) =
    ground (arith, of_session-delete_after session_id t c es)

-- The rows that `sql_find_live` reads, by session first.
pub select-of_session :
    (p : SessionLogEntry → Bool) (t : String) (es : List SessionLogEntry)
    → select (λ e. e.session_id == t && p e) es ≡ select p (of_session t es)
select-of_session p t [] = refl
select-of_session p t (e ∷ es) = ground (arith, select-of_session p t es)

pub first-has_sequence :
    (t : String) (q : ℕ) (es : List SessionLogEntry)
    → first (has_sequence t q) es ≡ first (λ e. e.sequence == q) (of_session t es)
first-has_sequence t q [] = refl
first-has_sequence t q (e ∷ es) = ground (arith, first-has_sequence t q es)

-- No entry has the next sequence.
pub first-next_sequence :
    (n q : ℕ) (es : List SessionLogEntry)
    → Consecutive n es
    → n + length es ≤ q
    → first (λ e. e.sequence == q) es ≡ none
first-next_sequence n q [] h le = refl
first-next_sequence n q (e ∷ es) h le = ground (arith, first-next_sequence (suc n) q es)

insert_by_sequence-least :
    (n : ℕ) (e : SessionLogEntry) (es : List SessionLogEntry)
    → e.sequence ≡ n
    → Consecutive (suc n) es
    → insert_by_sequence e es ≡ e ∷ es
unfolding insert_by_sequence
insert_by_sequence-least n e [] q h = refl
insert_by_sequence-least n e (x ∷ es) q h = ground arith

-- Consecutive rows are in the order of their sequences.
pub order_by_sequence-Consecutive :
    (n : ℕ) (es : List SessionLogEntry) → Consecutive n es → order_by_sequence es ≡ es
unfolding order_by_sequence
order_by_sequence-Consecutive n [] h = refl
order_by_sequence-Consecutive n (e ∷ es) h =
    rw (order_by_sequence-Consecutive (suc n) es h.1) (insert_by_sequence-least n e es h.0 h.1)

unfoldable pub current : String → List SessionPointer → ℕ
current session_id pointers = elim (find_pointer session_id pointers) [
  | none ↦ 0
  | some p ↦ p.current_sequence
]

-- A statement that gives `session_id` its pointer at `c`.
pub find_pointer-set :
    (session_id t : String) (c at : ℕ) (ps : List SessionPointer)
    → find_pointer t (
        update_where
          (λ (p : SessionPointer). p.session_id == session_id)
          (λ p. record p { current_sequence = c; updated_at = at })
          ps)
      ≡ (if t == session_id
          then Option.map
              (λ (p : SessionPointer). record p { current_sequence = c; updated_at = at })
              (find_pointer t ps)
          else find_pointer t ps)
find_pointer-set session_id t c at [] = ground arith
find_pointer-set session_id t c at (p ∷ ps) = ground (arith, find_pointer-set session_id t c at ps)

pub first-append {ℓ} :
    {A : Type ℓ} (p : A → Bool) (xs ys : List A)
    → first p (xs ++ ys) ≡ elim (first p xs) [ none ↦ first p ys | some a ↦ some a ]
first-append p [] ys = refl
first-append p (x ∷ xs) ys = ground (arith, first-append p xs ys)
