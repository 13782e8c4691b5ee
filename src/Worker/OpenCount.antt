-- ===== src/Worker/OpenCount.antt =====
-- How many executions are open.
use workflow_spec.Prelude.{
  ℕ, ◌+◌, ◌≤◌, ◌<◌, ◌≡◌, refl, Bool, true, false, not, ◌&&◌, List, [], ◌∷◌, map, nat_eq, arith, All,
  Distinct, contains, any, update_where, if-both, Bool-cases, inl, inr,
}
use workflow_spec.Core.Domain.{Execution}
use workflow_spec.Core.Db.{Db}
use workflow_spec.Core.Executions
use workflow_spec.Core.Executions.{claimable, claimed, least, default_lease_seconds}
use workflow_spec.Worker.Advancing.{is_open, Advances, Closed}

abbrev pub ids : List Execution → List ℕ
ids es = map (λ (e : Execution). e.id) es

abbrev pub one_if : Bool → ℕ
one_if true = 1
one_if false = 0

-- How many executions are neither done nor failed.
abbrev pub open_count : List Execution → ℕ
open_count [] = 0
open_count (e ∷ es) = one_if (is_open e.status) + open_count es

pub Advances-ids : (es fs : List Execution) → Advances es fs → ids fs ≡ ids es
Advances-ids [] [] a = refl
Advances-ids [] (f ∷ fs) a = absurd a
Advances-ids (e ∷ es) [] a = absurd a
Advances-ids (e ∷ es) (f ∷ fs) a = ground (arith, a.0, Advances-ids es fs a.2)

pub open_count-Advances : (es fs : List Execution) → Advances es fs → open_count fs ≤ open_count es
open_count-Advances [] [] a = omega arith
open_count-Advances [] (f ∷ fs) a = absurd a
open_count-Advances (e ∷ es) [] a = absurd a
open_count-Advances (e ∷ es) (f ∷ fs) a = ground (arith, a.1, open_count-Advances es fs a.2)

-- An execution that is open, and closed later on.
pub open_count-Closed :
    (i : ℕ) (es fs : List Execution)
    → Advances es fs
    → Closed i fs
    → any (λ e. Executions.has_id i e && is_open e.status) es ≡ true
    → open_count fs < open_count es
open_count-Closed i [] fs a closed there = absurd (cc there)
open_count-Closed i (e ∷ es) [] a closed there = absurd a
open_count-Closed i (e ∷ es) (f ∷ fs) a closed there = ground (
  arith,
  a.0,
  a.1,
  closed.0,
  there,
  open_count-Advances es fs a.2,
  open_count-Closed i es fs a.2 closed.1,
)

module _ (i : ℕ) (p : Execution → Bool) where
  none_there :
      (es : List Execution)
      → contains (ids es) i ≡ false
      → (any (λ f. Executions.has_id i f && p f) es ≡ false)
        × All (λ f. (Executions.has_id i f && not (p f)) ≡ false) es
  none_there [] h = (refl, tt)
  none_there (e ∷ es) h =
      let (a, b) = none_there es (ground (arith, h)) in
      (ground (arith, h, a), (ground (arith, h), b))

  -- The row with a key that passes a test is the only one with it.
  pub only_there :
      (es : List Execution)
      → Distinct (ids es)
      → any (λ f. Executions.has_id i f && p f) es ≡ true
      → All (λ f. (Executions.has_id i f && not (p f)) ≡ false) es
  only_there [] distinct there = tt
  only_there (e ∷ es) distinct there = elim (Bool-cases (Executions.has_id i e)) [
    | inl here ↦
        let (gone, rest) = none_there es (ground (arith, distinct.0, here)) in
        (ground (arith, there, gone), rest)
    | inr other ↦ (ground (arith, other), only_there es distinct.1 (ground (arith, there, other)))
  ]

pub claimable-is_open : (db : Db) (e : Execution) → claimable db e ≡ true → is_open e.status ≡ true
unfolding claimable
claimable-is_open db e h = ground (arith, h)

module _ (p : Execution → Bool) (f : Execution → Execution) where
  pub Advances-update_open :
      (es : List Execution)
      → ((e : Execution) → (f e).id ≡ e.id)
      → All (λ e. (p e && not (is_open e.status)) ≡ false) es
      → Advances es (update_where p f es)
  Advances-update_open [] id opens = tt
  Advances-update_open (e ∷ es) id opens =
      if-both
        (λ (x : Execution).
          (x.id ≡ e.id)
          × ((is_open x.status && not (is_open e.status)) ≡ false)
          × Advances es (update_where p f es))
        (p e) _ _ (λ is. (id e, ground (arith, is, opens.0), Advances-update_open es id opens.1))
        (λ no. (refl, ground arith, Advances-update_open es id opens.1))

module _ (i : ℕ) (p : Execution → Bool) (f : Execution → Execution) where
  pub any-update :
      (es : List Execution)
      → ((e : Execution) → ((f e).id ≡ e.id) × (is_open (f e).status ≡ true))
      → any (λ e. Executions.has_id i e && p e) es ≡ true
      → any
          (λ e. Executions.has_id i e && is_open e.status)
          (update_where (Executions.has_id i) f es)
        ≡ true
  any-update [] opens there = absurd (cc there)
  any-update (e ∷ es) opens there = elim (Bool-cases (Executions.has_id i e)) [
    | inl here ↦ ground (arith, here, (opens e).0, (opens e).1)
    | inr other ↦ ground (arith, other, any-update es opens (ground (arith, there, other)))
  ]
