-- ===== src/Scheduler/Capacity.antt =====
-- The pinned total after an eviction.
use workflow_spec.Prelude.{
  ℕ, zero, suc, ◌-◌, ◌≤◌, ◌<◌, ◌≡◌, ◌⊎◌, inl, inr, refl, sym, String, Bool, true, false, not, ◌||◌,
  List, [], ◌∷◌, map, arith, leb, leb→le, le→leb, contains, string_eq, subst, if◌then◌else◌,
  Bool-cases, All, All-imp, select, first, take,
}
use workflow_spec.Shared.Transaction.{ok}
use workflow_spec.Core.Domain
use workflow_spec.Core.Domain.{PlacementConfig}
use workflow_spec.Core.Db.{Db}
use workflow_spec.Core.Placements
use workflow_spec.Core.Placements.{
  has_hash, with_pinned, order_by_access, insert_by_access, not_later, sql_list_pinned,
}
use workflow_spec.Scheduler.Placement.{total_bytes, evict_lru_if_over_capacity}
use workflow_spec.Scheduler.Evict.{
  Rows, drop, victims, passed, unpin, unpinned, is_row, map-unpin_none, evict_loop_lem,
}

abbrev pub pinned_rows : Rows → Rows
pinned_rows = select (λ p. p.pinned)

abbrev kept : List String → Rows → Rows
kept hs = select (λ p. not (contains hs p.content_hash))

-- Sorting keeps the sums.
kept-insert_by_access :
    (hs : List String) (p : Domain.Placement) (qs : Rows)
    → total_bytes (kept hs (insert_by_access p qs)) ≡ total_bytes (kept hs (p ∷ qs))
unfolding insert_by_access
kept-insert_by_access hs p [] = refl
kept-insert_by_access hs p (q ∷ qs) = ground (arith, kept-insert_by_access hs p qs)

kept-order_by_access :
    (hs : List String) (ps : Rows)
    → total_bytes (kept hs (order_by_access ps)) ≡ total_bytes (kept hs ps)
unfolding order_by_access
kept-order_by_access hs [] = refl
kept-order_by_access hs (p ∷ ps) =
    ground (arith, kept-insert_by_access hs p (order_by_access ps), kept-order_by_access hs ps)

pinned-unpin :
    (now : ℕ) (hs : List String) (rows : Rows)
    → total_bytes (pinned_rows (map (unpin now hs) rows)) ≡ total_bytes (kept hs (pinned_rows rows))
pinned-unpin now hs [] = refl
pinned-unpin now hs (p ∷ rows) = ground (arith, pinned-unpin now hs rows)

All-rest :
    (P : String → Type 0) (skip : Bool) (h : String) (hs : List String)
    → All P (if skip then hs else h ∷ hs)
    → All P hs
All-rest P true h hs a = a
All-rest P false h hs a = a.1

All-head :
    (hs : List String) (skip : Bool) (g : String) (gs : List String)
    → All (λ h. contains hs h ≡ true) (if skip then gs else g ∷ gs)
    → (skip || contains hs g) ≡ true
All-head hs true g gs a = refl
All-head hs false g gs a = a.0

-- What is kept comes from behind the placements passed, or has no size.
kept-le-drop :
    (hs : List String) (k : ℕ) (ps : Rows)
    → All (λ h. contains hs h ≡ true) (victims (take k ps))
    → total_bytes (kept hs ps) ≤ total_bytes (drop k ps)
kept-le-drop hs zero [] a = omega arith
kept-le-drop hs zero (p ∷ ps) a = ground (arith, kept-le-drop hs zero ps tt)
kept-le-drop hs (suc k) [] a = omega arith
kept-le-drop hs (suc k) (p ∷ ps) a =
    let skip = leb p.size_bytes 0 in
    let vs = victims (take k ps) in
    let rest = All-rest (λ h. contains hs h ≡ true) skip p.content_hash vs a in
    ground (
      arith,
      All-head hs skip p.content_hash vs a,
      leb→le p.size_bytes 0,
      kept-le-drop hs k ps rest,
    )

drop-passed : (budget : ℕ) (ps : Rows) → total_bytes (drop (passed budget ps) ps) ≤ budget
drop-passed budget [] = omega arith
drop-passed budget (p ∷ ps) = elim (Bool-cases (leb (total_bytes (p ∷ ps)) budget)) [
  | inl fits ↦ ground (arith, leb→le (total_bytes (p ∷ ps)) budget fits)
  | inr over ↦ ground (arith, drop-passed budget ps)
]

-- Without the last one that the loop passes, the rest is over the budget.
abbrev pub IsLeast : ℕ → ℕ → Rows → Type 0
IsLeast budget k ps = (k ≡ 0) ⊎ (budget < total_bytes (drop (k - 1) ps))

IsLeast-suc :
    (budget k : ℕ) (p : Domain.Placement) (ps : Rows)
    → budget < total_bytes (p ∷ ps)
    → IsLeast budget k ps
    → IsLeast budget (suc k) (p ∷ ps)
IsLeast-suc budget zero p ps over h = inr over
IsLeast-suc budget (suc k) p ps over (inl h) = absurd (omega arith)
IsLeast-suc budget (suc k) p ps over (inr h) = inr (
    let one : suc k - 1 ≡ k = omega arith in
    let two : suc (suc k) - 1 ≡ suc k = omega arith in
    subst (λ n. budget < total_bytes (drop n (p ∷ ps))) (sym two)
      (subst (λ n. budget < total_bytes (drop n ps)) one h))

IsLeast-passed : (budget : ℕ) (ps : Rows) → IsLeast budget (passed budget ps) ps
IsLeast-passed budget [] = inl refl
IsLeast-passed budget (p ∷ ps) = elim (Bool-cases (leb (total_bytes (p ∷ ps)) budget)) [
  | inl fits ↦ inl (ground arith)
  | inr over ↦
      let passes : passed budget (p ∷ ps) ≡ suc (passed budget ps) = ground arith in
      subst (λ k. IsLeast budget k (p ∷ ps)) (sym passes)
        (IsLeast-suc budget (passed budget ps) p ps
          (ground (arith, le→leb (total_bytes (p ∷ ps)) budget)) (IsLeast-passed budget ps))
]

contains_self : (hs : List String) → All (λ h. contains hs h ≡ true) hs
contains_self [] = tt
contains_self (h ∷ hs) = (
  ground arith,
  All-imp (λ g. contains hs g ≡ true) (λ g. contains (h ∷ hs) g ≡ true) hs (λ g is. ground arith)
      (contains_self hs),
)

module _ (rows : Rows) where
  abbrev Known : Domain.Placement → Type 0
  Known p = is_row rows p.content_hash ≡ true

  Known-insert_by_access :
      (p : Domain.Placement) (qs : Rows)
      → Known p
      → All Known qs
      → All Known (insert_by_access p qs)
  unfolding insert_by_access
  Known-insert_by_access p [] h a = (h, tt)
  Known-insert_by_access p (q ∷ qs) h a =
      elim (Bool-cases (not_later p.last_accessed_at q.last_accessed_at)) [
        | inl first ↦ rw first (h, a)
        | inr later ↦ rw later (a.0, Known-insert_by_access p qs h a.1)
      ]

  Known-order_by_access : (ps : Rows) → All Known ps → All Known (order_by_access ps)
  unfolding order_by_access
  Known-order_by_access [] a = tt
  Known-order_by_access (p ∷ ps) a =
      Known-insert_by_access p (order_by_access ps) a.0 (Known-order_by_access ps a.1)

  Known-pinned : (ps : Rows) → All Known ps → All Known (pinned_rows ps)
  Known-pinned [] a = tt
  Known-pinned (p ∷ ps) a = elim (Bool-cases p.pinned) [
    | inl pinned ↦ rw pinned (a.0, Known-pinned ps a.1)
    | inr not_pinned ↦ rw not_pinned (Known-pinned ps a.1)
  ]

rows-Known : (rows : Rows) → All (Known rows) rows
rows-Known [] = tt
rows-Known (p ∷ rows) = (
  ground arith,
  All-imp (Known rows) (Known (p ∷ rows)) rows (λ q h. ground arith) (rows-Known rows),
)

none_passed : (budget : ℕ) (ps : Rows) → leb (total_bytes ps) budget ≡ true → passed budget ps ≡ 0
none_passed budget [] h = refl
none_passed budget (p ∷ ps) h = ground arith

module _ (config : PlacementConfig) (db : Db) where
  lru : Rows
  lru = sql_list_pinned db

  count : ℕ
  count = passed config.pinned_budget_bytes lru

  evicted : List String
  evicted = victims (take count lru)

  runs : evict_lru_if_over_capacity config db ≡ ok evicted (unpinned evicted db)
  unfolding evict_lru_if_over_capacity Placements.list_pinned_ordered_by_lru sql_list_pinned lru
      count evicted
  runs =
      let is =
        Known-order_by_access db.placement (pinned_rows db.placement)
          (Known-pinned db.placement db.placement (rows-Known db.placement)) in
      let loop = evict_loop_lem config.pinned_budget_bytes lru db is in
      elim (Bool-cases (leb (total_bytes lru) config.pinned_budget_bytes)) [
        | inl within ↦ ground (
          arith,
          loop,
          none_passed config.pinned_budget_bytes lru within,
          map-unpin_none db.now db.placement,
        )
        | inr over ↦ ground (arith, loop)
      ]

  fits : total_bytes (pinned_rows (unpinned evicted db).placement) ≤ config.pinned_budget_bytes
  unfolding lru count evicted sql_list_pinned
  fits = omega (
    arith,
    pinned-unpin db.now evicted db.placement,
    kept-order_by_access evicted (pinned_rows db.placement),
    kept-le-drop evicted count lru (contains_self evicted),
    drop-passed config.pinned_budget_bytes lru,
  )

  -- An eviction returns for any config and database: it passes the first pinned placements in the
  -- order of last access, unpins those of them that have a size and changes no other row. The
  -- pinned total is then within the budget, and without the last placement passed it was not.
  pub evict_lru_if_over_capacity_lem :
      (k : ℕ) × (evict_lru_if_over_capacity config db
        ≡ ok
            (victims (take k (sql_list_pinned db)))
            (unpinned (victims (take k (sql_list_pinned db))) db))
      × (total_bytes (pinned_rows (unpinned (victims (take k (sql_list_pinned db))) db).placement)
          ≤ config.pinned_budget_bytes)
      × IsLeast config.pinned_budget_bytes k (sql_list_pinned db)
  unfolding lru count evicted
  evict_lru_if_over_capacity_lem =
      (count, runs, fits, IsLeast-passed config.pinned_budget_bytes lru)
