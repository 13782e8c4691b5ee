-- ===== src/Scheduler/Access.antt =====
-- What recording an access does to the counts that promotions read.
use workflow_spec.Prelude.{
  ℕ, suc, ◌+◌, ◌≤◌, ◌≡◌, refl, max, String, Bool, true, not, ◌&&◌, List, [], ◌∷◌, ◌++◌, none, some,
  arith, leb, leb→le, ltb→lt, string_eq, ◌==◌, if◌then◌else◌, select, select-append, length,
  length-append, first, first-update_where, update_where,
}
use workflow_spec.Shared.Transaction.{ok}
use workflow_spec.Core.Domain
use workflow_spec.Core.Domain.{PlacementConfig, PlacementAccess}
use workflow_spec.Core.Db.{Db}
use workflow_spec.Core.Placements
use workflow_spec.Core.Placements.{
  has_hash, or_else, UpsertPlacementAccessInput, fresh_placement, accessed,
}
use workflow_spec.Core.PlacementAccesses
use workflow_spec.Core.PlacementAccesses.{in_window, older_than}
use workflow_spec.Scheduler.Placement.{record_access}

-- What `count_within_window` counts.
abbrev pub accesses : String → ℕ → Db → ℕ
accesses h window db = length (select (in_window h window db.now) db.placement_access)

abbrev pub horizon : PlacementConfig → ℕ
horizon config = max config.frequency_window_ms config.idle_threshold_ms

-- A prune leaves what a window up to its horizon counts.
select-pruned :
    (h g : String) (window far now : ℕ) (rows : List PlacementAccess)
    → window ≤ far
    → select (in_window g window now) (select (λ a. not (older_than h far now a)) rows)
      ≡ select (in_window g window now) rows
select-pruned h g window far now [] le = refl
select-pruned h g window far now (a ∷ rows) le = ground (
  arith,
  select-pruned h g window far now rows le,
  leb→le now (a.accessed_at + window),
  ltb→lt (a.accessed_at + far) now,
)

first-snoc {ℓ} :
    {A : Type ℓ} (q : A → Bool) (xs : List A) (x : A)
    → first q xs ≡ none
    → q x ≡ true
    → first q (xs ++ (x ∷ [])) ≡ some x
first-snoc q [] x n h = ground arith
first-snoc q (y ∷ ys) x n h = ground (arith, first-snoc q ys x)

pub first_passes {ℓ} :
    {A : Type ℓ} (q : A → Bool) (xs : List A)
    → (elim (first q xs) [ none ↦ true | some x ↦ q x ]) ≡ true
first_passes q [] = refl
first_passes q (y ∷ ys) = ground (arith, first_passes q ys)

module _ (h : String) (input : UpsertPlacementAccessInput) (config : PlacementConfig)
    (db : Db) where
  row_after : Domain.Placement
  row_after = elim (first (has_hash h) db.placement) [
    | none ↦ fresh_placement h input db.now
    | some p ↦ accessed input db.now p
  ]

  rows_after : List Domain.Placement
  rows_after = elim (first (has_hash h) db.placement) [
    | none ↦ db.placement ++ (fresh_placement h input db.now ∷ [])
    | some p ↦ update_where (has_hash h) (accessed input db.now) db.placement
  ]

  abbrev access : PlacementAccess
  access = record { content_hash = h; accessed_at = or_else input.at db.now }

  log_after : List PlacementAccess
  log_after =
      select (λ a. not (older_than h (horizon config) db.now a))
        (db.placement_access ++ (access ∷ []))

  db_after : Db
  db_after = record db { placement = rows_after; placement_access = log_after }

  runs : record_access h input config db ≡ ok row_after db_after
  unfolding record_access Placements.upsert_access Placements.sql_upsert_access
      PlacementAccesses.record_access_row PlacementAccesses.prune_older_than row_after rows_after
      log_after db_after
  runs = ground arith

  finds : first (has_hash h) rows_after ≡ some row_after
  unfolding row_after rows_after
  finds = ground (
    arith,
    first-snoc (has_hash h) db.placement (fresh_placement h input db.now),
    first_passes (has_hash h) db.placement,
    first-update_where (has_hash h) (has_hash h) (accessed input db.now) db.placement
        (λ p. ground arith),
  )

  access_count-row_after :
      row_after.access_count
      ≡ elim (first (has_hash h) db.placement) [ none ↦ 1 | some q ↦ suc q.access_count ]
  unfolding row_after
  access_count-row_after = ground arith

  pub record_access-last_accessed_at :
      (p : Domain.Placement) × (db' : Db) × (record_access h input config db ≡ ok p db')
      × (first (has_hash h) db'.placement ≡ some p)
      × (p.last_accessed_at ≡ some (or_else input.at db.now))
  unfolding db_after row_after
  record_access-last_accessed_at = (row_after, db_after, runs, finds, ground arith)

  counts :
      (g : String) (window : ℕ)
      → window ≤ horizon config
      → accesses g window db_after
        ≡ accesses g window db
          + (if g == h && leb db.now (or_else input.at db.now + window) then 1 else 0)
  unfolding db_after log_after
  counts g window le = ground (
    arith,
    select-pruned h g window (horizon config) db.now (db.placement_access ++ (access ∷ [])) le,
    select-append (in_window g window db.now) db.placement_access (access ∷ []),
    length-append (select (in_window g window db.now) db.placement_access)
        (select (in_window g window db.now) (access ∷ [])),
  )

  -- Recording an access always returns the placement's row, found in the database after it, with
  -- one access more than before, or one where there was no row. It adds the access to the counts
  -- of its placement in every window that reaches back to it and is no wider than the wider of
  -- the two windows of the config, and changes no other such count, for all that it prunes.
  pub record_access_lem :
      (window : ℕ)
      → window ≤ horizon config
      → (p : Domain.Placement) × (db' : Db) × (record_access h input config db ≡ ok p db')
        × (first (has_hash h) db'.placement ≡ some p)
        × (p.access_count
            ≡ elim (first (has_hash h) db.placement) [ none ↦ 1 | some q ↦ suc q.access_count ])
        × ((g : String)
            → accesses g window db'
              ≡ accesses g window db
                + (if g == h && leb db.now (or_else input.at db.now + window) then 1 else 0))
  unfolding db_after
  record_access_lem window le =
      (row_after, db_after, runs, finds, access_count-row_after, λ g. counts g window le)
