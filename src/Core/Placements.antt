-- ===== src/Core/Placements.antt =====
-- src/core/repositories/placement.repository.ts, placement-config.repository.ts and their queries
use workflow_spec.Prelude.{
  ℕ, suc, ◌+◌, String, Bool, true, false, List, [], ◌∷◌, ◌++◌, Option, none, some, leb, ◌==◌,
  string_eq, if◌then◌else◌, select, first, update_where,
}
use workflow_spec.Json.{lookup}
use workflow_spec.Shared.Errors.{
  core_placement_upsert_no_row_returned, core_placement_set_pinned_not_found,
}
use workflow_spec.Shared.Transaction.{ok, gets, ◌>>=◌}
use workflow_spec.WorkflowSpec.Domain.{Interactivity, batch}
use workflow_spec.Core.Domain.{CostClass, Placement, PlacementConfig}
use workflow_spec.Core.Ratio.{Ratio, rolling}
use workflow_spec.Core.Db.{Db, Query, row_or_throw}

abbrev pub has_hash : String → Placement → Bool
has_hash content_hash p = p.content_hash == content_hash

-- A field that is absent is null.
pub record UpsertPlacementAccessInput : Type 0 where
  pub replica_id : Option String
  pub session_id : Option String
  pub interactivity : Option Interactivity
  pub size_bytes : Option ℕ
  pub declared_cost_class : Option CostClass
  pub observed_rehydration_ms : Option Ratio
  pub at : Option ℕ

-- COALESCE
abbrev pub or_else {ℓ} : {A : Type ℓ} → Option A → A → A
or_else none a = a
or_else (some b) a = b

abbrev pub or_keep {ℓ} : {A : Type ℓ} → Option A → Option A → Option A
or_keep none old = old
or_keep (some b) old = some b

abbrev pub samples : Option Ratio → ℕ
samples none = 0
samples (some x) = 1

-- `observed_rehydration_ms` of the update
abbrev pub observe : Option Ratio → Option Ratio → ℕ → Option Ratio
observe none old n = old
observe (some x) none n = some x
observe (some x) (some average) n = some (rolling average n x)

abbrev pub fresh_placement : String → UpsertPlacementAccessInput → ℕ → Placement
fresh_placement content_hash input now = record {
  content_hash = content_hash;
  replica_id = input.replica_id;
  session_id = input.session_id;
  pinned = false;
  pinned_at = none;
  interactivity = or_else input.interactivity batch;
  access_count = 1;
  first_accessed_at = some (or_else input.at now);
  last_accessed_at = some (or_else input.at now);
  declared_cost_class = input.declared_cost_class;
  observed_rehydration_ms = input.observed_rehydration_ms;
  observed_sample_count = samples input.observed_rehydration_ms;
  size_bytes = or_else input.size_bytes 0;
  created_at = now;
  updated_at = now;
}

abbrev pub accessed : UpsertPlacementAccessInput → ℕ → Placement → Placement
accessed input now p = record p {
  replica_id = or_keep input.replica_id p.replica_id;
  session_id = or_keep input.session_id p.session_id;
  interactivity = or_else input.interactivity p.interactivity;
  access_count = suc p.access_count;
  last_accessed_at = some (or_else input.at now);
  declared_cost_class = or_keep input.declared_cost_class p.declared_cost_class;
  size_bytes = or_else input.size_bytes p.size_bytes;
  observed_rehydration_ms =
      observe input.observed_rehydration_ms p.observed_rehydration_ms p.observed_sample_count;
  observed_sample_count = p.observed_sample_count + samples input.observed_rehydration_ms;
  updated_at = now;
}

-- SQL_UPSERT_PLACEMENT_ACCESS
unfoldable pub sql_upsert_access : String → UpsertPlacementAccessInput → Query (Option Placement)
sql_upsert_access content_hash input db = elim (first (has_hash content_hash) db.placement) [
  | none ↦
      let row = fresh_placement content_hash input db.now in
      ok (some row) (record db { placement = db.placement ++ (row ∷ []) })
  | some p ↦ ok (some (accessed input db.now p)) (record db {
    placement = update_where (has_hash content_hash) (accessed input db.now) db.placement;
  })
]

abbrev pub with_pinned : Bool → ℕ → Placement → Placement
with_pinned pinned now p = record p {
  pinned = pinned;
  pinned_at = if pinned then some now else none;
  updated_at = now;
}

-- SQL_SET_PLACEMENT_PINNED
unfoldable pub sql_set_pinned : String → Bool → Query (Option Placement)
sql_set_pinned content_hash pinned db =
    let rows = update_where (has_hash content_hash) (with_pinned pinned db.now) db.placement in
    ok (first (has_hash content_hash) rows) (record db { placement = rows })

-- `a.last_accessed_at <= b.last_accessed_at` in the order of the query, a null being the last
abbrev pub not_later : Option ℕ → Option ℕ → Bool
not_later a none = true
not_later none (some b) = false
not_later (some a) (some b) = leb a b

unfoldable pub insert_by_access : Placement → List Placement → List Placement
insert_by_access p [] = p ∷ []
insert_by_access p (q ∷ qs) =
    if not_later p.last_accessed_at q.last_accessed_at
    then p ∷ q ∷ qs
    else q ∷ insert_by_access p qs

unfoldable pub order_by_access : List Placement → List Placement
unfolding insert_by_access
order_by_access [] = []
order_by_access (p ∷ ps) = insert_by_access p (order_by_access ps)

-- SQL_LIST_PINNED_PLACEMENTS_ORDERED_BY_LRU
unfoldable pub sql_list_pinned : Db → List Placement
sql_list_pinned db = order_by_access (select (λ p. p.pinned) db.placement)

unfoldable pub find_by_content_hash : String → Query (Option Placement)
find_by_content_hash content_hash = gets (λ db. first (has_hash content_hash) db.placement)

unfoldable pub upsert_access : String → UpsertPlacementAccessInput → Query Placement
upsert_access content_hash input = do
  row ← sql_upsert_access content_hash input
  row_or_throw core_placement_upsert_no_row_returned row

unfoldable pub set_pinned : String → Bool → Query Placement
set_pinned content_hash pinned = do
  row ← sql_set_pinned content_hash pinned
  row_or_throw core_placement_set_pinned_not_found row

unfoldable pub list_pinned_ordered_by_lru : Query (List Placement)
list_pinned_ordered_by_lru = gets sql_list_pinned

unfoldable pub load : String → Query (Option PlacementConfig)
load name = gets (λ db. lookup name db.placement_config)
