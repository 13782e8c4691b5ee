-- ===== src/Scheduler/Tests.antt =====
-- Placements at concrete inputs.
use workflow_spec.Prelude.{
  ℕ, ℕ_discrete, suc, ◌+◌, ◌≤◌, ◌≡◌, ◌↔◌, refl, String, Bool, true, false, ◌&&◌, [], ◌∷◌, Option,
  none, some, arith, leb, ltb, string_eq, ◌==◌, if◌then◌else◌, first, take,
}
use workflow_spec.Shared.Transaction.{Outcome, ok}
use workflow_spec.WorkflowSpec.Domain.{interactive}
use workflow_spec.Core.Domain
use workflow_spec.Core.Domain.{PlacementConfig, CostClass, cheap, expensive}
use workflow_spec.Core.Ratio.{Ratio, of_ℕ}
use workflow_spec.Core.PlacementAccesses
use workflow_spec.Core.Db.{Db}
use workflow_spec.Core.Placements
use workflow_spec.Core.Placements.{
  has_hash, or_else, UpsertPlacementAccessInput, sql_list_pinned, order_by_access, insert_by_access,
}
use workflow_spec.Scheduler.Placement.{
  record_access, promote, demote, evaluate_promotion, evaluate_demotion, promotion_for,
  effective_rehydration_cost_ms, evict_loop, evict_lru_if_over_capacity, default_placement_config,
  total_bytes, PromotionDecision, DemotionDecision,
}
use workflow_spec.Scheduler.Evict.{victims, unpinned}
use workflow_spec.Scheduler.Capacity.{pinned_rows, IsLeast, evict_lru_if_over_capacity_lem}
use workflow_spec.Scheduler.Access.{accesses, record_access_lem}
use workflow_spec.Scheduler.Promotes.{IsWorthPinning}
use workflow_spec.Scheduler.Decide.{evaluate_promotion_lem, record_access-promote-evaluate_demotion}
use workflow_spec.Samples.{empty_db}

program : Unit {0}
unfolding string_eq ℕ_discrete evict_lru_if_over_capacity evict_loop demote Placements.set_pinned
    Placements.sql_set_pinned Placements.list_pinned_ordered_by_lru sql_list_pinned order_by_access
    insert_by_access evaluate_promotion promotion_for effective_rehydration_cost_ms
    PlacementAccesses.count_within_window Placements.find_by_content_hash
program = tt

abbrev decides : Outcome Db PromotionDecision → Bool
decides (ok d db) = d.promotes
decides _ = false

abbrev placed : String → ℕ → ℕ → Domain.Placement
placed content_hash size_bytes at = record {
  content_hash = content_hash;
  replica_id = some "r";
  session_id = none;
  pinned = true;
  pinned_at = some at;
  interactivity = interactive;
  access_count = 1;
  first_accessed_at = some at;
  last_accessed_at = some at;
  declared_cost_class = some expensive;
  observed_rehydration_ms = none;
  observed_sample_count = 0;
  size_bytes = size_bytes;
  created_at = at;
  updated_at = at;
}

abbrev placed_db : Db
placed_db = record empty_db {
  placement = placed "a" 60 900 ∷ placed "b" 0 700 ∷ placed "c" 50 800 ∷ [];
}

abbrev small : PlacementConfig
small = record default_placement_config { pinned_budget_bytes = 100 }

-- The oldest has no size, so the next one goes.
evicts_c :
    evict_lru_if_over_capacity small placed_db ≡ ok ("c" ∷ []) (unpinned ("c" ∷ []) placed_db)
unfolding program
evicts_c = refl

evict_lru_if_over_capacity_lem_example :
    (k : ℕ) × (evict_lru_if_over_capacity small placed_db
      ≡ ok
          (victims (take k (sql_list_pinned placed_db)))
          (unpinned (victims (take k (sql_list_pinned placed_db))) placed_db))
    × (total_bytes (
          pinned_rows (unpinned (victims (take k (sql_list_pinned placed_db))) placed_db).placement)
        ≤ small.pinned_budget_bytes)
    × IsLeast small.pinned_budget_bytes k (sql_list_pinned placed_db)
evict_lru_if_over_capacity_lem_example = evict_lru_if_over_capacity_lem small placed_db

abbrev plain_access : UpsertPlacementAccessInput
plain_access = record {
  replica_id = none;
  session_id = none;
  interactivity = none;
  size_bytes = none;
  declared_cost_class = none;
  observed_rehydration_ms = none;
  at = none;
}

record_access_lem_example :
    (p : Domain.Placement) × (db' : Db) × (record_access "a" plain_access small placed_db
      ≡ ok p db')
    × (first (has_hash "a") db'.placement ≡ some p)
    × (p.access_count ≡ elim (first (has_hash "a") placed_db.placement) [
      | none ↦ 1
      | some q ↦ suc q.access_count
    ])
    × ((g : String)
        → accesses g 1000 db'
          ≡ accesses g 1000 placed_db
            + (if g == "a" && leb placed_db.now (or_else plain_access.at placed_db.now + 1000)
                then 1
                else 0))
record_access_lem_example = record_access_lem "a" plain_access small placed_db 1000 (omega arith)

-- One interactive placement with a cost, and a config that asks for no accesses.
abbrev costs_db : Option CostClass → Option Ratio → ℕ → Db
costs_db declared observed samples =
    let p = record (placed "a" 60 900) {
      pinned = false;
      declared_cost_class = declared;
      observed_rehydration_ms = observed;
      observed_sample_count = samples;
    } in
    record empty_db { placement = p ∷ [] }

abbrev eager : PlacementConfig
eager = record default_placement_config { frequency_threshold = 0 }

evaluate_promotion_lem_example :
    (d : PromotionDecision) × (evaluate_promotion "a" eager
        (costs_db (some cheap) (some (of_ℕ 400)) 5)
      ≡ ok d (costs_db (some cheap) (some (of_ℕ 400)) 5))
    × ((d.promotes ≡ true)
        ↔ IsWorthPinning eager
            (accesses "a" eager.frequency_window_ms (costs_db (some cheap) (some (of_ℕ 400)) 5))
            (first (has_hash "a") (costs_db (some cheap) (some (of_ℕ 400)) 5).placement))
evaluate_promotion_lem_example =
    evaluate_promotion_lem "a" eager (costs_db (some cheap) (some (of_ℕ 400)) 5)

abbrev promotes : Option CostClass → Option Ratio → ℕ → Bool
promotes declared observed samples =
    decides (evaluate_promotion "a" eager (costs_db declared observed samples))

unknown_cost : promotes none none 0 ≡ false
unfolding program
unknown_cost = refl

declared_cost : (promotes (some expensive) none 0 ≡ true) × (promotes (some cheap) none 0 ≡ false)
unfolding program
declared_cost = (refl, refl)

-- Five samples are enough, four are not.
observed_cost :
    (promotes (some cheap) (some (of_ℕ 400)) 5 ≡ true)
    × (promotes (some cheap) (some (of_ℕ 400)) 4 ≡ false)
    × (promotes (some expensive) (some (of_ℕ 250)) 5 ≡ false)
    × (promotes none (some (of_ℕ 400)) 4 ≡ false)
unfolding program
observed_cost = (refl, refl, refl, refl)

record_access-promote-evaluate_demotion_example :
    (p q : Domain.Placement) × (db1 db2 : Db) × (d : DemotionDecision) × (record_access "a"
        plain_access small placed_db
      ≡ ok p db1)
    × (promote "a" db1 ≡ ok q db2)
    × (evaluate_demotion 5000 "a" small db2 ≡ ok d db2)
    × (d.demotes ≡ ltb (or_else plain_access.at placed_db.now + small.idle_threshold_ms) 5000)
record_access-promote-evaluate_demotion_example =
    record_access-promote-evaluate_demotion "a" plain_access small small 5000 placed_db
