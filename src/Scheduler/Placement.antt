-- ===== src/Scheduler/Placement.antt =====
-- src/scheduler/placement.ts, trust.ts and constants.ts. Decisions are without their `detail`.
use workflow_spec.Prelude.{
  ℕ, ◌+◌, ◌-◌, max, String, Bool, true, false, not, ◌&&◌, List, [], ◌∷◌, Option, none, some, leb,
  ltb, if◌then◌else◌,
}
use workflow_spec.Shared.TrustTier.{TrustTier, unverified, conformance_passed, production_proven}
use workflow_spec.Shared.Transaction.{pure, ◌>>=◌, ◌>>◌}
use workflow_spec.WorkflowSpec.Domain.{Interactivity, interactive, batch}
use workflow_spec.Core.Domain
use workflow_spec.Core.Domain.{PlacementConfig, trivial, cheap, moderate, expensive, CostClass}
use workflow_spec.Core.Ratio.{Ratio, of_ℕ, exceeds}
use workflow_spec.Core.Db.{Query}
use workflow_spec.Core.Placements
use workflow_spec.Core.Placements.{UpsertPlacementAccessInput}
use workflow_spec.Core.PlacementAccesses

abbrev pub class_prior : CostClass → Ratio
class_prior trivial = of_ℕ 10
class_prior cheap = of_ℕ 50
class_prior moderate = of_ℕ 300
class_prior expensive = of_ℕ 2000

abbrev pub default_placement_config : PlacementConfig
default_placement_config = record {
  frequency_threshold = 3;
  frequency_window_ms = 420000;
  rehydration_cost_threshold_ms = of_ℕ 250;
  idle_threshold_ms = 1200000;
  pinned_budget_bytes = 1073741824;
  observed_min_samples = 5;
  class_priors_ms = class_prior;
}

unfoldable pub is_trust_eligible_for_optimization : TrustTier → Bool
is_trust_eligible_for_optimization unverified = false
is_trust_eligible_for_optimization conformance_passed = false
is_trust_eligible_for_optimization production_proven = true

pub data ResolutionReason : Type 0 where
  no_placement warm_replica cold_fact : ResolutionReason

pub record PlacementResolution : Type 0 where
  pub found : Bool
  pub warm : Bool
  pub content_hash : String
  pub reason : ResolutionReason
  pub placement : Option Domain.Placement

abbrev pub resolution_of : String → Option Domain.Placement → PlacementResolution
resolution_of content_hash none = record {
  found = false;
  warm = false;
  content_hash = content_hash;
  reason = no_placement;
  placement = none;
}
resolution_of content_hash (some p) = record {
  found = true;
  warm = elim p.replica_id [ none ↦ false | some _ ↦ true ];
  content_hash = content_hash;
  reason = elim p.replica_id [ none ↦ cold_fact | some _ ↦ warm_replica ];
  placement = some p;
}

unfoldable pub resolve_placement : String → Query PlacementResolution
resolve_placement content_hash = do
  placement ← Placements.find_by_content_hash content_hash
  pure (resolution_of content_hash placement)

-- Without a config in the options, `config` is `default_placement_config`.
unfoldable pub record_access :
    String → UpsertPlacementAccessInput → PlacementConfig → Query Domain.Placement
record_access content_hash input config = do
  placement ← Placements.upsert_access content_hash input
  PlacementAccesses.record_access_row content_hash input.at
  PlacementAccesses.prune_older_than content_hash
      (max config.frequency_window_ms config.idle_threshold_ms)
  pure placement

pub data CostSource : Type 0 where
  observed declared_prior unknown : CostSource

abbrev pub prior_cost : Option CostClass → PlacementConfig → Option Ratio × CostSource
prior_cost none config = (none, unknown)
prior_cost (some c) config = (some (config.class_priors_ms c), declared_prior)

unfoldable pub effective_rehydration_cost_ms :
    Domain.Placement → PlacementConfig → Option Ratio × CostSource
effective_rehydration_cost_ms p config = elim p.observed_rehydration_ms [
  | none ↦ prior_cost p.declared_cost_class config
  | some average ↦
      if leb config.observed_min_samples p.observed_sample_count
      then (some average, observed)
      else prior_cost p.declared_cost_class config
]

pub data PromotionReason : Type 0 where
  no_row already_pinned not_interactive cost_below_threshold : PromotionReason
  frequency_below_threshold qualifies : PromotionReason

pub record PromotionDecision : Type 0 where
  pub promotes : Bool
  pub reason : PromotionReason

abbrev pub is_interactive : Interactivity → Bool
is_interactive interactive = true
is_interactive batch = false

abbrev pub cost_ok : Domain.Placement → PlacementConfig → Bool
cost_ok p config = elim (effective_rehydration_cost_ms p config).0 [
  | none ↦ false
  | some cost ↦ exceeds cost config.rehydration_cost_threshold_ms
]

abbrev pub promotion_of : Bool → Bool → Bool → PromotionDecision
promotion_of interactive_ok cost freq_ok = record {
  promotes = interactive_ok && cost && freq_ok;
  reason =
      if interactive_ok && cost && freq_ok
      then qualifies
      else if not interactive_ok
      then not_interactive
      else if not cost
      then cost_below_threshold
      else frequency_below_threshold;
}

unfoldable pub promotion_for :
    String → PlacementConfig → Option Domain.Placement → Query PromotionDecision
promotion_for content_hash config none = pure (record { promotes = false; reason = no_row })
promotion_for content_hash config (some p) =
    if p.pinned then pure (record { promotes = false; reason = already_pinned }) else (do
      count ← PlacementAccesses.count_within_window content_hash config.frequency_window_ms
      pure (
          promotion_of (is_interactive p.interactivity) (cost_ok p config)
            (leb config.frequency_threshold count)))

unfoldable pub evaluate_promotion : String → PlacementConfig → Query PromotionDecision
unfolding promotion_for
evaluate_promotion content_hash config = do
  placement ← Placements.find_by_content_hash content_hash
  promotion_for content_hash config placement

pub data DemotionReason : Type 0 where
  no_row not_pinned idle_past_threshold still_within_idle_threshold : DemotionReason

pub record DemotionDecision : Type 0 where
  pub demotes : Bool
  pub reason : DemotionReason

-- `clock` is `Date.now()`; one that was never accessed has been idle for ever.
abbrev pub is_idle : ℕ → PlacementConfig → Option ℕ → Bool
is_idle clock config none = true
is_idle clock config (some t) = ltb (t + config.idle_threshold_ms) clock

abbrev pub demotion_for : ℕ → PlacementConfig → Option Domain.Placement → DemotionDecision
demotion_for clock config none = record { demotes = false; reason = no_row }
demotion_for clock config (some p) =
    if not p.pinned
    then record { demotes = false; reason = not_pinned }
    else if is_idle clock config p.last_accessed_at
    then record { demotes = true; reason = idle_past_threshold }
    else record { demotes = false; reason = still_within_idle_threshold }

unfoldable pub evaluate_demotion : ℕ → String → PlacementConfig → Query DemotionDecision
evaluate_demotion clock content_hash config = do
  placement ← Placements.find_by_content_hash content_hash
  pure (demotion_for clock config placement)

unfoldable pub promote : String → Query Domain.Placement
promote content_hash = Placements.set_pinned content_hash true

unfoldable pub demote : String → Query Domain.Placement
demote content_hash = Placements.set_pinned content_hash false

abbrev pub total_bytes : List Domain.Placement → ℕ
total_bytes [] = 0
total_bytes (p ∷ ps) = p.size_bytes + total_bytes ps

-- The loop of `evictLRUIfOverCapacity` from a total, which is at least what the rest adds up to.
unfoldable pub evict_loop : ℕ → ℕ → List Domain.Placement → Query (List String)
evict_loop budget total [] = pure []
evict_loop budget total (p ∷ ps) =
    let skip = evict_loop budget total ps in
    let rest = evict_loop budget (total - p.size_bytes) ps in
    if leb total budget
    then pure []
    else if leb p.size_bytes 0
    then skip
    else (do demote p.content_hash; evicted ← rest; pure (p.content_hash ∷ evicted))

unfoldable pub evict_lru_if_over_capacity : PlacementConfig → Query (List String)
evict_lru_if_over_capacity config = do
  pinned ← Placements.list_pinned_ordered_by_lru
  if leb (total_bytes pinned) config.pinned_budget_bytes
      then pure []
      else evict_loop config.pinned_budget_bytes (total_bytes pinned) pinned
