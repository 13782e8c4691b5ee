-- ===== src/Scheduler/Promotes.antt =====
-- src/scheduler/placement.ts: what makes a placement worth a promotion, said without its code.
use workflow_spec.Prelude.{
  ℕ, ◌*◌, ◌≤◌, ◌<◌, ◌≡◌, ◌⊎◌, inl, inr, ◌↔◌, refl, Bool, true, false, not, ◌&&◌, Option, none, some,
  arith, leb, Bool-cases, subst,
}
use workflow_spec.WorkflowSpec.Domain.{Interactivity, interactive, batch}
use workflow_spec.Core.Domain
use workflow_spec.Core.Domain.{PlacementConfig, CostClass}
use workflow_spec.Core.Ratio.{Ratio}
use workflow_spec.Scheduler.Placement.{
  effective_rehydration_cost_ms, is_interactive, cost_ok, prior_cost,
}

-- `a > b` on fractions
abbrev pub IsAbove : Ratio → Ratio → Type 0
IsAbove a b = b.num * a.den < a.num * b.den

-- The observed average counts once it has enough samples; until then, what the config assumes for
-- the class that is declared. Without either, no cost is the placement's.
abbrev pub IsCost : PlacementConfig → Domain.Placement → Ratio → Type 0
IsCost config p cost =
    ((p.observed_rehydration_ms ≡ some cost)
      × (config.observed_min_samples ≤ p.observed_sample_count))
    ⊎ (((p.observed_rehydration_ms ≡ none)
          ⊎ (p.observed_sample_count < config.observed_min_samples))
        × (c : CostClass) × (p.declared_cost_class ≡ some c)
        × (config.class_priors_ms c ≡ cost))

-- A row that is not pinned, is interactive, has a cost above the threshold, and is accessed often
-- enough.
pub record IsWorthPinning (config : PlacementConfig) (count : ℕ) (row : Option Domain.Placement)
    : Type 0 where
  pub placement : Domain.Placement
  pub found : row ≡ some placement
  pub unpinned : placement.pinned ≡ false
  pub is_for_interaction : placement.interactivity ≡ interactive
  pub cost : Ratio
  pub is_cost : IsCost config placement cost
  pub costs_more : IsAbove cost config.rehydration_cost_threshold_ms
  pub frequent : config.frequency_threshold ≤ count

module _ (config : PlacementConfig) (p : Domain.Placement) where
  abbrev Costs : Type 0
  Costs = (cost : Ratio) × IsCost config p cost × IsAbove cost config.rehydration_cost_threshold_ms

  abbrev Unmeasured : Type 0
  Unmeasured =
      (p.observed_rehydration_ms ≡ none) ⊎ (p.observed_sample_count < config.observed_min_samples)

  unmeasured-prior_cost :
      (o : Option Ratio)
      → p.observed_rehydration_ms ≡ o
      → Unmeasured
      → effective_rehydration_cost_ms p config ≡ prior_cost p.declared_cost_class config
  unfolding effective_rehydration_cost_ms
  unmeasured-prior_cost none is un = ground (arith, is)
  unmeasured-prior_cost (some a) is (inl absent) = absurd (ground (arith, is, absent))
  unmeasured-prior_cost (some a) is (inr few) = ground (arith, is, few)

  prior-Costs :
      (k : Option CostClass)
      → p.declared_cost_class ≡ k
      → Unmeasured
      → cost_ok p config ≡ true
      → Costs
  prior-Costs none declared un h =
      absurd (ground (arith, declared, h, unmeasured-prior_cost p.observed_rehydration_ms refl un))
  prior-Costs (some c) declared un h = (
    config.class_priors_ms c,
    inr (un, c, declared, refl),
    ground (arith, declared, h, unmeasured-prior_cost p.observed_rehydration_ms refl un),
  )

  cost_ok-Costs :
      (o : Option Ratio) → p.observed_rehydration_ms ≡ o → cost_ok p config ≡ true → Costs
  unfolding effective_rehydration_cost_ms
  cost_ok-Costs none is h = prior-Costs p.declared_cost_class refl (inl is) h
  cost_ok-Costs (some a) is h =
      elim (Bool-cases (leb config.observed_min_samples p.observed_sample_count)) [
        | inl enough ↦ (a, inl (is, ground (arith, enough)), ground (arith, is, enough, h))
        | inr few ↦ prior-Costs p.declared_cost_class refl (inr (ground (arith, few))) h
      ]

  Costs-cost_ok : Costs → cost_ok p config ≡ true
  unfolding effective_rehydration_cost_ms
  Costs-cost_ok (cost, inl (is, enough), above) = ground (arith, is, enough, above)
  Costs-cost_ok (cost, inr (un, c, declared, prior), above) =
      ground
        (arith, declared, prior, above, unmeasured-prior_cost p.observed_rehydration_ms refl un)

interactive-only : (i : Interactivity) → is_interactive i ≡ true → i ≡ interactive
interactive-only interactive h = refl
interactive-only batch h = absurd (cc h)

-- What the code asks for, test by test.
abbrev pub passes_tests : PlacementConfig → ℕ → Option Domain.Placement → Bool
passes_tests config count none = false
passes_tests config count (some p) =
    not p.pinned
    && is_interactive p.interactivity
    && cost_ok p config
    && leb config.frequency_threshold count

pub passes_tests_iff :
    (config : PlacementConfig) (count : ℕ) (row : Option Domain.Placement)
    → (passes_tests config count row ≡ true) ↔ IsWorthPinning config count row
passes_tests_iff config count none = (λ h. absurd (cc h), λ worth. absurd (cc worth.found))
passes_tests_iff config count (some p) = (
  λ h.
      let (cost, is, above) =
        cost_ok-Costs config p p.observed_rehydration_ms refl (ground arith) in
      record {
        placement = p;
        found = refl;
        unpinned = ground (arith, h);
        is_for_interaction = interactive-only p.interactivity (ground (arith, h));
        cost = cost;
        is_cost = is;
        costs_more = above;
        frequent = ground (arith, h);
      },
  λ worth.
      let same : worth.placement ≡ p = cc worth.found in
      let costs =
        Costs-cost_ok config worth.placement (worth.cost, worth.is_cost, worth.costs_more) in
      subst (λ q. passes_tests config count (some q) ≡ true) same
        (ground (arith, costs, worth.unpinned, worth.is_for_interaction, worth.frequent)),
)
