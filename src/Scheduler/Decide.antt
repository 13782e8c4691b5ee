-- ===== src/Scheduler/Decide.antt =====
-- What the decisions to promote and to demote depend on.
use workflow_spec.Prelude.{
  ℕ, ◌+◌, ◌≡◌, ◌↔◌, refl, sym, subst, String, true, false, Option, none, some, arith, leb, ltb,
  string_eq, first, first-update_where, update_where, Bool-cases, inl, inr,
}
use workflow_spec.Shared.Transaction.{ok}
use workflow_spec.Core.Domain
use workflow_spec.Core.Domain.{PlacementConfig}
use workflow_spec.Core.Db.{Db}
use workflow_spec.Core.Placements
use workflow_spec.Core.Placements.{has_hash, or_else, with_pinned, UpsertPlacementAccessInput}
use workflow_spec.Core.PlacementAccesses
use workflow_spec.Scheduler.Placement.{
  record_access, promote, evaluate_promotion, evaluate_demotion, PromotionDecision,
  DemotionDecision, is_interactive, cost_ok, promotion_for, promotion_of, demotion_for,
  already_pinned,
}
use workflow_spec.Scheduler.Promotes.{IsWorthPinning, passes_tests, passes_tests_iff}
use workflow_spec.Scheduler.Access.{accesses, first_passes, record_access-last_accessed_at}

promotion_for_lem :
    (h : String) (config : PlacementConfig) (db : Db) (row : Option Domain.Placement)
    → (d : PromotionDecision) × (promotion_for h config row db ≡ ok d db)
      × (d.promotes ≡ passes_tests config (accesses h config.frequency_window_ms db) row)
unfolding promotion_for PlacementAccesses.count_within_window
promotion_for_lem h config db none = (_, refl, refl)
promotion_for_lem h config db (some p) = elim (Bool-cases p.pinned) [
  | inl pinned ↦ (record { promotes = false; reason = already_pinned }, ground arith, ground arith)
  | inr unpinned ↦ (
    promotion_of (is_interactive p.interactivity) (cost_ok p config)
        (leb config.frequency_threshold (accesses h config.frequency_window_ms db)),
    ground arith,
    ground arith,
  )
]

promote_lem :
    (h : String) (db : Db) (p : Domain.Placement)
    → first (has_hash h) db.placement ≡ some p
    → (db' : Db) × (promote h db ≡ ok (with_pinned true db.now p) db')
      × (first (has_hash h) db'.placement ≡ some (with_pinned true db.now p))
unfolding promote Placements.set_pinned Placements.sql_set_pinned
promote_lem h db p found = (
  record db { placement = update_where (has_hash h) (with_pinned true db.now) db.placement },
  ground (arith, moved),
  moved,
)
  where
    moved :
        first (has_hash h) (update_where (has_hash h) (with_pinned true db.now) db.placement)
        ≡ some (with_pinned true db.now p)
    moved = ground (
      arith,
      first_passes (has_hash h) db.placement,
      first-update_where (has_hash h) (has_hash h) (with_pinned true db.now) db.placement
          (λ q. ground arith),
    )

-- Deciding on a promotion always returns and changes nothing, and it is for it exactly if the
-- placement has a row that is not pinned, is interactive, is accessed often enough within the
-- window, and has a cost above the threshold: the average that was observed, once it has enough
-- samples, and until then what the config assumes for the class that is declared. A placement with
-- neither has no cost and is not promoted.
pub evaluate_promotion_lem :
    (h : String) (config : PlacementConfig) (db : Db)
    → (d : PromotionDecision) × (evaluate_promotion h config db ≡ ok d db)
      × ((d.promotes ≡ true)
          ↔ IsWorthPinning config
              (accesses h config.frequency_window_ms db)
              (first (has_hash h) db.placement))
unfolding evaluate_promotion Placements.find_by_content_hash
evaluate_promotion_lem h config db =
    let row = first (has_hash h) db.placement in
    let count = accesses h config.frequency_window_ms db in
    let (d, went, is) = promotion_for_lem h config db row in
    (
      d,
      went,
      subst (λ b. (b ≡ true) ↔ IsWorthPinning config count row) (sym is)
          (passes_tests_iff config count row),
    )

-- A placement that is accessed and then promoted: both return, and then deciding on its demotion
-- is for it exactly if more than the idle threshold has passed since that access.
pub record_access-promote-evaluate_demotion :
    (h : String) (input : UpsertPlacementAccessInput) (config config' : PlacementConfig) (clock : ℕ)
    (db : Db)
    → (p q : Domain.Placement) × (db1 db2 : Db) × (d : DemotionDecision) × (record_access h input
          config db
        ≡ ok p db1)
      × (promote h db1 ≡ ok q db2)
      × (evaluate_demotion clock h config' db2 ≡ ok d db2)
      × (d.demotes ≡ ltb (or_else input.at db.now + config'.idle_threshold_ms) clock)
unfolding evaluate_demotion Placements.find_by_content_hash
record_access-promote-evaluate_demotion h input config config' clock db =
    let (p, db1, run, found, last) = record_access-last_accessed_at h input config db in
    let (db2, promoted, found') = promote_lem h db1 p found in
    let q = with_pinned true db1.now p in
    (p, q, db1, db2, demotion_for clock config' (some q), run, promoted, ground arith, ground arith)
