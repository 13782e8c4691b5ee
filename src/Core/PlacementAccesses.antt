-- ===== src/Core/PlacementAccesses.antt =====
-- src/core/repositories/placement-access.repository.ts and its queries
use workflow_spec.Prelude.{
  ℕ, ◌+◌, String, Bool, not, ◌&&◌, [], ◌∷◌, ◌++◌, Option, leb, ltb, ◌==◌, string_eq, length, select,
}
use workflow_spec.Shared.Transaction.{gets, modify}
use workflow_spec.Core.Domain.{PlacementAccess}
use workflow_spec.Core.Db.{Db, Query}
use workflow_spec.Core.Placements.{or_else}

-- `accessed_at >= now() - window`
abbrev pub in_window : String → ℕ → ℕ → PlacementAccess → Bool
in_window content_hash window_ms now a =
    a.content_hash == content_hash && leb now (a.accessed_at + window_ms)

-- `accessed_at < now() - window`
abbrev pub older_than : String → ℕ → ℕ → PlacementAccess → Bool
older_than content_hash window_ms now a =
    a.content_hash == content_hash && ltb (a.accessed_at + window_ms) now

unfoldable pub record_access_row : String → Option ℕ → Query Unit
record_access_row content_hash at = modify (λ (db : Db). record db {
  placement_access =
      db.placement_access
      ++ (record { content_hash = content_hash; accessed_at = or_else at db.now } ∷ []);
})

unfoldable pub count_within_window : String → ℕ → Query ℕ
count_within_window content_hash window_ms =
    gets (λ db. length (select (in_window content_hash window_ms db.now) db.placement_access))

unfoldable pub prune_older_than : String → ℕ → Query Unit
prune_older_than content_hash window_ms = modify (λ (db : Db). record db {
  placement_access =
      select (λ a. not (older_than content_hash window_ms db.now a)) db.placement_access;
})
