-- ===== src/Engine/DependencyGraph.antt =====
-- src/engine/dependency-graph.ts
use workflow_spec.Prelude.{String, List, [], ◌∷◌, contains, string_eq, if◌then◌else◌}
use workflow_spec.WorkflowSpec.Domain.{Step}
use workflow_spec.WorkflowSpec.BindingRefs.{collect_step_reference_ids}

-- The values of a `Set` in the order of their first insertion, but for those of `seen`.
unfoldable pub unique_after : List String → List String → List String
unique_after seen [] = []
unique_after seen (x ∷ xs) =
    let rest = unique_after seen xs in
    let rest' = unique_after (x ∷ seen) xs in if contains seen x then rest else x ∷ rest'

unfoldable pub compute_step_dependencies : Step → List String
unfolding unique_after
compute_step_dependencies s = unique_after [] (collect_step_reference_ids s)
