-- ===== src/Tests/Cycles.antt =====
-- Runs of the cycle search on a graph of four files.
use bbtidy.Base.{ℕ, ◌==◌, ◌≡◌, refl, some, none, List, [], ◌∷◌, arith}
use bbtidy.Workspace.Cycle.{
  recipe, inherit, DependencyNode, DependencyEdge, retrace, visit_edges, search_cycle,
  dependency_cycle_for,
}
use bbtidy.Workspace.Walks.{Decides, Walk, single, step}
use bbtidy.Workspace.Search.{
  CycleWitness, dependency_cycle_for-CycleWitness, dependency_cycle_for_complete,
}

number_decides : Decides ◌==◌
number_decides = record { sound = λ a b h. ground arith; complete = λ a. ground arith }

abbrev file : ℕ → DependencyNode ℕ
file n = record { path = n; context = recipe }

abbrev to_file : ℕ → DependencyEdge ℕ
to_file n = record { to = file n; kind = inherit }

-- 1 → 2, 3; 2 → 3, 4; 3 → 4; 4 → 1
abbrev graph : List (DependencyNode ℕ × List (DependencyEdge ℕ))
graph =
    (file 1, to_file 2 ∷ to_file 3 ∷ [])
    ∷ (file 2, to_file 3 ∷ to_file 4 ∷ [])
    ∷ (file 3, to_file 4 ∷ [])
    ∷ (file 4, to_file 1 ∷ [])
    ∷ []

cycle_found : dependency_cycle_for ◌==◌ graph (λ p. p) 1 2 recipe ≡ some (1 ∷ 2 ∷ 4 ∷ 1 ∷ [])
unfolding dependency_cycle_for search_cycle visit_edges retrace
cycle_found = refl

no_cycle : dependency_cycle_for ◌==◌ graph (λ p. p) 5 1 recipe ≡ none
unfolding dependency_cycle_for search_cycle visit_edges retrace
no_cycle = refl

dependency_cycle_for-CycleWitness_example :
    CycleWitness ◌==◌ number_decides graph (λ p. p) 1 2 recipe (1 ∷ 2 ∷ 4 ∷ 1 ∷ [])
dependency_cycle_for-CycleWitness_example =
    dependency_cycle_for-CycleWitness ◌==◌ number_decides graph (λ p. p) 1 2 recipe
      (1 ∷ 2 ∷ 4 ∷ 1 ∷ []) cycle_found

Walk-back : Walk ◌==◌ graph (file 2) (file 1) (file 2 ∷ file 4 ∷ file 1 ∷ [])
Walk-back = step refl (step refl (single (file 1)))

dependency_cycle_for_complete_example :
    (cycle : List ℕ) × (dependency_cycle_for ◌==◌ graph (λ p. p) 1 2 recipe ≡ some cycle)
    × CycleWitness ◌==◌ number_decides graph (λ p. p) 1 2 recipe cycle
dependency_cycle_for_complete_example =
    dependency_cycle_for_complete ◌==◌ number_decides graph (λ p. p) 1 2 recipe
      (file 2 ∷ file 4 ∷ file 1 ∷ []) Walk-back
