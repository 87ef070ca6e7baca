-- ===== src/Workspace/Cycle.antt =====
-- src/workspace.rs: `dependency_cycle_for`. Paths are a parameter with their equality, and so is
-- `canonicalize_for_lookup`, which asks the file system. The queue's first element is the list's
-- head; sets and maps are lists with the latest entry first.
use bbtidy.Base.{
  ℕ, zero, suc, ◌+◌, Option, none, some, Bool, true, false, ◌&&◌, List, [], ◌∷◌, ◌++◌, map, concat,
  length, any, if◌then◌else◌,
}

pub data WorkspaceClassContext : Type 0 where
  recipe global : WorkspaceClassContext

abbrev pub same_context : WorkspaceClassContext → WorkspaceClassContext → Bool
same_context recipe recipe = true
same_context global global = true
same_context _ _ = false

pub data WorkspaceDependencyKind : Type 0 where
  include include_all require inherit inherit_defer inherit_global user_classes :
      WorkspaceDependencyKind

pub record DependencyNode (FilePath : Type 0) : Type 0 where
  pub path : FilePath
  pub context : WorkspaceClassContext

pub record DependencyEdge (FilePath : Type 0) : Type 0 where
  pub to : DependencyNode FilePath
  pub kind : WorkspaceDependencyKind

-- The loop variables of the search.
pub record Search (FilePath : Type 0) : Type 0 where
  pub queue : List (DependencyNode FilePath)
  pub visited : List (DependencyNode FilePath)
  pub parents : List (DependencyNode FilePath × DependencyNode FilePath)

-- What the loop over the edges of a node ends with: its variables, or a `return`.
pub data Visit (FilePath : Type 0) : Type 0 where
  visited_all : Search FilePath → Visit FilePath
  returns : Option (List (DependencyNode FilePath)) → Visit FilePath

module _ {FilePath : Type 0} (same_path : FilePath → FilePath → Bool) where
  abbrev pub same_node : DependencyNode FilePath → DependencyNode FilePath → Bool
  same_node a b = same_path a.path b.path && same_context a.context b.context

  abbrev pub contains_node : List (DependencyNode FilePath) → DependencyNode FilePath → Bool
  contains_node nodes n = any (same_node n) nodes

  -- `map.get(key)`
  abbrev pub get {ℓ} :
      {A : Type ℓ} → List (DependencyNode FilePath × A) → DependencyNode FilePath → Option A
  get [] key = none
  get ((k, value) ∷ entries) key = if same_node key k then some value else get entries key

  -- The tail from its last node on, which the list has first, to `to`.
  unfoldable pub retrace :
      List (DependencyNode FilePath × DependencyNode FilePath)
      → DependencyNode FilePath
      → ℕ
      → DependencyNode FilePath
      → List (DependencyNode FilePath)
      → Option (List (DependencyNode FilePath))
  retrace parents to zero last tail = none
  retrace parents to (suc fuel) last tail =
      if same_node last to then some (last ∷ tail) else elim (get parents last) [
        | none ↦ none
        | some parent ↦ retrace parents to fuel parent (last ∷ tail)
      ]

  module _ (dependencies : List (DependencyNode FilePath × List (DependencyEdge FilePath))) where
    -- A node with no entry has no edges.
    abbrev pub edges_of : DependencyNode FilePath → List (DependencyEdge FilePath)
    edges_of current = elim (get dependencies current) [ none ↦ [] | some edges ↦ edges ]

    -- The targets of all edges. Each is put in the queue once at most.
    abbrev pub all_targets : List (DependencyNode FilePath)
    all_targets = concat (map (λ entry. map (λ e. e.to) entry.1) dependencies)

  module _ (from to : DependencyNode FilePath) where
    abbrev pub discovered :
        DependencyNode FilePath → DependencyNode FilePath → Search FilePath → Search FilePath
    discovered current next s = record s {
      visited = next ∷ s.visited;
      parents = (next, current) ∷ s.parents;
    }

    unfoldable pub visit_edges :
        DependencyNode FilePath → List (DependencyEdge FilePath) → Search FilePath → Visit FilePath
    visit_edges current [] s = visited_all s
    visit_edges current (edge ∷ edges) s =
        let s' = discovered current edge.to s in
        let skip = visit_edges current edges s in
        let onward = visit_edges current edges (record s' { queue = s'.queue ++ edge.to ∷ [] }) in
        if contains_node s.visited edge.to
        then skip
        else if same_node edge.to from
        then returns (retrace s'.parents to (length s'.visited) from [])
        else onward

    abbrev pub first_search : Search FilePath
    first_search = record { queue = to ∷ []; visited = to ∷ []; parents = [] }

    module _ (dependencies : List (DependencyNode FilePath × List (DependencyEdge FilePath))) where
      unfoldable pub search_cycle : ℕ → Search FilePath → Option (List (DependencyNode FilePath))
      search_cycle zero s = none
      search_cycle (suc fuel) s = elim s.queue [
        | [] ↦ none
        | current ∷ queue ↦
            elim (visit_edges current (edges_of dependencies current)
              (record s { queue = queue })) [
                | returns tail ↦ tail
                | visited_all s' ↦ search_cycle fuel s'
              ]
      ]

  unfoldable pub dependency_cycle_for :
      List (DependencyNode FilePath × List (DependencyEdge FilePath))
      → (FilePath → FilePath)
      → FilePath
      → FilePath
      → WorkspaceClassContext
      → Option (List FilePath)
  dependency_cycle_for dependencies canonicalize_for_lookup from_path to_path context =
      let from_path' = canonicalize_for_lookup from_path in
      let to_path' = canonicalize_for_lookup to_path in
      let from : DependencyNode FilePath = record { path = from_path'; context = context } in
      let to : DependencyNode FilePath = record { path = to_path'; context = context } in
      if same_path from_path' to_path'
      then some (from_path' ∷ from_path' ∷ [])
      else elim (search_cycle from to dependencies (length (all_targets dependencies) + 2)
          (first_search from to)) [
            | none ↦ none
            | some tail ↦ some (map (λ (n : DependencyNode FilePath). n.path) (from ∷ tail))
          ]
