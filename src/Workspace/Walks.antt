-- ===== src/Workspace/Walks.antt =====
-- Walks along the dependency edges, and how `dependency_cycle_for` of src/workspace.rs traces one
-- back.
use bbtidy.Base.{
  ℕ, zero, suc, ◌<◌, ◌≡◌, refl, sym, ap, ◌∙◌, some, Bool, true, false, ◌&&◌, ◌||◌, List, [], ◌∷◌,
  ◌++◌, map, Bool-cases, inl, inr, arith,
}
use bbtidy.Workspace.Cycle.{
  WorkspaceClassContext, recipe, global, same_context, DependencyNode, DependencyEdge, same_node,
  contains_node, get, retrace, edges_of,
}

-- The Boolean equality of the paths decides their equality.
pub record Decides {A : Type 0} (same : A → A → Bool) : Type 0 where
  pub sound : (a b : A) → same a b ≡ true → a ≡ b
  pub complete : (a : A) → same a a ≡ true

module _ {FilePath : Type 0} (same_path : FilePath → FilePath → Bool)
    (decides : Decides same_path) where
  context_eq : (c d : WorkspaceClassContext) → same_context c d ≡ true → c ≡ d
  context_eq recipe recipe h = refl
  context_eq recipe global h = cc
  context_eq global recipe h = cc
  context_eq global global h = refl

  context_refl : (c : WorkspaceClassContext) → same_context c c ≡ true
  context_refl recipe = refl
  context_refl global = refl

  pub same_node-Decides : Decides (same_node same_path)
  same_node-Decides = record {
    sound = λ a b h. node_eq a b h;
    complete = λ a. rw (decides.complete a.path) (context_refl a.context);
  }
    where
      node_eq :
          (a b : DependencyNode FilePath)
          → (same_path a.path b.path && same_context a.context b.context) ≡ true
          → a ≡ b
      node_eq a b h = elim (Bool-cases (same_path a.path b.path)) [
        | inl e ↦ ground (arith, decides.sound a.path b.path e, context_eq a.context b.context, e)
        | inr e ↦ ground (arith, e)
      ]

abbrev pub targets :
    {FilePath : Type 0} → List (DependencyEdge FilePath) → List (DependencyNode FilePath)
targets edges = map (λ e. e.to) edges

pub contains_node-append :
    {FilePath : Type 0} (same_path : FilePath → FilePath → Bool)
    (xs ys : List (DependencyNode FilePath)) (n : DependencyNode FilePath)
    → contains_node same_path (xs ++ ys) n
      ≡ (contains_node same_path xs n || contains_node same_path ys n)
contains_node-append same_path [] ys n = refl
contains_node-append same_path (x ∷ xs) ys n = elim (Bool-cases (same_node same_path n x)) [
  | inl e ↦ rw e refl
  | inr e ↦ rw e (contains_node-append same_path xs ys n)
]

module _ {FilePath : Type 0} (same_path : FilePath → FilePath → Bool)
    (dependencies : List (DependencyNode FilePath × List (DependencyEdge FilePath))) where
  abbrev Node : Type 0
  Node = DependencyNode FilePath

  abbrev pub Edge : Node → Node → Type 0
  Edge u v = contains_node same_path (targets (edges_of same_path dependencies u)) v ≡ true

  -- The nodes of a walk along the edges, with both ends.
  pub data Walk : Node → Node → List Node → Type 0 where
    single : (a : Node) → Walk a a (a ∷ [])
    step : {a b c : Node} {ns : List Node} → Edge a b → Walk b c ns → Walk a c (a ∷ ns)

  -- The parents lead from a node back to `to`, over nodes that were visited.
  pub data Trace (to : Node) (visited : List Node) (parents : List (Node × Node))
      : ℕ → Node → Type 0 where
    start : contains_node same_path visited to ≡ true → Trace to visited parents zero to
    back :
        {n : ℕ} {p v : Node}
        → contains_node same_path visited v ≡ true
        → same_node same_path v to ≡ false
        → get same_path parents v ≡ some p
        → Edge p v
        → Trace to visited parents n p
        → Trace to visited parents (suc n) v

  module _ (decides : Decides (same_node same_path)) (to : Node) where
    pub Trace-extend :
        {visited : List Node} {parents : List (Node × Node)} {n : ℕ} {v : Node}
        (next current : Node)
        → contains_node same_path visited next ≡ false
        → Trace to visited parents n v
        → Trace to (next ∷ visited) ((next, current) ∷ parents) n v
    Trace-extend next current new (start seen) =
        start (elim (Bool-cases (same_node same_path to next)) [
          | inl e ↦ rw e refl
          | inr e ↦ rw e seen
        ])
    Trace-extend {visited} {parents} next current new
          (back {n} {p} {v} seen other found edge trace) =
        elim (Bool-cases (same_node same_path v next)) [
          | inl e ↦
              let same : v ≡ next = decides.sound v next e in
              let impossible : ◌≡◌ {A = Bool} true false =
                sym seen ∙ ap (contains_node same_path visited) same ∙ new in
              cc
          | inr e ↦ back (rw e seen) other (rw e found) edge (Trace-extend next current new trace)
        ]

    -- A trace that is no longer than the fuel is walked to its end.
    pub retrace-Walk :
        (fuel : ℕ) (end : Node) (tail : List Node) {visited : List Node}
        {parents : List (Node × Node)} {n : ℕ} {v : Node}
        → Trace to visited parents n v
        → n < fuel
        → Walk v end (v ∷ tail)
        → (ns : List Node) × (retrace same_path parents to fuel v tail ≡ some ns) × Walk to end ns
    unfolding retrace
    retrace-Walk zero end tail t l w = absurd (omega arith)
    retrace-Walk (suc fuel) end tail (start seen) l w =
        (to ∷ tail, rw (decides.complete to) refl, w)
    retrace-Walk (suc fuel) end tail {visited} {parents}
          (back {n} {p} {v} seen other found edge trace) l w =
        let (ns, e, whole) = retrace-Walk fuel end (v ∷ tail) trace (omega arith) (step edge w) in
        (ns, rw other (rw found e), whole)
