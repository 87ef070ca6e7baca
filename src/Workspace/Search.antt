-- ===== src/Workspace/Search.antt =====
-- The search of `dependency_cycle_for` of src/workspace.rs, from its first node to its answer.
use bbtidy.Base.{
  ℕ, zero, suc, ◌+◌, ◌≤◌, ◌<◌, ◌≡◌, ◌⊎◌, refl, sym, subst, ap, ◌∙◌, Option, none, some, Bool, true,
  false, List, [], ◌∷◌, map, length, All, Bool-cases, Option-cases, inl, inr, arith,
}
use bbtidy.Workspace.Cycle.{
  WorkspaceClassContext, DependencyNode, DependencyEdge, Search, Visit, visited_all, returns,
  same_node, contains_node, edges_of, all_targets, visit_edges, first_search, search_cycle,
  dependency_cycle_for,
}
use bbtidy.Workspace.Walks.{
  Decides, same_node-Decides, targets, Edge, Walk, single, step, Trace, start, contains_node-append,
}
use bbtidy.Workspace.Found.{Inv, work, unvisited-length, Visited, visit_edges-Visited}

module _ {FilePath : Type 0} (same_path : FilePath → FilePath → Bool)
    (dependencies : List (DependencyNode FilePath × List (DependencyEdge FilePath)))
    (decides : Decides (same_node same_path)) (from to : DependencyNode FilePath) where
  abbrev Node : Type 0
  Node = DependencyNode FilePath

  abbrev has : List Node → Node → Bool
  has = contains_node same_path

  -- `none` is the answer exactly if there is no walk.
  abbrev pub Answer : Option (List Node) → Type 0
  Answer (some ns) = Walk same_path dependencies to from ns
  Answer none = (ns : List Node) → Walk same_path dependencies to from ns → ⊥

  targets_known :
      (entries : List (Node × List (DependencyEdge FilePath))) (u v : Node)
      → has (targets (edges_of same_path entries u)) v ≡ true
      → has (all_targets same_path entries) v ≡ true
  targets_known [] u v h = cc
  targets_known ((k, edges) ∷ entries) u v h = elim (Bool-cases (same_node same_path u k)) [
    | inl e ↦
        contains_node-append same_path (targets edges) (all_targets same_path entries) v
        ∙ (let here : has (targets edges) v ≡ true = rw (e, edges_of) at h in rw here refl)
    | inr e ↦
        contains_node-append same_path (targets edges) (all_targets same_path entries) v
        ∙ (let behind = targets_known entries u v (rw (e, edges_of) at h) in ground (arith, behind))
  ]

  -- The edges of a node lead to targets of the graph.
  All-targets :
      (u : Node) (edges : List (DependencyEdge FilePath))
      → ((v : Node)
          → has (targets edges) v ≡ true
          → (Edge same_path dependencies u v × (has (all_targets same_path dependencies) v ≡ true)))
      → All
          (λ (e : DependencyEdge FilePath).
            Edge same_path dependencies u e.to
            × (has (all_targets same_path dependencies) e.to ≡ true))
          edges
  All-targets u [] f = tt
  All-targets u (e ∷ edges) f = (
    f e.to (rw (decides.complete e.to) refl),
    All-targets u edges (λ v h. f v (ground (arith, h))),
  )

  -- From a visited node a walk leads to visited nodes, where nothing waits.
  Walk-visited :
      (s : Search FilePath)
      → ((u v : Node)
          → has s.visited u ≡ true
          → Edge same_path dependencies u v
          → has s.visited v ≡ true)
      → {a b : Node} {ns : List Node} → Walk same_path dependencies a b ns
      → has s.visited a ≡ true
      → has s.visited b ≡ true
  Walk-visited s closed (single a) h = h
  Walk-visited s closed (step {a} {b} e w) h = Walk-visited s closed w (closed a b h e)

  -- Without a current node: only the queue's nodes have edges that were not followed.
  abbrev Waiting : Search FilePath → Type 0
  Waiting s =
      (u v : Node)
      → has s.visited u ≡ true
      → Edge same_path dependencies u v
      → (has s.queue u ≡ true) ⊎ (has s.visited v ≡ true)

  search_cycle-Answer :
      (fuel : ℕ) (s : Search FilePath)
      → Inv same_path dependencies decides from to s
      → Waiting s
      → work same_path dependencies decides from to s < fuel
      → Answer (search_cycle same_path from to dependencies fuel s)
  unfolding search_cycle
  search_cycle-Answer zero s i closed l = elim l [ ]
  search_cycle-Answer (suc fuel) s i closed l = go s.queue refl (search_cycle-Answer fuel)
    where
      answer :
          (t : Search FilePath) (current : Node) (m : Visit FilePath)
          → Visited same_path dependencies decides from to t current m
          → ((s' : Search FilePath)
              → Inv same_path dependencies decides from to s'
              → Waiting s'
              → work same_path dependencies decides from to s'
                ≤ work same_path dependencies decides from to t
              → Answer (search_cycle same_path from to dependencies fuel s'))
          → Answer (elim m as (λ _. Option (List Node)) [
            | returns tail ↦ tail
            | visited_all s' ↦ search_cycle same_path from to dependencies fuel s'
          ])
      answer t current (visited_all s') (i', c, l') next =
          next s' i'
            (λ u v seen e. elim (c u v seen e) [
              | inl q ↦ inl q
              | inr (inl w) ↦ inr w
              | inr (inr (_, impossible)) ↦ inl (cc)
            ])
            l'
      answer t current (returns r) (ns, e, w) next = subst Answer (sym e) w

      go :
          (queue : List Node)
          → s.queue ≡ queue
          → ((s' : Search FilePath)
              → Inv same_path dependencies decides from to s'
              → Waiting s'
              → work same_path dependencies decides from to s' < fuel
              → Answer (search_cycle same_path from to dependencies fuel s'))
          → Answer (elim queue as (λ _. Option (List Node)) [
            | [] ↦ none
            | current ∷ queue ↦
                elim (visit_edges same_path from to current
                  (edges_of same_path dependencies current)
                  (record s { queue = queue })) [
                    | returns tail ↦ tail
                    | visited_all s' ↦ search_cycle same_path from to dependencies fuel s'
                  ]
          ])
      go [] e next = λ ns w.
          let reached =
            Walk-visited s
              (λ u v seen edge. elim (closed u v seen edge) [
                | inl q ↦
                    let impossible : ◌≡◌ {A = Bool} false true =
                      sym (ap (λ (q : List Node). has q u) e) ∙ q in
                    cc
                | inr v_seen ↦ v_seen
              ])
              w i.to_seen in
          let impossible : ◌≡◌ {A = Bool} true false = sym reached ∙ i.from_new in cc
      go (current ∷ queue) e next =
          let waiting = subst (All (λ n. has s.visited n ≡ true)) e i.queued in
          answer (record s { queue = queue }) current _
            (visit_edges-Visited same_path dependencies decides from to current
              (edges_of same_path dependencies current) (record s { queue = queue })
              (record {
                to_seen = i.to_seen;
                from_new = i.from_new;
                queued = waiting.1;
                traced = i.traced;
              })
              waiting.0
              (All-targets current (edges_of same_path dependencies current)
                (λ v h. (h, targets_known dependencies current v h)))
              (λ u v seen edge. elim (closed u v seen edge) [
                | inr w ↦ inr (inl w)
                | inl q ↦ elim (Bool-cases (same_node same_path u current)) [
                  | inl f ↦
                      let same = decides.sound u current f in
                      inr (
                        inr (same, subst (λ (x : Node). Edge same_path dependencies x v) same edge))
                  | inr f ↦ inl (rw f at (ap (λ (q : List Node). has q u) (sym e) ∙ q))
                ]
              ]))
            (λ s' i' w l'. next s' i' w (omega (arith, ap length e)))

  first_search-Answer :
      same_node same_path from to ≡ false
      → Answer (
          search_cycle same_path from to dependencies
            (length (all_targets same_path dependencies) + 2)
            (first_search same_path from to))
  first_search-Answer other =
      search_cycle-Answer (length (all_targets same_path dependencies) + 2)
        (first_search same_path from to)
        (record {
          to_seen = rw (decides.complete to) refl;
          from_new = rw other refl;
          queued = (rw (decides.complete to) refl, tt);
          traced = λ v h. elim (Bool-cases (same_node same_path v to)) [
            | inl e ↦ (
              0,
              omega arith,
              subst (Trace same_path dependencies to (to ∷ []) [] 0) (sym (decides.sound v to e))
                  (start (rw (decides.complete to) refl)),
            )
            | inr e ↦ let impossible : ◌≡◌ {A = Bool} false true = rw e at h in cc
          ];
        })
        (λ u v seen edge. inl seen)
        (omega (
          arith,
          unvisited-length same_path dependencies decides from to (to ∷ [])
              (all_targets same_path dependencies),
        ))

module _ {FilePath : Type 0} (same_path : FilePath → FilePath → Bool) (decides : Decides same_path)
    (dependencies : List (DependencyNode FilePath × List (DependencyEdge FilePath)))
    (canonicalize_for_lookup : FilePath → FilePath) (from_path to_path : FilePath)
    (context : WorkspaceClassContext) where
  abbrev from : DependencyNode FilePath
  from = record { path = canonicalize_for_lookup from_path; context = context }

  abbrev to : DependencyNode FilePath
  to = record { path = canonicalize_for_lookup to_path; context = context }

  -- The paths of the nodes of a walk that goes on from `from` to `to` and ends at `from`.
  abbrev pub CycleWitness : List FilePath → Type 0
  CycleWitness cycle =
      (ns : List (DependencyNode FilePath)) × (cycle
        ≡ map (λ (n : DependencyNode FilePath). n.path) (from ∷ ns))
      × Walk same_path dependencies to from ns

  abbrev Outcome : Option (List FilePath) → Type 0
  Outcome (some cycle) = CycleWitness cycle
  Outcome none = ¬ ((ns : List (DependencyNode FilePath)) × Walk same_path dependencies to from ns)

  nodes_decide : Decides (same_node same_path)
  nodes_decide = same_node-Decides same_path decides

  mapped :
      (r : Option (List (DependencyNode FilePath)))
      → Answer same_path dependencies nodes_decide from to r
      → Outcome (elim r as (λ _. Option (List FilePath)) [
        | none ↦ none
        | some tail ↦ some (map (λ (n : DependencyNode FilePath). n.path) (from ∷ tail))
      ])
  mapped (some ns) w = (ns, refl, w)
  mapped none unreachable = λ (ns, w). unreachable ns w

  dependency_cycle_for-Outcome : Outcome (
      dependency_cycle_for same_path dependencies canonicalize_for_lookup from_path to_path context)
  unfolding dependency_cycle_for
  dependency_cycle_for-Outcome =
      elim (Bool-cases
        (same_path (canonicalize_for_lookup from_path) (canonicalize_for_lookup to_path))) [
          | inl e ↦
              rw (e, dependency_cycle_for)
                (
                  to ∷ [],
                  ap (λ (path : FilePath). canonicalize_for_lookup from_path ∷ path ∷ [])
                      (decides.sound (canonicalize_for_lookup from_path)
                        (canonicalize_for_lookup to_path) e),
                  subst
                      (λ (path : FilePath).
                        Walk same_path dependencies to (record { path = path; context = context })
                          (to ∷ []))
                      (sym (
                        decides.sound (canonicalize_for_lookup from_path)
                          (canonicalize_for_lookup to_path) e))
                      (single to),
                )
          | inr e ↦
              rw (e, dependency_cycle_for)
                (mapped _
                  (first_search-Answer same_path dependencies nodes_decide from to (rw e refl)))
        ]

  -- A cycle that is returned begins at the canonical path of `from_path`, goes on from that of
  -- `to_path` along dependency edges, and ends where it began.
  pub dependency_cycle_for-CycleWitness :
      (cycle : List FilePath)
      → dependency_cycle_for same_path dependencies canonicalize_for_lookup from_path to_path
          context
        ≡ some cycle
      → CycleWitness cycle
  dependency_cycle_for-CycleWitness cycle e = subst Outcome e dependency_cycle_for-Outcome

  -- If a walk along dependency edges leads from the canonical path of `to_path` back to that of
  -- `from_path`, a cycle is returned: the search ends within its rounds and finds one.
  pub dependency_cycle_for_complete :
      (ns : List (DependencyNode FilePath))
      → Walk same_path dependencies to from ns
      → (cycle : List FilePath) × (dependency_cycle_for same_path dependencies
            canonicalize_for_lookup from_path to_path context
          ≡ some cycle)
        × CycleWitness cycle
  dependency_cycle_for_complete ns w =
      elim (Option-cases (
        dependency_cycle_for same_path dependencies canonicalize_for_lookup from_path to_path
          context)) [
            | inr (cycle, e) ↦ (cycle, e, dependency_cycle_for-CycleWitness cycle e)
            | inl e ↦ absurd ((subst Outcome e dependency_cycle_for-Outcome) (ns, w))
          ]
