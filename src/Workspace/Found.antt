-- ===== src/Workspace/Found.antt =====
-- `dependency_cycle_for` of src/workspace.rs finds a walk exactly if there is one.
use bbtidy.Base.{
  ℕ, suc, ◌+◌, ◌≤◌, ◌<◌, ◌≡◌, ◌⊎◌, refl, sym, subst, ap, ◌∙◌, some, Bool, true, false, List, [],
  ◌∷◌, ◌++◌, length, length-append, All, if◌then◌else◌, Bool-cases, inl, inr, arith,
}
use bbtidy.Workspace.Cycle.{
  DependencyNode, DependencyEdge, Search, Visit, visited_all, returns, same_node, contains_node,
  retrace, all_targets, visit_edges,
}
use bbtidy.Workspace.Walks.{
  Decides, targets, Edge, Walk, single, Trace, back, contains_node-append, Trace-extend,
  retrace-Walk,
}

module _ {FilePath : Type 0} (same_path : FilePath → FilePath → Bool)
    (dependencies : List (DependencyNode FilePath × List (DependencyEdge FilePath)))
    (decides : Decides (same_node same_path)) (from to : DependencyNode FilePath) where
  abbrev pub Node : Type 0
  Node = DependencyNode FilePath

  abbrev pub has : List Node → Node → Bool
  has = contains_node same_path

  pub record Inv (s : Search FilePath) : Type 0 where
    pub to_seen : has s.visited to ≡ true
    pub from_new : has s.visited from ≡ false
    pub queued : All (λ n. has s.visited n ≡ true) s.queue
    pub traced :
        (v : Node)
        → has s.visited v ≡ true
        → (n : ℕ) × (n < length s.visited) × Trace same_path dependencies to s.visited s.parents n v

  -- Each edge out of a visited node leads to a visited one, but for the nodes that wait in the
  -- queue and the edges of `current` that are left.
  abbrev pub Closed : Search FilePath → Node → List (DependencyEdge FilePath) → Type 0
  Closed s current edges =
      (u v : Node)
      → has s.visited u ≡ true
      → Edge same_path dependencies u v
      → (has s.queue u ≡ true)
        ⊎ ((has s.visited v ≡ true) ⊎ ((u ≡ current) × (has (targets edges) v ≡ true)))

  -- The targets that are not visited.
  abbrev pub unvisited : List Node → List Node → ℕ
  unvisited visited [] = 0
  unvisited visited (x ∷ xs) = (if has visited x then 0 else 1) + unvisited visited xs

  pub unvisited-length : (visited xs : List Node) → unvisited visited xs ≤ length xs
  unvisited-length visited [] = omega arith
  unvisited-length visited (x ∷ xs) = ground (arith, unvisited-length visited xs)

  unvisited-le :
      (visited xs : List Node) (next : Node) → unvisited (next ∷ visited) xs ≤ unvisited visited xs
  unvisited-le visited [] next = omega arith
  unvisited-le visited (x ∷ xs) next = ground (arith, unvisited-le visited xs next)

  unvisited-lt :
      (visited xs : List Node) (next : Node)
      → has xs next ≡ true
      → has visited next ≡ false
      → unvisited (next ∷ visited) xs < unvisited visited xs
  unvisited-lt visited [] next h new = cc
  unvisited-lt visited (x ∷ xs) next h new = elim (Bool-cases (same_node same_path next x)) [
    | inl e ↦
        let same : next ≡ x = decides.sound next x e in
        let here : same_node same_path x next ≡ true =
          subst (λ (y : Node). same_node same_path y next ≡ true) same (decides.complete next) in
        let there : has visited x ≡ false = subst (λ (y : Node). has visited y ≡ false) same new in
        rw here (rw there (omega (arith, unvisited-le visited xs next)))
    | inr e ↦ ground (arith, e, unvisited-lt visited xs next (rw e at h) new)
  ]

  abbrev pub work : Search FilePath → ℕ
  work s = unvisited s.visited (all_targets same_path dependencies) + length s.queue

  -- A node that is found for the first time.
  discovered-Inv :
      (current next : Node) (s : Search FilePath)
      → Inv s
      → has s.visited current ≡ true
      → has s.visited next ≡ false
      → Edge same_path dependencies current next
      → (v : Node) → has (next ∷ s.visited) v ≡ true
      → (n : ℕ) × (n < length (next ∷ s.visited))
        × Trace same_path dependencies to (next ∷ s.visited) ((next, current) ∷ s.parents) n v
  discovered-Inv current next s i seen new edge v h =
      elim (Bool-cases (same_node same_path v next)) [
        | inr e ↦
            let (n, l, t) = i.traced v (rw e at h) in
            (n, omega arith, Trace-extend same_path dependencies decides to next current new t)
        | inl e ↦
            let (n, l, t) = i.traced current seen in
            (
              suc n,
              omega arith,
              subst
                  (Trace same_path dependencies to (next ∷ s.visited) ((next, current) ∷ s.parents)
                    (suc n))
                  (sym (decides.sound v next e))
                  (back (rw (decides.complete next) refl)
                    (not_to (same_node same_path next to) refl) (rw (decides.complete next) refl)
                    edge (Trace-extend same_path dependencies decides to next current new t)),
            )
      ]
    where
      not_to : (b : Bool) → same_node same_path next to ≡ b → b ≡ false
      not_to false f = refl
      not_to true f =
          let same : has s.visited next ≡ has s.visited to =
            ap (has s.visited) (decides.sound next to f) in
          let impossible : ◌≡◌ {A = Bool} true false = sym i.to_seen ∙ sym same ∙ new in cc

  -- What the loop over edges ends with.
  abbrev pub Visited : Search FilePath → Node → Visit FilePath → Type 0
  Visited s current (visited_all s') = Inv s' × Closed s' current [] × (work s' ≤ work s)
  Visited s current (returns r) =
      (ns : List Node) × (r ≡ some ns) × Walk same_path dependencies to from ns

  All-queued :
      (visited queue : List Node) (next : Node)
      → All (λ n. has visited n ≡ true) queue
      → All (λ n. has (next ∷ visited) n ≡ true) queue
  All-queued visited [] next a = tt
  All-queued visited (x ∷ xs) next a = (ground (arith, a.0), All-queued visited xs next a.1)

  All-snoc :
      (visited queue : List Node) (next : Node)
      → All (λ n. has visited n ≡ true) queue
      → has visited next ≡ true
      → All (λ n. has visited n ≡ true) (queue ++ next ∷ [])
  All-snoc visited [] next a h = (h, tt)
  All-snoc visited (x ∷ xs) next a h = (a.0, All-snoc visited xs next a.1 h)

  has-extend : (xs : List Node) (next v : Node) → has xs v ≡ true → has (next ∷ xs) v ≡ true
  has-extend xs next v h = ground (arith, h)

  -- The edge to a node that was visited before.
  Closed-skip :
      (s : Search FilePath) (current : Node) (edge : DependencyEdge FilePath)
      (edges : List (DependencyEdge FilePath))
      → has s.visited edge.to ≡ true
      → Closed s current (edge ∷ edges)
      → Closed s current edges
  Closed-skip s current edge edges h closed u v seen e = elim (closed u v seen e) [
    | inl q ↦ inl q
    | inr (inl w) ↦ inr (inl w)
    | inr (inr (same, t)) ↦ elim (Bool-cases (same_node same_path v edge.to)) [
      | inl f ↦
          inr
            (inl (subst (λ (x : Node). has s.visited x ≡ true) (sym (decides.sound v edge.to f)) h))
      | inr f ↦ inr (inr (same, rw f at t))
    ]
  ]

  -- The edge to a new node, which is put in the queue.
  Closed-onward :
      (s : Search FilePath) (current : Node) (edge : DependencyEdge FilePath)
      (edges : List (DependencyEdge FilePath))
      → Closed s current (edge ∷ edges)
      → Closed
          (record {
            queue = s.queue ++ edge.to ∷ [];
            visited = edge.to ∷ s.visited;
            parents = (edge.to, current) ∷ s.parents;
          })
          current
          edges
  Closed-onward s current edge edges closed u v seen e =
      elim (Bool-cases (same_node same_path u edge.to)) [
        | inl f ↦ inl (contains_node-append same_path s.queue (edge.to ∷ []) u ∙ ground (arith, f))
        | inr f ↦ elim (closed u v (rw f at seen) e) [
          | inl q ↦ inl (contains_node-append same_path s.queue (edge.to ∷ []) u ∙ rw q refl)
          | inr (inl w) ↦ inr (inl (has-extend s.visited edge.to v w))
          | inr (inr (same, t)) ↦ elim (Bool-cases (same_node same_path v edge.to)) [
            | inl g ↦ inr (inl (rw g refl))
            | inr g ↦ inr (inr (same, rw g at t))
          ]
        ]
      ]

  abbrev onward_search : DependencyEdge FilePath → Node → Search FilePath → Search FilePath
  onward_search edge current s = record {
    queue = s.queue ++ edge.to ∷ [];
    visited = edge.to ∷ s.visited;
    parents = (edge.to, current) ∷ s.parents;
  }

  returned :
      (edge : DependencyEdge FilePath) (s : Search FilePath) (current : Node)
      → Inv s
      → has s.visited current ≡ true
      → has s.visited edge.to ≡ false
      → Edge same_path dependencies current edge.to
      → same_node same_path edge.to from ≡ true
      → (ns : List Node) × (retrace same_path
            ((edge.to, current) ∷ s.parents)
            to
            (suc (length s.visited))
            from
            []
          ≡ some ns)
        × Walk same_path dependencies to from ns
  returned edge s current i seen new edge_to f =
      let (n, l, t) =
        discovered-Inv current edge.to s i seen new edge_to edge.to
          (rw (decides.complete edge.to) refl) in
      retrace-Walk same_path dependencies decides to (suc (length s.visited)) from []
        (subst
          (Trace same_path dependencies to (edge.to ∷ s.visited) ((edge.to, current) ∷ s.parents) n)
          (decides.sound edge.to from f) t)
        l (single from)

  onward-Inv :
      (edge : DependencyEdge FilePath) (current : Node) (s : Search FilePath)
      → Inv s
      → has s.visited current ≡ true
      → has s.visited edge.to ≡ false
      → Edge same_path dependencies current edge.to
      → same_node same_path edge.to from ≡ false
      → Inv (onward_search edge current s)
  onward-Inv edge current s i seen new edge_to f = record {
    to_seen = has-extend s.visited edge.to to i.to_seen;
    from_new = elim (Bool-cases (same_node same_path from edge.to)) [
      | inl g ↦
          let same = decides.sound from edge.to g in
          let impossible : ◌≡◌ {A = Bool} true false =
            sym (decides.complete from) ∙ ap (λ (x : Node). same_node same_path x from) same ∙ f in
          cc
      | inr g ↦ rw g i.from_new
    ];
    queued =
        All-snoc (edge.to ∷ s.visited) s.queue edge.to
          (All-queued s.visited s.queue edge.to i.queued) (rw (decides.complete edge.to) refl);
    traced = discovered-Inv current edge.to s i seen new edge_to;
  }

  work_onward :
      (edge : DependencyEdge FilePath) (current : Node) (s : Search FilePath)
      → has s.visited edge.to ≡ false
      → has (all_targets same_path dependencies) edge.to ≡ true
      → work (onward_search edge current s) ≤ work s
  work_onward edge current s new known = omega (
    arith,
    unvisited-lt s.visited (all_targets same_path dependencies) edge.to known new,
    length-append s.queue (edge.to ∷ []),
  )

  Visited-weaken :
      (s t : Search FilePath) (current : Node) (m : Visit FilePath)
      → work t ≤ work s
      → Visited t current m
      → Visited s current m
  Visited-weaken s t current (visited_all s') l (i, c, w) = (i, c, omega arith)
  Visited-weaken s t current (returns r) l v = v

  pub visit_edges-Visited :
      (current : Node) (edges : List (DependencyEdge FilePath)) (s : Search FilePath)
      → Inv s
      → has s.visited current ≡ true
      → All
          (λ (e : DependencyEdge FilePath).
            Edge same_path dependencies current e.to
            × (has (all_targets same_path dependencies) e.to ≡ true))
          edges
      → Closed s current edges
      → Visited s current (visit_edges same_path from to current edges s)
  unfolding visit_edges
  visit_edges-Visited current [] s i seen es closed = (i, closed, omega arith)
  visit_edges-Visited current (edge ∷ edges) s i seen es closed =
      elim (Bool-cases (has s.visited edge.to)) [
        | inl h ↦
            rw (h, visit_edges)
              (visit_edges-Visited current edges s i seen es.1
                (Closed-skip s current edge edges h closed))
        | inr h ↦ elim (Bool-cases (same_node same_path edge.to from)) [
          | inl f ↦ rw (h, visit_edges) (rw f (returned edge s current i seen h es.0.0 f))
          | inr f ↦
              rw (h, visit_edges)
                (rw f (
                  Visited-weaken s (onward_search edge current s) current _
                    (work_onward edge current s h es.0.1)
                    (visit_edges-Visited current edges (onward_search edge current s)
                      (onward-Inv edge current s i seen h es.0.0 f)
                      (has-extend s.visited edge.to current seen) es.1
                      (Closed-onward s current edge edges closed))))
        ]
      ]
