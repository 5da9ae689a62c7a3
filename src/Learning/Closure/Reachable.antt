-- ===== src/Learning/Closure/Reachable.antt =====
-- What the search collects lies behind the target.
use eduvijna_paper_evaluatio.Prelude.{
  ℕ, zero, suc, ◌≡◌, refl, sym, true, false, not, ◌&&◌, ◌==◌, ==_iff, Option, some, List, [], ◌∷◌,
  ◌++◌, contains, All, Any, All-append, All-both, All-select, select_members, Bool-cases, inl, inr,
  if◌then◌else◌, &&-eq-true, length,
}
use eduvijna_paper_evaluatio.Learning.Graph.{
  RelationshipType, PrerequisiteEdge, same_type, edges_by_dependent,
}
use eduvijna_paper_evaluatio.Learning.Closure.{
  Search, seen_edge, reach, collect, visit_edge, visit_edges, search, transitive_prerequisites,
}

pub some-injective {ℓ} : {A : Type ℓ} {a b : A} → ◌≡◌ {A = Option A} (some a) (some b) → a ≡ b
some-injective e = cc

module _ (edges : List PrerequisiteEdge) (relationship : RelationshipType) (target_id : ℕ) where
  -- Edges of the relationship lead from the node to the target.
  pub data Leads : ℕ → Type 0 where
    at_target : Leads target_id
    through :
        (e : PrerequisiteEdge)
        → Any (λ x. x ≡ e) edges
        → same_type e.relationship_type relationship ≡ true
        → Leads e.dependent_node_id
        → Leads e.prerequisite_node_id

  -- An edge of the graph, of the relationship, that ends at a node that leads to the target.
  pub record IsBehind (e : PrerequisiteEdge) : Type 0 where
    pub edge : Any (λ x. x ≡ e) edges
    pub typed : same_type e.relationship_type relationship ≡ true
    pub leads : Leads e.dependent_node_id

  record Sound (s : Search) : Type 0 where
    queued : All Leads s.queue
    behind : All IsBehind s.collected

  reach-Sound : (k : ℕ) (s : Search) → Leads k → Sound s → Sound (reach k s)
  unfolding reach
  reach-Sound k s l h =
      elim (contains s.seen_nodes k)
        as (λ b. Sound (
          if b then s else record s { queue = s.queue ++ k ∷ []; seen_nodes = k ∷ s.seen_nodes })) [
            | true ↦ h
            | false ↦ record {
              queued = All-append Leads s.queue (k ∷ []) h.queued (l, tt);
              behind = h.behind;
            }
          ]

  visit_edge-Sound :
      (e : PrerequisiteEdge) (s : Search)
      → Any (λ x. x ≡ e) edges
      → Leads e.dependent_node_id
      → Sound s
      → Sound (visit_edge relationship e s)
  unfolding visit_edge collect
  visit_edge-Sound e s m l h =
      elim (Bool-cases (same_type e.relationship_type relationship && not (seen_edge s e))) [
        | inr no' ↦ rw no' h
        | inl yes' ↦
            let typed = (&&-eq-true _ _ yes').0 in
            rw yes' (
              reach-Sound e.prerequisite_node_id (record s { collected = s.collected ++ e ∷ [] })
                (through e m typed l)
                (record {
                  queued = h.queued;
                  behind =
                      All-append IsBehind s.collected (e ∷ []) h.behind
                        (record { edge = m; typed = typed; leads = l }, tt);
                }))
      ]

  visit_edges-Sound :
      (es : List PrerequisiteEdge) (s : Search)
      → All (λ e. Any (λ x. x ≡ e) edges × Leads e.dependent_node_id) es
      → Sound s
      → Sound (visit_edges relationship es s)
  unfolding visit_edges
  visit_edges-Sound [] s a h = h
  visit_edges-Sound (e ∷ es) s (a, rest) h =
      visit_edges-Sound es (visit_edge relationship e s) rest (visit_edge-Sound e s a.0 a.1 h)

  edges_at :
      (k : ℕ)
      → Leads k
      → All (λ e. Any (λ x. x ≡ e) edges × Leads e.dependent_node_id) (edges_by_dependent edges k)
  unfolding edges_by_dependent
  edges_at k l =
      All-both
        (λ e same m.
          (m, mathlib.Core.Path.subst Leads (sym ((==_iff e.dependent_node_id k).0 same)) l))
        (edges_by_dependent edges k) (All-select (λ e. e.dependent_node_id == k) edges)
        (select_members (λ e. e.dependent_node_id == k) edges)

  search-IsBehind :
      (fuel : ℕ) (queue : List ℕ) (s : Search) {found : List PrerequisiteEdge}
      → queue ≡ s.queue
      → Sound s
      → search relationship edges fuel queue s ≡ some found
      → All IsBehind found
  unfolding search
  search-IsBehind fuel [] s {found} same h e =
      mathlib.Core.Path.subst (λ l. All IsBehind l) (some-injective e) h.behind
  search-IsBehind zero (k ∷ queue) s same h e = cc
  search-IsBehind (suc fuel) (k ∷ queue) s same h e =
      let waiting = mathlib.Core.Path.subst (λ l. All Leads l) (sym same) h.queued in
      let now : Search = record s { queue = queue } in
      let next = visit_edges relationship (edges_by_dependent edges k) now in
      search-IsBehind fuel next.queue next refl
        (visit_edges-Sound (edges_by_dependent edges k) now (edges_at k waiting.0)
          (record { queued = waiting.1; behind = h.behind }))
        e

  -- Every edge that the search collects is an edge of the graph and of the asked relationship, and
  -- a chain of such edges leads from its dependent node to the target.
  pub transitive_prerequisites-IsBehind :
      (found : List PrerequisiteEdge)
      → transitive_prerequisites relationship edges target_id ≡ some found
      → All IsBehind found
  unfolding transitive_prerequisites
  transitive_prerequisites-IsBehind found e =
      search-IsBehind (suc (length edges)) (target_id ∷ []) _ refl
        (record { queued = (at_target, tt); behind = tt }) e
