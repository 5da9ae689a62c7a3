-- ===== src/Learning/Closure/Fuel.antt =====
-- The search ends: the fuel is never spent.
use eduvijna_paper_evaluatio.Prelude.{
  select_members, ℕ, zero, suc, ◌+◌, ◌≤◌, ◌<◌, ◌≡◌, refl, ap, false, ◌==◌, some, List, [], ◌∷◌,
  length, length-append, contains, All, Any, here, there, Bool-cases, inl, inr, arith, ==_refl,
  if◌then◌else◌,
}
use eduvijna_paper_evaluatio.Learning.Graph.{RelationshipType, PrerequisiteEdge, edges_by_dependent}
use eduvijna_paper_evaluatio.Learning.Closure.{
  Search, reach, collect, visit_edge, visit_edges, search, transitive_prerequisites,
}

-- How many edges lead to a node that was not seen.
pub unseen : List PrerequisiteEdge → List ℕ → ℕ
unseen [] seen = 0
unseen (e ∷ es) seen =
    if contains seen e.prerequisite_node_id then unseen es seen else suc (unseen es seen)

unseen-length : (es : List PrerequisiteEdge) (seen : List ℕ) → unseen es seen ≤ length es
unfolding unseen
unseen-length [] seen = omega arith
unseen-length (e ∷ es) seen = ground (arith, unseen-length es seen)

unseen_less :
    (es : List PrerequisiteEdge) (p : ℕ) (seen : List ℕ) → unseen es (p ∷ seen) ≤ unseen es seen
unfolding unseen contains
unseen_less [] p seen = omega arith
unseen_less (e ∷ es) p seen = ground (arith, unseen_less es p seen)

unseen_drops :
    (es : List PrerequisiteEdge) (e : PrerequisiteEdge) (seen : List ℕ)
    → Any (λ x. x ≡ e) es
    → contains seen e.prerequisite_node_id ≡ false
    → unseen es (e.prerequisite_node_id ∷ seen) < unseen es seen
unfolding unseen contains
unseen_drops [] e seen m h = elim m [ ]
unseen_drops (x ∷ es) e seen (here same) h =
    rw same (
      ground (arith, h, ==_refl e.prerequisite_node_id, unseen_less es e.prerequisite_node_id seen))
unseen_drops (x ∷ es) e seen (there m) h = ground (arith, unseen_drops es e seen m h)

-- Each node that waits is paid for, and each that may still come.
pub measure : List PrerequisiteEdge → Search → ℕ
measure edges s = length s.queue + unseen edges s.seen_nodes

module _ (edges : List PrerequisiteEdge) (relationship : RelationshipType) where
  visit_edge-measure :
      (e : PrerequisiteEdge) (s : Search)
      → Any (λ x. x ≡ e) edges
      → measure edges (visit_edge relationship e s) ≤ measure edges s
  unfolding visit_edge collect reach measure
  visit_edge-measure e s m = elim (Bool-cases (contains s.seen_nodes e.prerequisite_node_id)) [
    | inl yes' ↦ ground arith
    | inr no' ↦ ground (
      arith,
      unseen_drops edges e s.seen_nodes m no',
      length-append s.queue (e.prerequisite_node_id ∷ []),
    )
  ]

  visit_edges-measure :
      (es : List PrerequisiteEdge) (s : Search)
      → All (λ e. Any (λ x. x ≡ e) edges) es
      → measure edges (visit_edges relationship es s) ≤ measure edges s
  unfolding visit_edges
  visit_edges-measure [] s h = omega arith
  visit_edges-measure (e ∷ es) s (m, ms) =
      omega
        (arith, visit_edge-measure e s m, visit_edges-measure es (visit_edge relationship e s) ms)

  pub edges_of : (k : ℕ) → All (λ e. Any (λ x. x ≡ e) edges) (edges_by_dependent edges k)
  unfolding edges_by_dependent
  edges_of k = select_members (λ e. e.dependent_node_id == k) edges

  -- A search returns if its fuel covers the measure.
  pub search_returns :
      (fuel : ℕ) (queue : List ℕ) (s : Search)
      → queue ≡ s.queue
      → measure edges s ≤ fuel
      → (found : List PrerequisiteEdge) × (search relationship edges fuel queue s ≡ some found)
  unfolding search measure
  search_returns fuel [] s same enough = (s.collected, refl)
  search_returns zero (k ∷ queue) s same enough = absurd (omega (arith, enough, ap length same))
  search_returns (suc fuel) (k ∷ queue) s same enough =
      let now : Search = record s { queue = queue } in
      let next = visit_edges relationship (edges_by_dependent edges k) now in
      search_returns fuel next.queue next refl (
        omega (
          arith,
          enough,
          ap length same,
          visit_edges-measure (edges_by_dependent edges k) now (edges_of k),
        ))

-- The search for the prerequisites of a target always ends with an answer: its fuel, one more
-- than the number of edges, covers every node that can enter the queue.
pub transitive_prerequisites_returns :
    (edges : List PrerequisiteEdge) (relationship : RelationshipType) (target_id : ℕ)
    → (found : List PrerequisiteEdge) × (transitive_prerequisites relationship edges target_id
        ≡ some found)
unfolding transitive_prerequisites measure
transitive_prerequisites_returns edges relationship target_id =
    search_returns edges relationship (suc (length edges)) (target_id ∷ []) _ refl
      (omega (arith, unseen-length edges (target_id ∷ [])))
