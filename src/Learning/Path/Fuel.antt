-- ===== src/Learning/Path/Fuel.antt =====
-- The order is found on a graph that passed the checks of the build.
use eduvijna_paper_evaluatio.Prelude.{
  ◌∙◌, All-of_Any, arith, length, zero, suc, ◌<◌, true, ℕ, ◌≡◌, refl, ap, ◌==◌, List, [], ◌∷◌,
  select, Result, ok, ◌>>=◌, All, Bool-cases, inl, inr,
}
use eduvijna_paper_evaluatio.Learning.Graph.{
  RelationshipType, PrerequisiteEdge, same_type, edges_by_dependent,
}
use eduvijna_paper_evaluatio.Learning.Cycles.{
  check_graph, LearningCode, required_edges, required_preds, visit_all,
}
use eduvijna_paper_evaluatio.Learning.Cycles.Order.{IsOrdered}
use eduvijna_paper_evaluatio.Learning.Cycles.Acyclic.{
  depth, depth-bounded, edge_deepens, check_graph-IsOrdered,
}
use eduvijna_paper_evaluatio.Learning.Path.{
  append_step, suc, contains, order_required_prereq_nodes, visit_node, visit_required,
}

-- The loop visits the required prerequisites.
pub visit_required-visit_all :
    (visit : ℕ → List ℕ → Result LearningCode (List ℕ)) (edges : List PrerequisiteEdge) (nid : ℕ)
    (ordered : List ℕ)
    → visit_required visit (edges_by_dependent edges nid) ordered
      ≡ visit_all visit (required_preds edges nid) ordered
unfolding visit_required visit_all edges_by_dependent required_preds required_edges select
visit_required-visit_all visit [] nid ordered = refl
visit_required-visit_all visit (e ∷ es) nid ordered =
    elim (Bool-cases (e.dependent_node_id == nid)) [
      | inr elsewhere ↦ rw elsewhere (visit_required-visit_all visit es nid ordered)
      | inl here' ↦ elim (Bool-cases (same_type e.relationship_type RelationshipType.required)) [
        | inr skipped ↦ rw here' (rw skipped (visit_required-visit_all visit es nid ordered))
        | inl taken ↦ rw here' (
            rw taken (
              ap (λ next. visit e.prerequisite_node_id ordered >>= next)
                (λ i next. visit_required-visit_all visit es nid next i)))
      ]
    ]

visit_all_returns {ℓ} :
    (P : ℕ → Type ℓ) (visit : ℕ → List ℕ → Result LearningCode (List ℕ))
    → ((n : ℕ) (v : List ℕ) → P n → (w : List ℕ) × (visit n v ≡ ok w))
    → (ns v : List ℕ) → All P ns
    → (w : List ℕ) × (visit_all visit ns v ≡ ok w)
unfolding visit_all
visit_all_returns P visit each [] v h = (v, refl)
visit_all_returns P visit each (n ∷ ns) v h =
    let (mid, first') = each n v h.0 in
    let (w, rest) = visit_all_returns P visit each ns mid h.1 in (w, rw first' rest)

module _ (edges : List PrerequisiteEdge) (order : List ℕ) (ordered : IsOrdered edges order) where
  visit_node_returns :
      (target_id : ℕ) (required_pred_ids : List ℕ) (fuel nid : ℕ) (v : List ℕ)
      → contains order nid ≡ true
      → depth order nid < fuel
      → (w : List ℕ) × (visit_node edges target_id required_pred_ids fuel nid v ≡ ok w)
  unfolding visit_node
  visit_node_returns target_id ids zero nid v inside enough = absurd (omega (arith, enough))
  visit_node_returns target_id ids (suc fuel) nid v inside enough =
      let preds =
        All-of_Any (λ p. (contains order p ≡ true) × (depth order p < depth order nid))
          (required_preds edges nid) (λ p m. edge_deepens edges order p nid ordered m inside) in
      let (w, walked) =
        visit_all_returns (λ p. (contains order p ≡ true) × (depth order p < depth order nid)) _
          (λ p u h. visit_node_returns target_id ids fuel p u h.0 (omega (arith, h.1, enough)))
          (required_preds edges nid) v preds in
      (
        append_step target_id ids nid w,
        rw (visit_required-visit_all (visit_node edges target_id ids fuel) edges nid v ∙ walked)
            refl,
      )

-- On a graph that passed the checks of the build, the search for the order of the prerequisites
-- of a node of the version returns: calls nest at most as deep as there are visited nodes, so any
-- fuel above their number is enough.
pub order_required_prereq_nodes_returns :
    (nodes visited : List ℕ) (edges required_edges : List PrerequisiteEdge) (target_id fuel : ℕ)
    → check_graph nodes edges ≡ ok visited
    → contains nodes target_id ≡ true
    → length visited < fuel
    → (ordered : List ℕ) × (order_required_prereq_nodes fuel target_id edges required_edges
        ≡ ok ordered)
unfolding order_required_prereq_nodes
order_required_prereq_nodes_returns nodes visited edges required_edges target_id fuel passed inside
      enough =
    let (o, known, all_seen) = check_graph-IsOrdered nodes edges visited passed in
    visit_node_returns edges visited o target_id _ fuel target_id [] (all_seen target_id inside)
      (omega (arith, enough, depth-bounded visited target_id))
