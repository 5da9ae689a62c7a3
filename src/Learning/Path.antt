-- ===== src/Learning/Path.antt =====
-- `_order_required_prereq_nodes`: the order in which the steps of a path are taken.
pub mod DependencyFirst
pub mod Fuel
use eduvijna_paper_evaluatio.Prelude.{
  ℕ, zero, suc, Bool, not, ◌&&◌, ◌==◌, List, [], ◌∷◌, ◌++◌, map, contains, Result, ok, err, ◌>>=◌,
  if◌then◌else◌,
}
use eduvijna_paper_evaluatio.Learning.Graph.{
  RelationshipType, PrerequisiteEdge, same_type, edges_by_dependent,
}
use eduvijna_paper_evaluatio.Learning.Cycles.{LearningCode, out_of_fuel}

-- `nid != target_id and nid in required_pred_ids`
unfoldable pub is_step : (target_id : ℕ) → List ℕ → ℕ → Bool
unfolding contains
is_step target_id required_pred_ids nid = not (nid == target_id) && contains required_pred_ids nid

-- The nodes that were seen are those of the order.
unfoldable pub append_step : (target_id : ℕ) → List ℕ → ℕ → List ℕ → List ℕ
unfolding contains is_step
append_step target_id required_pred_ids nid ordered =
    if is_step target_id required_pred_ids nid && not (contains ordered nid)
    then ordered ++ (nid ∷ [])
    else ordered

-- the loop of `visit`, which goes on past an edge that is not required
unfoldable pub visit_required :
    (ℕ → List ℕ → Result LearningCode (List ℕ))
    → List PrerequisiteEdge
    → List ℕ
    → Result LearningCode (List ℕ)
unfolding same_type
visit_required visit [] ordered = ok ordered
visit_required visit (e ∷ es) ordered =
    (if same_type e.relationship_type RelationshipType.required
      then visit e.prerequisite_node_id ordered
      else ok ordered)
    >>= λ next. visit_required visit es next

module _ (edges : List PrerequisiteEdge) (target_id : ℕ) (required_pred_ids : List ℕ) where
  -- `visit`, on fuel for the depth of the recursion
  unfoldable pub visit_node : ℕ → ℕ → List ℕ → Result LearningCode (List ℕ)
  unfolding visit_required append_step edges_by_dependent
  visit_node zero nid ordered = err out_of_fuel
  visit_node (suc fuel) nid ordered =
      visit_required (visit_node fuel) (edges_by_dependent edges nid) ordered >>= λ next.
      ok (append_step target_id required_pred_ids nid next)

unfoldable pub order_required_prereq_nodes :
    (fuel : ℕ) (target_id : ℕ)
    → (edges required_edges : List PrerequisiteEdge) → Result LearningCode (List ℕ)
unfolding visit_node
order_required_prereq_nodes fuel target_id edges required_edges =
    visit_node edges target_id
      (map (λ (e : PrerequisiteEdge). e.prerequisite_node_id) required_edges) fuel target_id []
