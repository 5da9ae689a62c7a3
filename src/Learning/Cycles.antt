-- ===== src/Learning/Cycles.antt =====
-- The checks of `build_learning_plan_structure` on the graph, and `_detect_cycle`.
pub mod Acyclic
pub mod Found
pub mod Order
use eduvijna_paper_evaluatio.Prelude.{
  ℕ, zero, suc, Bool, ◌&&◌, ◌==◌, List, [], ◌∷◌, map, length, contains, select, Result, ok, err,
  guard, ◌>>=◌, ◌>>◌, if◌then◌else◌,
}
use eduvijna_paper_evaluatio.Learning.Graph.{RelationshipType, PrerequisiteEdge, same_type}

-- the codes of `LearningError`; the last is that of the model for fuel that ran out
pub data LearningCode : Type 0 where
  curriculum_prerequisite_invalid curriculum_prerequisite_cycle out_of_fuel : LearningCode

-- the edges of `required_preds[node_id]`
unfoldable pub required_edges : List PrerequisiteEdge → ℕ → List PrerequisiteEdge
unfolding select same_type
required_edges edges node_id =
    select
      (λ e.
        e.dependent_node_id == node_id && same_type e.relationship_type RelationshipType.required)
      edges

unfoldable pub required_preds : List PrerequisiteEdge → ℕ → List ℕ
unfolding required_edges
required_preds edges node_id =
    map (λ (e : PrerequisiteEdge). e.prerequisite_node_id) (required_edges edges node_id)

-- a loop that passes the set of visited nodes on
unfoldable pub visit_all :
    (ℕ → List ℕ → Result LearningCode (List ℕ)) → List ℕ → List ℕ → Result LearningCode (List ℕ)
visit_all visit [] visited = ok visited
visit_all visit (n ∷ ns) visited = visit n visited >>= λ next. visit_all visit ns next

module _ (edges : List PrerequisiteEdge) where
  -- `_detect_cycle`, on fuel for the depth of the recursion
  unfoldable pub detect_cycle :
      ℕ → (node_id : ℕ) → (visiting visited : List ℕ) → Result LearningCode (List ℕ)
  unfolding contains required_preds visit_all
  detect_cycle zero node_id visiting visited = err out_of_fuel
  detect_cycle (suc fuel) node_id visiting visited =
      let deeper =
        visit_all (λ pred seen. detect_cycle fuel pred (node_id ∷ visiting) seen)
          (required_preds edges node_id) visited in
      if contains visiting node_id
      then err curriculum_prerequisite_cycle
      else if contains visited node_id
      then ok visited
      else (deeper >>= λ seen. ok (node_id ∷ seen))

  -- `for nid in node_by_id`
  unfoldable pub detect_cycles : List ℕ → Result LearningCode (List ℕ)
  unfolding visit_all detect_cycle
  detect_cycles nodes =
      visit_all (λ node_id visited. detect_cycle (suc (length nodes)) node_id [] visited) nodes []

-- `if e.prerequisite_node_id not in node_by_id or …`, for each edge
unfoldable pub check_edges : List ℕ → List PrerequisiteEdge → Result LearningCode Unit
unfolding contains
check_edges nodes [] = ok tt
check_edges nodes (e ∷ es) =
    let rest = check_edges nodes es in
    guard (contains nodes e.prerequisite_node_id && contains nodes e.dependent_node_id)
      curriculum_prerequisite_invalid
    >> rest

unfoldable pub check_graph : List ℕ → List PrerequisiteEdge → Result LearningCode (List ℕ)
unfolding check_edges detect_cycles
check_graph nodes edges = do check_edges nodes edges; detect_cycles edges nodes
