-- ===== src/Learning/Graph.antt =====
-- The prerequisite graph of learning_algorithm.py. Identifiers are UUIDs, read as numbers.
use eduvijna_paper_evaluatio.Prelude.{ℕ, Bool, true, false, List, ◌==◌, select}

pub data RelationshipType : Type 0 where
  required recommended : RelationshipType

pub record PrerequisiteEdge : Type 0 where
  pub id : ℕ
  pub prerequisite_node_id : ℕ
  pub dependent_node_id : ℕ
  pub relationship_type : RelationshipType

unfoldable pub same_type : RelationshipType → RelationshipType → Bool
same_type RelationshipType.required RelationshipType.required = true
same_type RelationshipType.recommended RelationshipType.recommended = true
same_type _ _ = false

-- `edges_by_dependent.get(node_id, [])`: the edges in their order
unfoldable pub edges_by_dependent : List PrerequisiteEdge → ℕ → List PrerequisiteEdge
unfolding select
edges_by_dependent edges node_id = select (λ e. e.dependent_node_id == node_id) edges
