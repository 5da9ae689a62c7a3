-- ===== src/Learning/Closure.antt =====
-- `_transitive_prerequisites`: the breadth-first search backward from a target.
pub mod Fuel
pub mod Reachable
pub mod Invariants
pub mod Complete
use eduvijna_paper_evaluatio.Prelude.{
  ℕ, zero, suc, Bool, true, false, not, ◌&&◌, Option, none, some, List, [], ◌∷◌, ◌++◌, map, length,
  contains, if◌then◌else◌,
}
use eduvijna_paper_evaluatio.Learning.Graph.{
  RelationshipType, PrerequisiteEdge, same_type, edges_by_dependent,
}

-- the variables of the loop; `seen_edge_ids` holds the ids of `collected`
pub record Search : Type 0 where
  pub collected : List PrerequisiteEdge
  pub queue : List ℕ
  pub seen_nodes : List ℕ

unfoldable pub seen_edge : Search → PrerequisiteEdge → Bool
unfolding contains
seen_edge s e = contains (map (λ (c : PrerequisiteEdge). c.id) s.collected) e.id

-- `if edge.prerequisite_node_id not in seen_nodes`
unfoldable pub reach : ℕ → Search → Search
unfolding contains
reach node s =
    if contains s.seen_nodes node
    then s
    else record s { queue = s.queue ++ node ∷ []; seen_nodes = node ∷ s.seen_nodes }

-- what follows the two `continue`s
unfoldable pub collect : PrerequisiteEdge → Search → Search
unfolding reach
collect e s = reach e.prerequisite_node_id (record s { collected = s.collected ++ e ∷ [] })

module _ (relationship : RelationshipType) where
  -- the body of the loop over the edges of the current node
  unfoldable pub visit_edge : PrerequisiteEdge → Search → Search
  unfolding same_type seen_edge collect
  visit_edge e s =
      if same_type e.relationship_type relationship && not (seen_edge s e) then collect e s else s

  unfoldable pub visit_edges : List PrerequisiteEdge → Search → Search
  unfolding visit_edge
  visit_edges [] s = s
  visit_edges (e ∷ es) s = visit_edges es (visit_edge e s)

  -- `while queue`, on fuel: `none` where it runs out
  unfoldable pub search :
      List PrerequisiteEdge → ℕ → (queue : List ℕ) → Search → Option (List PrerequisiteEdge)
  unfolding visit_edges edges_by_dependent
  search edges fuel [] s = some s.collected
  search edges zero (current ∷ queue) s = none
  search edges (suc fuel) (current ∷ queue) s =
      let next = visit_edges (edges_by_dependent edges current) (record s { queue = queue }) in
      search edges fuel next.queue next

  unfoldable pub transitive_prerequisites :
      List PrerequisiteEdge → (target_id : ℕ) → Option (List PrerequisiteEdge)
  unfolding search
  transitive_prerequisites edges target_id =
      search edges (suc (length edges)) (target_id ∷ [])
        (record { collected = []; queue = target_id ∷ []; seen_nodes = target_id ∷ [] })
