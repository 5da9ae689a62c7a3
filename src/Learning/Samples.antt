-- ===== src/Learning/Samples.antt =====
-- A graph of four nodes, and the theorems about its searches at it.
use eduvijna_paper_evaluatio.Prelude.{
  contains, ℕ, ◌≡◌, refl, some, ok, err, List, [], ◌∷◌, All, Any, arith, here, there,
}
use eduvijna_paper_evaluatio.Learning.Graph.{RelationshipType, PrerequisiteEdge}
use eduvijna_paper_evaluatio.Learning.Cycles.{
  curriculum_prerequisite_invalid, curriculum_prerequisite_cycle, check_graph,
}
use eduvijna_paper_evaluatio.Learning.Cycles.Found.{Judged, check_graph-Judged}
use eduvijna_paper_evaluatio.Learning.Path.{order_required_prereq_nodes}
use eduvijna_paper_evaluatio.Learning.Path.DependencyFirst.{
  DependencyFirst, order_required_prereq_nodes-DependencyFirst,
}
use eduvijna_paper_evaluatio.Learning.Path.Fuel.{order_required_prereq_nodes_returns}
use eduvijna_paper_evaluatio.Learning.Closure.{transitive_prerequisites}
use eduvijna_paper_evaluatio.Learning.Closure.Fuel.{transitive_prerequisites_returns}
use eduvijna_paper_evaluatio.Learning.Closure.Reachable.{
  IsBehind, at_target, through, transitive_prerequisites-IsBehind,
}
use eduvijna_paper_evaluatio.Learning.Closure.Invariants.{IsKeyed}
use eduvijna_paper_evaluatio.Learning.Closure.Complete.{transitive_prerequisites_complete}

abbrev edge : ℕ → ℕ → ℕ → RelationshipType → PrerequisiteEdge
edge id prerequisite dependent relationship = record {
  id = id;
  prerequisite_node_id = prerequisite;
  dependent_node_id = dependent;
  relationship_type = relationship;
}

-- 3 before 2 before 1, and 4 recommended before 1.
abbrev graph : List PrerequisiteEdge
graph =
    edge 10 2 1 RelationshipType.required
    ∷ edge 11 4 1 RelationshipType.recommended
    ∷ edge 12 3 2 RelationshipType.required
    ∷ []

abbrev required_of_1 : List PrerequisiteEdge
required_of_1 = edge 10 2 1 RelationshipType.required ∷ edge 12 3 2 RelationshipType.required ∷ []

search_test : transitive_prerequisites RelationshipType.required graph 1 ≡ some required_of_1
unfolding transitive_prerequisites
search_test = refl

transitive_prerequisites_returns_example :
    (found : List PrerequisiteEdge) × (transitive_prerequisites RelationshipType.required graph 1
      ≡ some found)
transitive_prerequisites_returns_example =
    transitive_prerequisites_returns graph RelationshipType.required 1

transitive_prerequisites-IsBehind_example :
    All (IsBehind graph RelationshipType.required 1) required_of_1
transitive_prerequisites-IsBehind_example =
    transitive_prerequisites-IsBehind graph RelationshipType.required 1 required_of_1 search_test

graph-IsKeyed : IsKeyed graph
graph-IsKeyed = (
  ((λ e. refl), ((λ e. absurd (omega (arith, e))), ((λ e. absurd (omega (arith, e))), tt))),
  (
    ((λ e. absurd (omega (arith, e))), ((λ e. refl), ((λ e. absurd (omega (arith, e))), tt))),
    (((λ e. absurd (omega (arith, e))), ((λ e. absurd (omega (arith, e))), ((λ e. refl), tt))), tt),
  ),
)

far_edge : IsBehind graph RelationshipType.required 1 (edge 12 3 2 RelationshipType.required)
unfolding transitive_prerequisites
far_edge = record {
  edge = there (there (here refl));
  typed = refl;
  leads = through (edge 10 2 1 RelationshipType.required) (here refl) refl at_target;
}

transitive_prerequisites_complete_example :
    Any (λ c. c ≡ edge 12 3 2 RelationshipType.required) required_of_1
transitive_prerequisites_complete_example =
    transitive_prerequisites_complete graph RelationshipType.required graph-IsKeyed 1 required_of_1
      search_test (edge 12 3 2 RelationshipType.required) far_edge

-- 2 and 3 before each other.
abbrev ring : List PrerequisiteEdge
ring =
    edge 10 2 1 RelationshipType.required
    ∷ edge 11 3 2 RelationshipType.required
    ∷ edge 12 2 3 RelationshipType.required
    ∷ []

abbrev nodes : List ℕ
nodes = 1 ∷ 2 ∷ 3 ∷ 4 ∷ []

acyclic_test : check_graph nodes graph ≡ ok (4 ∷ 1 ∷ 2 ∷ 3 ∷ [])
unfolding check_graph
acyclic_test = refl

cycle_test : check_graph nodes ring ≡ err curriculum_prerequisite_cycle
unfolding check_graph
cycle_test = refl

unknown_test : check_graph (1 ∷ 2 ∷ []) ring ≡ err curriculum_prerequisite_invalid
unfolding check_graph
unknown_test = refl

check_graph-Judged_example : Judged nodes ring (check_graph nodes ring)
check_graph-Judged_example = check_graph-Judged nodes ring

order_test : order_required_prereq_nodes 5 1 graph required_of_1 ≡ ok (3 ∷ 2 ∷ [])
unfolding order_required_prereq_nodes
order_test = refl

order_required_prereq_nodes-DependencyFirst_example :
    DependencyFirst graph required_of_1 1 (3 ∷ 2 ∷ [])
order_required_prereq_nodes-DependencyFirst_example =
    order_required_prereq_nodes-DependencyFirst 5 1 graph required_of_1 (3 ∷ 2 ∷ []) order_test

order_required_prereq_nodes_returns_example :
    (ordered : List ℕ) × (order_required_prereq_nodes 5 1 graph required_of_1 ≡ ok ordered)
unfolding contains
order_required_prereq_nodes_returns_example =
    order_required_prereq_nodes_returns nodes (4 ∷ 1 ∷ 2 ∷ 3 ∷ []) graph required_of_1 1 5
      acyclic_test refl (omega arith)
