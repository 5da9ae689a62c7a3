-- ===== src/Learning/Cycles/Acyclic.antt =====
-- A graph that passes has no cycle of required prerequisites.
use eduvijna_paper_evaluatio.Prelude.{
  there, here, ℕ, zero, suc, ◌<◌, ◌≡◌, ap, ◌∙◌, Bool, true, false, ◌&&◌, ◌==◌, ==_iff, List, [],
  ◌∷◌, map, length, contains, select, ok, >>=-eq-ok, All, Any, Bool-cases, inl, inr, arith,
  if◌then◌else◌, &&-eq-true, ==_refl, guard-eq-ok, guard, All-Any,
}
use eduvijna_paper_evaluatio.Learning.Graph.{RelationshipType, PrerequisiteEdge, same_type}
use eduvijna_paper_evaluatio.Learning.Cycles.{
  curriculum_prerequisite_invalid, required_edges, required_preds, detect_cycles, check_edges,
  check_graph,
}
use eduvijna_paper_evaluatio.Learning.Cycles.Order.{
  Before, at_once, then_more, IsOrdered, visit_all-Reached, detect_cycle-Reached,
}

-- The length of the list from the last occurrence of the node.
unfoldable pub depth : List ℕ → ℕ → ℕ
unfolding contains
depth [] k = zero
depth (n ∷ ns) k = let rest = depth ns k in if contains ns k then rest else suc (length ns)

pub depth-bounded : (w : List ℕ) (k : ℕ) → depth w k < suc (length w)
unfolding depth
depth-bounded [] k = omega arith
depth-bounded (n ∷ ns) k = elim (Bool-cases (contains ns k)) [
  | inl found ↦
      let i : depth ns k < suc (length ns) = depth-bounded ns k in rw found (omega (arith, i))
  | inr absent ↦ rw absent (omega arith)
]

Any-map :
    {e : PrerequisiteEdge} {xs : List PrerequisiteEdge}
    → Any (λ x. x ≡ e) xs
    → Any
        (λ p. p ≡ e.prerequisite_node_id)
        (map (λ (x : PrerequisiteEdge). x.prerequisite_node_id) xs)
Any-map (here p) = here (ap (λ (x : PrerequisiteEdge). x.prerequisite_node_id) p)
Any-map (there m) = there (Any-map m)

Any-select {ℓ} :
    {A : Type ℓ} (test : A → Bool) (y : A) (xs : List A)
    → test y ≡ true
    → Any (λ x. x ≡ y) xs
    → Any (λ x. x ≡ y) (select test xs)
unfolding select
Any-select test y [] hit m = m
Any-select test y (x ∷ xs) hit (here p) = rw (ap test p ∙ hit) (here p)
Any-select test y (x ∷ xs) hit (there m) =
    elim (test x) as (λ b. Any (λ z. z ≡ y) (if b then x ∷ select test xs else select test xs)) [
      | true ↦ there (Any-select test y xs hit m)
      | false ↦ Any-select test y xs hit m
    ]

pub is_required :
    (edges : List PrerequisiteEdge) (e : PrerequisiteEdge)
    → Any (λ x. x ≡ e) edges
    → same_type e.relationship_type RelationshipType.required ≡ true
    → Any (λ p. p ≡ e.prerequisite_node_id) (required_preds edges e.dependent_node_id)
unfolding required_preds required_edges
is_required edges e m same =
    Any-map (Any-select _ e edges (rw (==_refl e.dependent_node_id) same) m)

contains-All :
    (seen nodes : List ℕ)
    → All (λ n. contains seen n ≡ true) nodes
    → (k : ℕ) → contains nodes k ≡ true
    → contains seen k ≡ true
unfolding contains
contains-All seen [] h k c = cc
contains-All seen (n ∷ ns) h k c = elim (Bool-cases (n == k)) [
  | inl same ↦ mathlib.Core.Path.subst (λ i. contains seen i ≡ true) ((==_iff n k).0 same) h.0
  | inr other ↦ contains-All seen ns h.1 k (ground (arith, c, other))
]

module _ (edges : List PrerequisiteEdge) where
  pub edge_deepens :
      (w : List ℕ) (a b : ℕ)
      → IsOrdered edges w
      → Any (λ p. p ≡ a) (required_preds edges b)
      → contains w b ≡ true
      → (contains w a ≡ true) × (depth w a < depth w b)
  unfolding contains depth
  edge_deepens [] a b o m c = cc
  edge_deepens (n ∷ ns) a b o m c = elim (Bool-cases (contains ns b)) [
    | inl found ↦
        let (ca, d) = edge_deepens ns a b o.1 m found in (rw ca (ground arith), rw found (rw ca d))
    | inr absent ↦
        let same : n ≡ b = (==_iff n b).0 (ground (arith, c, absent)) in
        let ca : contains ns a ≡ true =
          All-Any (λ p. contains ns p ≡ true) a (required_preds edges b)
            (mathlib.Core.Path.subst (λ k. All (λ p. contains ns p ≡ true) (required_preds edges k))
              same o.0)
            m in
        (rw ca (ground arith), rw absent (rw ca (depth-bounded ns a)))
  ]

  path_deepens :
      (w : List ℕ) (a b : ℕ)
      → IsOrdered edges w
      → Before edges a b
      → contains w b ≡ true
      → (contains w a ≡ true) × (depth w a < depth w b)
  path_deepens w a b o (at_once e m same) c =
      edge_deepens w e.prerequisite_node_id e.dependent_node_id o (is_required edges e m same) c
  path_deepens w a b o (then_more {b = x} first' more) c =
      let (cx, d) = path_deepens w x b o more c in
      let (ca, d') = path_deepens w a x o first' cx in (ca, omega (arith, d, d'))

  dependent_known :
      (nodes : List ℕ)
      → All (λ e. contains nodes e.dependent_node_id ≡ true) edges
      → (a b : ℕ) → Before edges a b
      → contains nodes b ≡ true
  dependent_known nodes known a b (at_once e m same) =
      All-Any (λ e. contains nodes e.dependent_node_id ≡ true) e edges known m
  dependent_known nodes known a b (then_more {b = x} first' more) =
      dependent_known nodes known x b more

check_edges-Known :
    (nodes : List ℕ) (edges : List PrerequisiteEdge) {u : Unit}
    → check_edges nodes edges ≡ ok u
    → All (λ (e : PrerequisiteEdge). contains nodes e.dependent_node_id ≡ true) edges
unfolding check_edges
check_edges-Known nodes [] h = tt
check_edges-Known nodes (e ∷ es) h =
    let (u, here', rest) =
      >>=-eq-ok
        (guard (contains nodes e.prerequisite_node_id && contains nodes e.dependent_node_id)
          curriculum_prerequisite_invalid)
        _ h in
    ((&&-eq-true _ _ (guard-eq-ok _ _ here')).1, check_edges-Known nodes es rest)

-- The walk of a graph that passes leaves an order of all nodes.
pub check_graph-IsOrdered :
    (nodes : List ℕ) (edges : List PrerequisiteEdge) (order : List ℕ)
    → check_graph nodes edges ≡ ok order
    → IsOrdered edges order
      × All (λ (e : PrerequisiteEdge). contains nodes e.dependent_node_id ≡ true) edges
      × ((k : ℕ) → contains nodes k ≡ true → contains order k ≡ true)
unfolding check_graph detect_cycles
check_graph-IsOrdered nodes edges order h =
    let (u, known, walked) = >>=-eq-ok (check_edges nodes edges) _ h in
    let (r, all_seen) =
      visit_all-Reached edges _
        (λ n v w eq. detect_cycle-Reached edges (suc (length nodes)) n [] v w eq) nodes [] order
        walked tt in
    (r.ordered, check_edges-Known nodes edges known, contains-All order nodes all_seen)

-- A graph that passes the checks of the build has no cycle of required prerequisites: no node is,
-- through required edges, before itself.
pub check_graph-Acyclic :
    (nodes : List ℕ) (edges : List PrerequisiteEdge) (order : List ℕ)
    → check_graph nodes edges ≡ ok order
    → (k : ℕ) → ¬ Before edges k k
check_graph-Acyclic nodes edges order h k before =
    let (o, known, all_seen) = check_graph-IsOrdered nodes edges order h in
    let (c, d) =
      path_deepens edges order k k o before
        (all_seen k (dependent_known edges nodes known k k before)) in
    omega (arith, d)
