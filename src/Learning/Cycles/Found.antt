-- ===== src/Learning/Cycles/Found.antt =====
-- The one error after the checks of the edges is a cycle, and there is one.
use eduvijna_paper_evaluatio.Prelude.{
  sym, All-of_Any, there, ◌⊎◌, here, select_members, All-select, All-Any, &&-eq-true, All-both,
  All-imp, ==_refl, ==_iff, ℕ, zero, suc, ◌<◌, ◌≡◌, refl, true, false, ◌==◌, List, [], ◌∷◌, map,
  length, contains, Result, ok, err, All, Any, Bool-cases, inl, inr, arith, if◌then◌else◌, ◌≤◌,
  ◌>>=◌, ◌&&◌,
}
use eduvijna_paper_evaluatio.Learning.Graph.{RelationshipType, PrerequisiteEdge, same_type}
use eduvijna_paper_evaluatio.Learning.Cycles.{
  curriculum_prerequisite_invalid, select, curriculum_prerequisite_cycle, LearningCode,
  required_edges, required_preds, visit_all, detect_cycle, detect_cycles, check_edges, check_graph,
}
use eduvijna_paper_evaluatio.Learning.Cycles.Acyclic.{check_graph-Acyclic}
use eduvijna_paper_evaluatio.Learning.Cycles.Order.{Before, at_once, then_more}

-- How many nodes are not being visited.
unfoldable free : List ℕ → List ℕ → ℕ
unfolding contains
free [] visiting = 0
free (n ∷ ns) visiting =
    let rest = free ns visiting in if contains visiting n then rest else suc rest

free-length : (ns visiting : List ℕ) → free ns visiting ≤ length ns
unfolding free
free-length [] visiting = omega arith
free-length (n ∷ ns) visiting = ground (arith, free-length ns visiting)

free_less : (ns : List ℕ) (p : ℕ) (visiting : List ℕ) → free ns (p ∷ visiting) ≤ free ns visiting
unfolding free contains
free_less [] p visiting = omega arith
free_less (n ∷ ns) p visiting = ground (arith, free_less ns p visiting)

free_drops :
    (ns : List ℕ) (p : ℕ) (visiting : List ℕ)
    → contains ns p ≡ true
    → contains visiting p ≡ false
    → free ns (p ∷ visiting) < free ns visiting
unfolding free contains
free_drops [] p visiting m h = cc
free_drops (n ∷ ns) p visiting m h = elim (Bool-cases (n == p)) [
  | inl same ↦
      let e : n ≡ p = (==_iff n p).0 same in
      rw e (ground (arith, h, ==_refl p, free_less ns p visiting))
  | inr other ↦ ground (arith, other, free_drops ns p visiting (ground (arith, m, other)) h)
]

visit_all_fails {ℓ} :
    (P : ℕ → Type ℓ) (visit : ℕ → List ℕ → Result LearningCode (List ℕ)) (ns v : List ℕ)
    (c : LearningCode)
    → All P ns
    → visit_all visit ns v ≡ err c
    → (n : ℕ) × P n × ((w : List ℕ) × (visit n w ≡ err c))
unfolding visit_all
visit_all_fails P visit [] v c h failed = cc
visit_all_fails P visit (n ∷ ns) v c h failed =
    elim (visit n v)
        as (λ r.
          visit n v ≡ r
          → (r >>= λ next. visit_all visit ns next) ≡ err c
          → (m : ℕ) × P m × ((w : List ℕ) × (visit m w ≡ err c))) [
            | err raised ↦ λ e failed'. (n, h.0, (v, cc))
            | ok next ↦ λ e failed'. visit_all_fails P visit ns next c h.1 failed'
          ]
      refl failed

All-map :
    (P : ℕ → Type 0) (es : List PrerequisiteEdge)
    → All (λ (e : PrerequisiteEdge). P e.prerequisite_node_id) es
    → All P (map (λ (e : PrerequisiteEdge). e.prerequisite_node_id) es)
All-map P [] h = tt
All-map P (e ∷ es) h = (h.0, All-map P es h.1)

All-contains : (P : ℕ → Type 0) (xs : List ℕ) (k : ℕ) → All P xs → contains xs k ≡ true → P k
unfolding contains
All-contains P [] k h c = cc
All-contains P (x ∷ xs) k h c = elim (Bool-cases (x == k)) [
  | inl same ↦ mathlib.Core.Path.subst P ((==_iff x k).0 same) h.0
  | inr other ↦ All-contains P xs k h.1 (ground (arith, c, other))
]

contains-Any : (xs : List ℕ) (k : ℕ) → Any (λ x. x ≡ k) xs → contains xs k ≡ true
unfolding contains
contains-Any [] k m = elim m [ ]
contains-Any (x ∷ xs) k (here e) = rw e (rw (==_refl k) refl)
contains-Any (x ∷ xs) k (there m) = ground (arith, contains-Any xs k m)

-- A block that ends with a value failed at its first statement.
err_of :
    (step : Result LearningCode (List ℕ)) (f : List ℕ → List ℕ) (c : LearningCode)
    → (step >>= λ seen. ok (f seen)) ≡ err c
    → step ≡ err c
err_of (err raised) f c h = cc
err_of (ok seen) f c h = cc

same_code :
    (c : LearningCode)
    → ◌≡◌ {A = Result LearningCode (List ℕ)} (err curriculum_prerequisite_cycle) (err c)
    → c ≡ curriculum_prerequisite_cycle
same_code c h = cc

no_failure {ℓ} :
    {A : Type ℓ} (c : LearningCode) (v : List ℕ)
    → ◌≡◌ {A = Result LearningCode (List ℕ)} (ok v) (err c)
    → A
no_failure c v h = cc

module _ (nodes : List ℕ) (edges : List PrerequisiteEdge) where
  preds_Before :
      All (λ e. contains nodes e.prerequisite_node_id ≡ true) edges
      → (n : ℕ) → All (λ p. (contains nodes p ≡ true) × Before edges p n) (required_preds edges n)
  unfolding required_preds required_edges
  preds_Before known n =
      let keep = λ (e : PrerequisiteEdge).
        e.dependent_node_id == n && same_type e.relationship_type RelationshipType.required in
      All-map (λ p. (contains nodes p ≡ true) × Before edges p n) (select keep edges)
        (All-both
          (λ e hit m.
            let (same, typed) = &&-eq-true (e.dependent_node_id == n) _ hit in
            (
              All-Any (λ x. contains nodes x.prerequisite_node_id ≡ true) e edges known m,
              mathlib.Core.Path.subst (Before edges e.prerequisite_node_id)
                  ((==_iff e.dependent_node_id n).0 same) (at_once e m typed),
            ))
          (select keep edges) (All-select keep edges) (select_members keep edges))

  -- A failure, with fuel for the nodes that are not being visited, is that of a cycle.
  detect_cycle_fails :
      All (λ e. contains nodes e.prerequisite_node_id ≡ true) edges
      → (fuel n : ℕ) (visiting v : List ℕ) (c : LearningCode) → contains nodes n ≡ true
      → All (Before edges n) visiting
      → free nodes visiting < fuel
      → detect_cycle edges fuel n visiting v ≡ err c
      → (c ≡ curriculum_prerequisite_cycle) × ((k : ℕ) × Before edges k k)
  unfolding detect_cycle
  detect_cycle_fails known zero n visiting v c inside before enough failed =
      absurd (omega (arith, enough))
  detect_cycle_fails known (suc fuel) n visiting v c inside before enough failed =
      elim (Bool-cases (contains visiting n)) [
        | inl cyclic ↦ (
          same_code c (rw cyclic at failed),
          (n, All-contains (Before edges n) visiting n before cyclic),
        )
        | inr fresh ↦ elim (Bool-cases (contains v n)) [
          | inl old ↦ no_failure c v (rw old at (rw fresh at failed))
          | inr new ↦
              let deeper = err_of _ (λ seen. n ∷ seen) c (rw new at (rw fresh at failed)) in
              let (p, (p_inside, p_before), (w, raised)) =
                visit_all_fails (λ p. (contains nodes p ≡ true) × Before edges p n) _
                  (required_preds edges n) v c (preds_Before known n) deeper in
              detect_cycle_fails known fuel p (n ∷ visiting) w c p_inside
                (p_before, All-imp (λ x b. then_more p_before b) visiting before)
                (omega (arith, enough, free_drops nodes n visiting inside fresh)) raised
        ]
      ]

-- What the checks of the build find: an edge with a node that is not in the version, a cycle of
-- required prerequisites, or a graph that has none.
pub data Judged (nodes : List ℕ) (edges : List PrerequisiteEdge)
    : Result LearningCode (List ℕ) → Type 0 where
  unknown_node :
      (e : PrerequisiteEdge)
      → Any (λ x. x ≡ e) edges
      → (contains nodes e.prerequisite_node_id && contains nodes e.dependent_node_id) ≡ false
      → Judged nodes edges (err curriculum_prerequisite_invalid)
  cyclic : (k : ℕ) → Before edges k k → Judged nodes edges (err curriculum_prerequisite_cycle)
  acyclic : (order : List ℕ) → ((k : ℕ) → ¬ Before edges k k) → Judged nodes edges (ok order)

check_edges_cases :
    (nodes : List ℕ) (edges : List PrerequisiteEdge)
    → ((check_edges nodes edges ≡ err curriculum_prerequisite_invalid)
        × ((e : PrerequisiteEdge) × Any (λ x. x ≡ e) edges
            × ((contains nodes e.prerequisite_node_id && contains nodes e.dependent_node_id)
                ≡ false)))
      ⊎ ((check_edges nodes edges ≡ ok tt)
          × All (λ (e : PrerequisiteEdge). contains nodes e.prerequisite_node_id ≡ true) edges)
unfolding check_edges
check_edges_cases nodes [] = inr (refl, tt)
check_edges_cases nodes (e ∷ es) =
    elim (Bool-cases
      (contains nodes e.prerequisite_node_id && contains nodes e.dependent_node_id)) [
        | inl known ↦ elim (check_edges_cases nodes es) [
          | inl (raised, (f, m, bad)) ↦ inl (rw known raised, (f, there m, bad))
          | inr (done, rest) ↦ inr (rw known done, ((&&-eq-true _ _ known).0, rest))
        ]
        | inr bad ↦ inl (rw bad refl, (e, here refl, bad))
      ]

walk_cases :
    (nodes : List ℕ) (edges : List PrerequisiteEdge) (checked : check_edges nodes edges ≡ ok tt)
    → All (λ (e : PrerequisiteEdge). contains nodes e.prerequisite_node_id ≡ true) edges
    → (r : Result LearningCode (List ℕ)) → detect_cycles edges nodes ≡ r
    → Judged nodes edges r
unfolding check_graph detect_cycles
walk_cases nodes edges checked known (ok order) walked =
    acyclic order (check_graph-Acyclic nodes edges order (rw checked walked))
walk_cases nodes edges checked known (err c) walked =
    let (n, inside, (v, failed)) =
      visit_all_fails (λ n. contains nodes n ≡ true) _ nodes [] c
        (All-of_Any (λ n. contains nodes n ≡ true) nodes (λ n m. contains-Any nodes n m)) walked in
    let (e, (k, before)) =
      detect_cycle_fails nodes edges known (suc (length nodes)) n [] v c inside tt
        (omega (arith, free-length nodes [])) failed in
    mathlib.Core.Path.subst (λ x. Judged nodes edges (err x)) (sym e) (cyclic k before)

-- The checks of the build on the graph end, for any nodes and edges, in one of three ways. They
-- refuse an edge only when one of its nodes is not of the version. They report a cycle only when
-- required edges lead from some node back to itself. When they pass, no node is before itself.
pub check_graph-Judged :
    (nodes : List ℕ) (edges : List PrerequisiteEdge) → Judged nodes edges (check_graph nodes edges)
unfolding check_graph
check_graph-Judged nodes edges = elim (check_edges_cases nodes edges) [
  | inl (raised, (e, m, bad)) ↦ rw raised (unknown_node e m bad)
  | inr (done, known) ↦ rw done (walk_cases nodes edges done known _ refl)
]
