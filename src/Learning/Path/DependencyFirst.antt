-- ===== src/Learning/Path/DependencyFirst.antt =====
-- Prerequisites come before what requires them.
use eduvijna_paper_evaluatio.Prelude.{
  &&-eq-true, ==_refl, ◌⊎◌, ℕ, zero, suc, ◌≡◌, refl, ap, sym, ◌∙◌, true, false, not, ◌&&◌, ◌||◌,
  ◌==◌, List, [], ◌∷◌, ◌++◌, contains, Result, ok, All, All-imp, All-Any, Any, Bool-cases, inl, inr,
  arith, ok-injective, >>=-eq-ok,
}
use eduvijna_paper_evaluatio.Learning.Graph.{PrerequisiteEdge, edges_by_dependent}
use eduvijna_paper_evaluatio.Learning.Cycles.{LearningCode, required_preds, visit_all}
use eduvijna_paper_evaluatio.Learning.Cycles.Order.{Before, at_once, then_more}
use eduvijna_paper_evaluatio.Learning.Cycles.Acyclic.{is_required}
use eduvijna_paper_evaluatio.Learning.Path.{
  map, order_required_prereq_nodes, visit_required, visit_node, is_step, append_step,
}
use eduvijna_paper_evaluatio.Learning.Path.Fuel.{visit_required-visit_all}

-- A node before another is required by it, or before one that is.
last_edge :
    (edges : List PrerequisiteEdge) (a b : ℕ)
    → Before edges a b
    → (q : ℕ) × Any (λ p. p ≡ q) (required_preds edges b) × ((a ≡ q) ⊎ Before edges a q)
last_edge edges a b (at_once e m same) =
    (e.prerequisite_node_id, is_required edges e m same, inl refl)
last_edge edges a b (then_more {b = x} first' more) =
    let (q, m, rest) = last_edge edges x b more in
    (
      q,
      m,
      inr (elim rest [
        | inl same ↦ mathlib.Core.Path.subst (Before edges a) same first'
        | inr further ↦ then_more first' further
      ]),
    )

contains-snoc_old :
    (xs : List ℕ) (n k : ℕ) → contains xs k ≡ true → contains (xs ++ (n ∷ [])) k ≡ true
unfolding contains
contains-snoc_old [] n k h = cc
contains-snoc_old (x ∷ xs) n k h = elim (Bool-cases (x == k)) [
  | inl same ↦ rw same refl
  | inr other ↦ rw other (contains-snoc_old xs n k (ground (arith, h, other)))
]

contains-snoc_new : (xs : List ℕ) (n : ℕ) → contains (xs ++ (n ∷ [])) n ≡ true
unfolding contains
contains-snoc_new [] n = rw (==_refl n) refl
contains-snoc_new (x ∷ xs) n = ground (arith, contains-snoc_new xs n)

module _ (edges : List PrerequisiteEdge) (target_id : ℕ) (required_pred_ids : List ℕ) where
  -- Each node is a step, is in the order once, and comes after those of its required prerequisites that are steps.
  abbrev pub IsOrderedAfter : List ℕ → List ℕ → Type 0
  IsOrderedAfter done [] = Unit
  IsOrderedAfter done (n ∷ ns) =
      (is_step target_id required_pred_ids n ≡ true)
      × (contains done n ≡ false)
      × All (λ p. is_step target_id required_pred_ids p ≡ true → contains done p ≡ true)
          (required_preds edges n)
      × IsOrderedAfter (n ∷ done) ns

  snoc-IsOrderedAfter :
      (done xs : List ℕ) (n : ℕ)
      → IsOrderedAfter done xs
      → is_step target_id required_pred_ids n ≡ true
      → (contains done n || contains xs n) ≡ false
      → All
          (λ p.
            is_step target_id required_pred_ids p ≡ true
            → (contains done p || contains xs p) ≡ true)
          (required_preds edges n)
      → IsOrderedAfter done (xs ++ (n ∷ []))
  unfolding contains
  snoc-IsOrderedAfter done [] n o step fresh h = (
    step,
    ground (arith, fresh),
    All-imp (λ p f s. ground (arith, f s)) (required_preds edges n) h,
    tt,
  )
  snoc-IsOrderedAfter done (x ∷ xs) n o step fresh h = (
    o.0,
    o.1,
    o.2,
    snoc-IsOrderedAfter (x ∷ done) xs n o.3 step (ground (arith, fresh))
        (All-imp (λ p f s. ground (arith, f s)) (required_preds edges n) h),
  )

  record Grown (before after : List ℕ) : Type 0 where
    after_prerequisites : IsOrderedAfter [] after
    keeps : (k : ℕ) → contains before k ≡ true → contains after k ≡ true

  -- The node, if it is a step, and all steps before it are in the order.
  abbrev IsDone : List ℕ → ℕ → Type 0
  IsDone w n =
      (k : ℕ)
      → is_step target_id required_pred_ids k ≡ true
      → (k ≡ n) ⊎ Before edges k n
      → contains w k ≡ true

  visit_all-Grown :
      (visit : ℕ → List ℕ → Result LearningCode (List ℕ))
      → ((n : ℕ) (v w : List ℕ) → visit n v ≡ ok w → IsOrderedAfter [] v → Grown v w × IsDone w n)
      → (ns v w : List ℕ) → visit_all visit ns v ≡ ok w
      → IsOrderedAfter [] v
      → Grown v w × All (IsDone w) ns
  unfolding visit_all
  visit_all-Grown visit each [] v w h o =
      let e = ok-injective h in
      (
        record {
          after_prerequisites = mathlib.Core.Path.subst (IsOrderedAfter []) e o;
          keeps = λ k c. ap (λ l. contains l k) (sym e) ∙ c;
        },
        tt,
      )
  visit_all-Grown visit each (n ∷ ns) v w h o =
      let (mid, first', h₁) = >>=-eq-ok (visit n v) _ h in
      let (r, hit) = each n v mid first' o in
      let (s, hits) = visit_all-Grown visit each ns mid w h₁ r.after_prerequisites in
      (
        record {
          after_prerequisites = s.after_prerequisites;
          keeps = λ k c. s.keeps k (r.keeps k c);
        },
        ((λ k p b. s.keeps k (hit k p b)), hits),
      )

  behind_done :
      (n : ℕ) (w : List ℕ)
      → All (IsDone w) (required_preds edges n)
      → (k : ℕ) → is_step target_id required_pred_ids k ≡ true
      → Before edges k n
      → contains w k ≡ true
  behind_done n w preds k step b =
      let (q, m, at_q) = last_edge edges k n b in
      All-Any (IsDone w) q (required_preds edges n) preds m k step at_q

  added_before :
      (n : ℕ) (w : List ℕ)
      → is_step target_id required_pred_ids n ≡ true
      → (is_step target_id required_pred_ids n && not (contains w n)) ≡ false
      → contains w n ≡ true
  added_before n w step stays = ground (arith, step, stays)

  append_step-Grown :
      (n : ℕ) (v w : List ℕ)
      → Grown v w
      → All (IsDone w) (required_preds edges n)
      → Grown v (append_step target_id required_pred_ids n w)
        × IsDone (append_step target_id required_pred_ids n w) n
  unfolding append_step
  append_step-Grown n v w r preds =
      elim (Bool-cases (is_step target_id required_pred_ids n && not (contains w n))) [
        | inl adds ↦
            let grown : Grown v (w ++ (n ∷ [])) = record {
              after_prerequisites =
                  snoc-IsOrderedAfter [] w n r.after_prerequisites (&&-eq-true _ _ adds).0
                    (ground (arith, adds))
                    (All-imp (λ p d s. d p s (inl refl)) (required_preds edges n) preds);
              keeps = λ k c. contains-snoc_old w n k (r.keeps k c);
            } in
            rw adds (
              grown,
              λ k step at_n. elim at_n [
                | inl same ↦ rw same (contains-snoc_new w n)
                | inr b ↦ contains-snoc_old w n k (behind_done n w preds k step b)
              ],
            )
        | inr stays ↦ rw stays (
          r,
          λ k step at_n. elim at_n [
            | inl same ↦
                mathlib.Core.Path.subst (λ x. contains w x ≡ true) (sym same)
                  (added_before n w (ap (is_step target_id required_pred_ids) (sym same) ∙ step)
                    stays)
            | inr b ↦ behind_done n w preds k step b
          ],
        )
      ]

  visit_node-Grown :
      (fuel n : ℕ) (v w : List ℕ)
      → visit_node edges target_id required_pred_ids fuel n v ≡ ok w
      → IsOrderedAfter [] v
      → Grown v w × IsDone w n
  unfolding visit_node
  visit_node-Grown zero n v w h o = cc
  visit_node-Grown (suc fuel) n v w h o =
      let visit = visit_node edges target_id required_pred_ids fuel in
      let (mid, walked, added) =
        >>=-eq-ok (visit_required visit (edges_by_dependent edges n) v) _ h in
      let (r, preds) =
        visit_all-Grown visit (visit_node-Grown fuel) (required_preds edges n) v mid
          (sym (visit_required-visit_all visit edges n v) ∙ walked) o in
      mathlib.Core.Path.subst (λ l. Grown v l × IsDone l n) (ok-injective added)
        (append_step-Grown n v mid r preds)

-- What the order of the prerequisites of a target is to be.
pub record DependencyFirst (edges required_edges : List PrerequisiteEdge) (target_id : ℕ)
    (ordered : List ℕ) : Type 0 where
  pub after_prerequisites :
      IsOrderedAfter edges target_id
        (map (λ (e : PrerequisiteEdge). e.prerequisite_node_id) required_edges)
        []
        ordered
  pub complete :
      (k : ℕ)
      → is_step target_id (map (λ (e : PrerequisiteEdge). e.prerequisite_node_id) required_edges) k
        ≡ true
      → Before edges k target_id
      → contains ordered k ≡ true

-- When the search for the order returns, the order has no node twice and no node but prerequisites
-- of the given edges other than the target; each node comes after all those that it requires
-- itself; and no such node is left out from which required edges lead to the target.
pub order_required_prereq_nodes-DependencyFirst :
    (fuel target_id : ℕ) (edges required_edges : List PrerequisiteEdge) (ordered : List ℕ)
    → order_required_prereq_nodes fuel target_id edges required_edges ≡ ok ordered
    → DependencyFirst edges required_edges target_id ordered
unfolding order_required_prereq_nodes
order_required_prereq_nodes-DependencyFirst fuel target_id edges required_edges ordered h =
    let ids = map (λ (e : PrerequisiteEdge). e.prerequisite_node_id) required_edges in
    let (r, is_done) = visit_node-Grown edges target_id ids fuel target_id [] ordered h tt in
    record {
      after_prerequisites = r.after_prerequisites;
      complete = λ k step b. is_done k step (inr b);
    }
