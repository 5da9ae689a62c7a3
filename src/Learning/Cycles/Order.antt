-- ===== src/Learning/Cycles/Order.antt =====
-- The visited nodes are in an order: each comes after the nodes that it requires.
use eduvijna_paper_evaluatio.Prelude.{
  ℕ, zero, suc, ◌≡◌, refl, ap, sym, ◌∙◌, true, List, [], ◌∷◌, contains, Result, ok, >>=-eq-ok,
  ok-injective, All, Any, Bool-cases, inl, inr, arith, ==_refl,
}
use eduvijna_paper_evaluatio.Learning.Graph.{RelationshipType, PrerequisiteEdge, same_type}
use eduvijna_paper_evaluatio.Learning.Cycles.{LearningCode, required_preds, visit_all, detect_cycle}

-- Required edges lead from the first node to the second.
pub data Before (edges : List PrerequisiteEdge) : ℕ → ℕ → Type 0 where
  at_once :
      (e : PrerequisiteEdge)
      → Any (λ x. x ≡ e) edges
      → same_type e.relationship_type RelationshipType.required ≡ true
      → Before edges e.prerequisite_node_id e.dependent_node_id
  then_more : {a b c : ℕ} → Before edges a b → Before edges b c → Before edges a c

module _ (edges : List PrerequisiteEdge) where
  -- Each node comes after the nodes that it requires.
  abbrev pub IsOrdered : List ℕ → Type 0
  IsOrdered [] = Unit
  IsOrdered (n ∷ ns) = All (λ p. contains ns p ≡ true) (required_preds edges n) × IsOrdered ns

  pub record Reached (before after : List ℕ) : Type 0 where
    pub ordered : IsOrdered after
    pub keeps : (k : ℕ) → contains before k ≡ true → contains after k ≡ true

  pub visit_all-Reached :
      (visit : ℕ → List ℕ → Result LearningCode (List ℕ))
      → ((n : ℕ) (v w : List ℕ)
          → visit n v ≡ ok w
          → IsOrdered v
          → Reached v w × (contains w n ≡ true))
      → (ns v w : List ℕ) → visit_all visit ns v ≡ ok w
      → IsOrdered v
      → Reached v w × All (λ n. contains w n ≡ true) ns
  unfolding visit_all
  visit_all-Reached visit each [] v w h o =
      let e = ok-injective h in
      (
        record {
          ordered = mathlib.Core.Path.subst IsOrdered e o;
          keeps = λ k c. ap (λ l. contains l k) (sym e) ∙ c;
        },
        tt,
      )
  visit_all-Reached visit each (n ∷ ns) v w h o =
      let (mid, first', h₁) = >>=-eq-ok (visit n v) _ h in
      let (r, hit) = each n v mid first' o in
      let (s, hits) = visit_all-Reached visit each ns mid w h₁ r.ordered in
      (
        record { ordered = s.ordered; keeps = λ k c. s.keeps k (r.keeps k c) },
        (s.keeps n hit, hits),
      )

  extended :
      (n : ℕ) (v w : List ℕ)
      → Reached v w
      → All (λ p. contains w p ≡ true) (required_preds edges n)
      → Reached v (n ∷ w) × (contains (n ∷ w) n ≡ true)
  unfolding contains
  extended n v w r preds = (
    record { ordered = (preds, r.ordered); keeps = λ k c. ground (arith, r.keeps k c) },
    rw (==_refl n) refl,
  )

  pub detect_cycle-Reached :
      (fuel node_id : ℕ) (visiting v w : List ℕ)
      → detect_cycle edges fuel node_id visiting v ≡ ok w
      → IsOrdered v
      → Reached v w × (contains w node_id ≡ true)
  unfolding detect_cycle
  detect_cycle-Reached zero node_id visiting v w h o = cc
  detect_cycle-Reached (suc fuel) node_id visiting v w h o =
      elim (Bool-cases (contains visiting node_id)) [
        | inl cyclic ↦ cc
        | inr fresh ↦ elim (Bool-cases (contains v node_id)) [
          | inl old ↦
              let e : v ≡ w = ok-injective (rw old at (rw fresh at h)) in
              (
                record {
                  ordered = mathlib.Core.Path.subst IsOrdered e o;
                  keeps = λ k c. ap (λ l. contains l k) (sym e) ∙ c;
                },
                ap (λ l. contains l node_id) (sym e) ∙ old,
              )
          | inr new ↦
              let (seen, walked, added) =
                >>=-eq-ok (visit_all _ (required_preds edges node_id) v) _
                  (rw new at (rw fresh at h)) in
              let (r, preds) =
                visit_all-Reached _
                  (λ n a b eq. detect_cycle-Reached fuel n (node_id ∷ visiting) a b eq)
                  (required_preds edges node_id) v seen walked o in
              mathlib.Core.Path.subst (λ l. Reached v l × (contains l node_id ≡ true))
                (ok-injective added) (extended node_id v seen r preds)
        ]
      ]
