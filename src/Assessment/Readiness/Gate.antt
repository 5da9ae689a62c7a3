-- ===== src/Assessment/Readiness/Gate.antt =====
-- The gate before READY, against what an assessment needs in order to be ready.
use eduvijna_paper_evaluatio.Assessment.Readiness.Needs.{
  IsApprovedKey, IsApprovedRubric, IsCriterion, IsLeaf, leaves-Selected, Selected-leaves,
}
use eduvijna_paper_evaluatio.Assessment.Readiness.Approved.{
  approved_key-Any, Any-approved_key, approved_rubric-FirstOf, FirstOf-approved_rubric,
  criteria_of-Selected, Selected-criteria_of,
}
use eduvijna_paper_evaluatio.Assessment.Rubric.{RubricCriterion}
use eduvijna_paper_evaluatio.Prelude.{
  guard-eq-ok, ==_iff, require-eq-ok, >>=-eq-ok, ℕ, ◌≡◌, ◌≢◌, ◌↔◌, refl, List, [], ◌∷◌, ok, sum_of,
  All, require, guard, Any, Selected, FirstOf,
}
use eduvijna_paper_evaluatio.Assessment.Marks.{QuestionVersion, leaves, reconcile_marks}
use eduvijna_paper_evaluatio.Assessment.Rubric.Envelope.{Reconciles, reconcile_rubric-Reconciles}
use eduvijna_paper_evaluatio.Assessment.Readiness.{
  RubricVersion, AssessmentVersion, Tables, questions_of, approved_key, approved_rubric,
  criteria_of, check_leaf, check_leaves, require_leaves, ensure_assessment_ready,
}

module _ (db : Tables) (tenant_id : ℕ) where
  -- A leaf has an approved answer key, and the criteria of its approved rubric, the first that the
  -- database returns, have a sound mark envelope.
  pub record LeafReady (q : QuestionVersion) : Type 0 where
    pub key : Any (IsApprovedKey tenant_id q) db.answer_keys
    pub rubric : RubricVersion
    pub rubric_first : FirstOf (IsApprovedRubric tenant_id q) rubric db.rubrics
    pub criteria : List RubricCriterion
    pub of_rubric : Selected (IsCriterion tenant_id rubric) db.criteria criteria
    pub reconciles : Reconciles criteria q.max_marks

  pub record IsReady (v : AssessmentVersion) : Type 0 where
    pub leaf_questions : List QuestionVersion
    pub are_leaves : Selected (IsLeaf db tenant_id v) db.questions leaf_questions
    pub scorable : leaf_questions ≢ []
    pub marks : sum_of (λ q. q.max_marks) leaf_questions ≡ v.max_marks
    pub prepared : All LeafReady leaf_questions

  check_leaf→LeafReady : (q : QuestionVersion) → check_leaf db tenant_id q ≡ ok tt → LeafReady q
  unfolding check_leaf
  check_leaf→LeafReady q h =
      let (k, key, h₁) = >>=-eq-ok (require (approved_key db tenant_id q) _) _ h in
      let (r, rubric, h₂) = >>=-eq-ok (require (approved_rubric db tenant_id q) _) _ h₁ in
      record {
        key = approved_key-Any db tenant_id q (require-eq-ok _ _ key);
        rubric = r;
        rubric_first = approved_rubric-FirstOf db tenant_id q (require-eq-ok _ _ rubric);
        criteria = criteria_of db tenant_id r;
        of_rubric = criteria_of-Selected db tenant_id r;
        reconciles = (reconcile_rubric-Reconciles _ _).0 (guard-eq-ok _ _ h₂);
      }

  LeafReady→check_leaf : (q : QuestionVersion) → LeafReady q → check_leaf db tenant_id q ≡ ok tt
  unfolding check_leaf
  LeafReady→check_leaf q r = rw (
    (Any-approved_key db tenant_id q r.key).1,
    FirstOf-approved_rubric db tenant_id q r.rubric_first,
    Selected-criteria_of db tenant_id r.rubric r.of_rubric,
    (reconcile_rubric-Reconciles _ _).1 r.reconciles,
  )

  check_leaves-All :
      (qs : List QuestionVersion) → (check_leaves db tenant_id qs ≡ ok tt) ↔ All LeafReady qs
  unfolding check_leaves
  check_leaves-All [] = (λ h. tt, λ h. refl)
  check_leaves-All (q ∷ qs) = (
    λ h.
        let (u, first', rest) = >>=-eq-ok (check_leaf db tenant_id q) _ h in
        (check_leaf→LeafReady q first', (check_leaves-All qs).0 rest),
    λ h. rw (LeafReady→check_leaf q h.0) ((check_leaves-All qs).1 h.1),
  )

  require_leaves-ok : (qs : List QuestionVersion) {u : Unit} → require_leaves qs ≡ ok u → qs ≢ []
  unfolding require_leaves
  require_leaves-ok [] h e = cc
  require_leaves-ok (q ∷ qs) h e = cc

  ok-require_leaves : (qs : List QuestionVersion) → qs ≢ [] → require_leaves qs ≡ ok tt
  unfolding require_leaves
  ok-require_leaves [] ne = absurd (ne refl)
  ok-require_leaves (q ∷ qs) ne = refl

  gate_passed : (v : AssessmentVersion) → ensure_assessment_ready db tenant_id v ≡ ok tt → IsReady v
  unfolding ensure_assessment_ready
  gate_passed v h =
      let (u, some_leaf, h₁) =
        >>=-eq-ok (require_leaves (leaves (questions_of db tenant_id v))) _ h in
      let (w, marks_ok, h₂) =
        >>=-eq-ok (guard (reconcile_marks (questions_of db tenant_id v) v.max_marks).0 _) _ h₁ in
      record {
        leaf_questions = leaves (questions_of db tenant_id v);
        are_leaves = leaves-Selected db tenant_id v;
        scorable = require_leaves-ok _ some_leaf;
        marks = (==_iff _ _).0 (guard-eq-ok _ _ marks_ok);
        prepared = (check_leaves-All _).0 h₂;
      }

  passes_gate : (v : AssessmentVersion) → IsReady v → ensure_assessment_ready db tenant_id v ≡ ok tt
  unfolding ensure_assessment_ready reconcile_marks
  passes_gate v r =
      rw
        (
          Selected-leaves db tenant_id v r.are_leaves,
          ok-require_leaves _ r.scorable,
          (==_iff _ _).1 r.marks,
        )
        ((check_leaves-All r.leaf_questions).1 r.prepared)

  -- The gate lets a version pass exactly if it has a scorable leaf, a question that is the parent
  -- of no other of the version, its leaf marks add up to the assessment's, and every leaf has an
  -- APPROVED answer key and an APPROVED rubric whose criteria reconcile with the question's marks;
  -- all of them in the tenant, and of several such rubrics the first that the database returns.
  pub ensure_assessment_ready-IsReady :
      (v : AssessmentVersion) → (ensure_assessment_ready db tenant_id v ≡ ok tt) ↔ IsReady v
  ensure_assessment_ready-IsReady v = (gate_passed v, passes_gate v)
