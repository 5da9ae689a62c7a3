-- ===== src/Assessment/Readiness/Approved.antt =====
-- The approved versions and the criteria that readiness.py finds are those that readiness needs.
use eduvijna_paper_evaluatio.Assessment.Readiness.Needs.{
  IsApprovedKey, IsApprovedRubric, IsCriterion, both_keys, keys_test, approved_status,
}
use eduvijna_paper_evaluatio.Prelude.{
  first_hit, Any-imp, FirstOf-first, first-FirstOf, first_of_Any, Any, FirstOf, ℕ, ◌≡◌, ap, sym,
  Bool, true, false, ◌&&◌, some, List, ◌==◌, ==_iff, Selected, select-Selected, Selected-select,
  arith,
}
use eduvijna_paper_evaluatio.Assessment.Marks.{QuestionVersion}
use eduvijna_paper_evaluatio.Assessment.Rubric.{RubricCriterion}
use eduvijna_paper_evaluatio.Assessment.Readiness.{
  approved_key, approved_rubric, criteria_of, AnswerKeyVersion, RubricVersion, Tables, is_approved,
}

module _ (db : Tables) (tenant_id : ℕ) (q : QuestionVersion) where
  abbrev key_test : AnswerKeyVersion → Bool
  key_test k = k.tenant_id == tenant_id && (k.question_version_id == q.id && is_approved k.status)

  key_test-IsApprovedKey : (k : AnswerKeyVersion) → key_test k ≡ true → IsApprovedKey tenant_id q k
  key_test-IsApprovedKey k h = record {
    tenant = ground (arith, ==_iff k.tenant_id tenant_id);
    question = ground (arith, ==_iff k.question_version_id q.id);
    approved = approved_status k.status (ground arith);
  }

  IsApprovedKey-key_test : (k : AnswerKeyVersion) → IsApprovedKey tenant_id q k → key_test k ≡ true
  unfolding is_approved
  IsApprovedKey-key_test k i = ground (
    arith,
    (==_iff k.tenant_id tenant_id).1 i.tenant,
    (==_iff k.question_version_id q.id).1 i.question,
    ap is_approved i.approved,
  )

  pub approved_key-Any :
      {k : AnswerKeyVersion}
      → approved_key db tenant_id q ≡ some k
      → Any (IsApprovedKey tenant_id q) db.answer_keys
  unfolding approved_key
  approved_key-Any h = Any-imp key_test-IsApprovedKey (first_hit key_test db.answer_keys h)

  pub Any-approved_key :
      Any (IsApprovedKey tenant_id q) db.answer_keys
      → (k : AnswerKeyVersion) × (approved_key db tenant_id q ≡ some k)
  unfolding approved_key
  Any-approved_key h = first_of_Any key_test (Any-imp IsApprovedKey-key_test h)

  abbrev rubric_test : RubricVersion → Bool
  rubric_test r =
      r.tenant_id == tenant_id && (r.question_version_id == q.id && is_approved r.status)

  rubric_test-IsApprovedRubric :
      (r : RubricVersion) → rubric_test r ≡ true → IsApprovedRubric tenant_id q r
  rubric_test-IsApprovedRubric r h = record {
    tenant = ground (arith, ==_iff r.tenant_id tenant_id);
    question = ground (arith, ==_iff r.question_version_id q.id);
    approved = approved_status r.status (ground arith);
  }

  unapproved_rubric : (r : RubricVersion) → rubric_test r ≡ false → ¬ IsApprovedRubric tenant_id q r
  unfolding is_approved
  unapproved_rubric r h i = ground (
    arith,
    (==_iff r.tenant_id tenant_id).1 i.tenant,
    (==_iff r.question_version_id q.id).1 i.question,
    ap is_approved i.approved,
  )

  pub approved_rubric-FirstOf :
      {r : RubricVersion}
      → approved_rubric db tenant_id q ≡ some r
      → FirstOf (IsApprovedRubric tenant_id q) r db.rubrics
  unfolding approved_rubric
  approved_rubric-FirstOf h =
      first-FirstOf (IsApprovedRubric tenant_id q) rubric_test rubric_test-IsApprovedRubric
        unapproved_rubric db.rubrics h

  pub FirstOf-approved_rubric :
      {r : RubricVersion}
      → FirstOf (IsApprovedRubric tenant_id q) r db.rubrics
      → approved_rubric db tenant_id q ≡ some r
  unfolding approved_rubric
  FirstOf-approved_rubric f =
      FirstOf-first (IsApprovedRubric tenant_id q) rubric_test rubric_test-IsApprovedRubric
        unapproved_rubric f

module _ (db : Tables) (tenant_id : ℕ) (r : RubricVersion) where
  criterion_of :
      (c : RubricCriterion)
      → (c.tenant_id == tenant_id && c.rubric_version_id == r.id) ≡ true
      → IsCriterion tenant_id r c
  criterion_of c h =
      let (tenant, rubric) = both_keys c.tenant_id tenant_id c.rubric_version_id r.id h in
      record { tenant = tenant; rubric = rubric }

  no_criterion :
      (c : RubricCriterion)
      → (c.tenant_id == tenant_id && c.rubric_version_id == r.id) ≡ false
      → ¬ IsCriterion tenant_id r c
  no_criterion c h i =
      cc (h, keys_test c.tenant_id tenant_id c.rubric_version_id r.id i.tenant i.rubric)

  pub criteria_of-Selected :
      Selected (IsCriterion tenant_id r) db.criteria (criteria_of db tenant_id r)
  unfolding criteria_of
  criteria_of-Selected =
      select-Selected (IsCriterion tenant_id r) _ criterion_of no_criterion db.criteria

  pub Selected-criteria_of :
      {cs : List RubricCriterion}
      → Selected (IsCriterion tenant_id r) db.criteria cs
      → criteria_of db tenant_id r ≡ cs
  unfolding criteria_of
  Selected-criteria_of s =
      sym (Selected-select (IsCriterion tenant_id r) _ criterion_of no_criterion s)
