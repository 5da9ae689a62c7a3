-- ===== src/Assessment/Readiness.antt =====
-- readiness.py and the route `transition_assessment` of curriculum_assessment.py. A table is the
-- list of its rows in the order in which the database returns them.
pub mod Needs
pub mod Approved
pub mod Gate
pub mod Transition
use eduvijna_paper_evaluatio.Prelude.{
  ℕ, Bool, true, false, ◌&&◌, Option, none, some, List, [], ◌∷◌, String, Result, ok, err, guard,
  require, ◌>>=◌, ◌>>◌, ◌==◌, ltb, if◌then◌else◌, select, first, update,
}
use eduvijna_paper_evaluatio.Assessment.Errors.{
  HttpError, conflict, not_found, no_version, no_scorable_questions, marks_do_not_reconcile,
  lacks_answer_key, lacks_rubric, rubric_does_not_reconcile,
}
use eduvijna_paper_evaluatio.Assessment.Status.{
  Status, ready, Target, status, unknown, validate_transition,
}
use eduvijna_paper_evaluatio.Assessment.Marks.{QuestionVersion, leaves, reconcile_marks}
use eduvijna_paper_evaluatio.Assessment.Rubric.{RubricCriterion, reconcile_rubric}

-- the status column of answer-key and rubric versions
pub data VersionStatus : Type 0 where
  draft review_required approved superseded : VersionStatus

pub record AnswerKeyVersion : Type 0 where
  pub id : ℕ
  pub tenant_id : ℕ
  pub question_version_id : ℕ
  pub status : VersionStatus

pub record RubricVersion : Type 0 where
  pub id : ℕ
  pub tenant_id : ℕ
  pub question_version_id : ℕ
  pub status : VersionStatus

pub record AssessmentVersion : Type 0 where
  pub id : ℕ
  pub tenant_id : ℕ
  pub assessment_id : ℕ
  pub version_number : ℕ
  pub max_marks : ℕ

pub record Assessment : Type 0 where
  pub id : ℕ
  pub tenant_id : ℕ
  pub status : Status

pub record Tables : Type 0 where
  pub assessments : List Assessment
  pub assessment_versions : List AssessmentVersion
  pub questions : List QuestionVersion
  pub answer_keys : List AnswerKeyVersion
  pub rubrics : List RubricVersion
  pub criteria : List RubricCriterion

unfoldable pub is_approved : VersionStatus → Bool
is_approved approved = true
is_approved _ = false

-- `if not leaves`
unfoldable pub require_leaves : List QuestionVersion → Result HttpError Unit
require_leaves [] = err (conflict no_scorable_questions)
require_leaves (q ∷ qs) = ok tt

-- the queries of `ensure_assessment_ready`
module _ (db : Tables) (tenant_id : ℕ) where
  unfoldable pub questions_of : AssessmentVersion → List QuestionVersion
  unfolding select
  questions_of v =
      select (λ q. q.tenant_id == tenant_id && q.assessment_version_id == v.id) db.questions

  unfoldable pub approved_key : QuestionVersion → Option AnswerKeyVersion
  unfolding first is_approved
  approved_key q =
      first
        (λ k. k.tenant_id == tenant_id && (k.question_version_id == q.id && is_approved k.status))
        db.answer_keys

  unfoldable pub approved_rubric : QuestionVersion → Option RubricVersion
  unfolding first is_approved
  approved_rubric q =
      first
        (λ r. r.tenant_id == tenant_id && (r.question_version_id == q.id && is_approved r.status))
        db.rubrics

  unfoldable pub criteria_of : RubricVersion → List RubricCriterion
  unfolding select
  criteria_of r = select (λ c. c.tenant_id == tenant_id && c.rubric_version_id == r.id) db.criteria

  -- the body of `for question in leaves`
  unfoldable pub check_leaf : QuestionVersion → Result HttpError Unit
  unfolding approved_key approved_rubric criteria_of reconcile_rubric
  check_leaf q = do
    require (approved_key q) (conflict (lacks_answer_key q.display_label))
    rubric ← require (approved_rubric q) (conflict (lacks_rubric q.display_label))
    guard (reconcile_rubric (criteria_of rubric) q.max_marks).0
        (conflict (rubric_does_not_reconcile q.display_label))

  unfoldable pub check_leaves : List QuestionVersion → Result HttpError Unit
  unfolding check_leaf
  check_leaves [] = ok tt
  check_leaves (q ∷ qs) = let rest = check_leaves qs in check_leaf q >> rest

  unfoldable pub ensure_assessment_ready : AssessmentVersion → Result HttpError Unit
  unfolding questions_of leaves require_leaves reconcile_marks check_leaves
  ensure_assessment_ready v = do
    require_leaves (leaves (questions_of v))
    let (marks_ok, total) = reconcile_marks (questions_of v) v.max_marks
    guard marks_ok (conflict (marks_do_not_reconcile total v.max_marks))
    check_leaves (leaves (questions_of v))

-- `order_by(version_number.desc())`, the first row
unfoldable pub newer : AssessmentVersion → Option AssessmentVersion → AssessmentVersion
newer v none = v
newer v (some w) = if ltb v.version_number w.version_number then w else v

unfoldable pub latest : List AssessmentVersion → Option AssessmentVersion
unfolding newer
latest [] = none
latest (v ∷ vs) = some (newer v (latest vs))

module _ (db : Tables) (tenant_id assessment_id : ℕ) where
  -- `_scoped(db, Assessment, …)` selects by this test
  unfoldable pub is_scoped : Assessment → Bool
  is_scoped a = a.id == assessment_id && a.tenant_id == tenant_id

  unfoldable pub versions_of : List AssessmentVersion
  unfolding select
  versions_of =
      select (λ v. v.tenant_id == tenant_id && v.assessment_id == assessment_id)
        db.assessment_versions

  -- `if target == "READY"`
  unfoldable pub gate : Status → Result HttpError Unit
  unfolding latest versions_of ensure_assessment_ready
  gate ready = do
    version ← require (latest versions_of) (conflict no_version)
    ensure_assessment_ready db tenant_id version
  gate _ = ok tt

  unfoldable pub set_status : Status → Tables
  unfolding update is_scoped
  set_status t = record db {
    assessments = update is_scoped (λ a. record a { status = t }) db.assessments;
  }

  -- what follows the check of the transition, which refuses `unknown`
  unfoldable pub enter : Target → Result HttpError Tables
  unfolding gate set_status
  enter (status t) = do gate t; ok (set_status t)
  enter unknown = err not_found

  unfoldable pub transition_assessment : Target → Result HttpError Tables
  unfolding first is_scoped validate_transition enter
  transition_assessment target = do
    assessment ← require (first is_scoped db.assessments) not_found
    validate_transition assessment.status target
    enter target
