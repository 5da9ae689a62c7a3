-- ===== src/Grading/Access.antt =====
-- grading_access.py: who may review a question evaluation.
use eduvijna_paper_evaluatio.Prelude.{
  ℕ, Bool, true, false, Option, none, some, List, [], ◌∷◌, String, Result, guard, ◌==◌, ◌&&◌, ◌||◌,
  first, has_text, meets,
}
use eduvijna_paper_evaluatio.Grading.Work.{WorkStatus, GradingWorkItem}
use eduvijna_paper_evaluatio.Grading.Store.{Store, Request, Code, grading_assignment_forbidden}

-- `GOVERNING_WORK_ITEM_STATUSES`
unfoldable pub is_governing : WorkStatus → Bool
is_governing WorkStatus.completed = false
is_governing _ = true

-- `GRADING_GOVERNANCE_ROLES`
abbrev pub grading_governance_roles : List String
grading_governance_roles =
    "INSTITUTION_ADMIN" ∷ "EXAM_CONTROLLER" ∷ "HOD" ∷ "ACADEMIC_COORDINATOR" ∷ []

unfoldable pub get_governing_work_item : Store → Request → ℕ → Option GradingWorkItem
unfolding first is_governing
get_governing_work_item db req question_evaluation_id =
    first
      (λ i.
        i.tenant_id == req.tenant_id
        && (i.question_evaluation_id == question_evaluation_id && is_governing i.status))
      db.work_items

unfoldable pub is_grading_governance_override : Request → Bool
unfolding meets has_text
is_grading_governance_override req =
    meets req.roles grading_governance_roles && has_text req.permissions "grading:manage"

unfoldable pub allowed_by : Request → Option GradingWorkItem → Bool
unfolding is_grading_governance_override
allowed_by req none = true
allowed_by req (some item) =
    item.assigned_evaluator_id == req.user_id || is_grading_governance_override req

unfoldable pub assert_question_evaluation_review_allowed : Store → Request → ℕ → Result Code Unit
unfolding get_governing_work_item allowed_by
assert_question_evaluation_review_allowed db req question_evaluation_id =
    guard (allowed_by req (get_governing_work_item db req question_evaluation_id))
      grading_assignment_forbidden
