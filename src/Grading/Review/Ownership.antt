-- ===== src/Grading/Review/Ownership.antt =====
-- Who may not review: an evaluation that another's work item governs.
use eduvijna_paper_evaluatio.Prelude.{
  ℕ, ◌≡◌, ◌≢◌, refl, Bool, true, false, ◌==◌, ==_iff, &&-eq-true, Bool-cases, inl, inr, some, err,
  [], ◌∷◌, Any, FirstOf, FirstOf-first, meets, meets→Any, has_text, has_text→Any, arith, ◌&&◌,
}
use eduvijna_paper_evaluatio.Grading.Ledger.{QuestionEvaluation}
use eduvijna_paper_evaluatio.Grading.Store.{grading_assignment_forbidden, Store, Request}
use eduvijna_paper_evaluatio.Grading.Work.{WorkStatus, GradingWorkItem}
use eduvijna_paper_evaluatio.Grading.Access.{
  is_governing, grading_governance_roles, get_governing_work_item, is_grading_governance_override,
}
use eduvijna_paper_evaluatio.Grading.Review.{
  escalate_question_evaluation, feedback_question_evaluation, override_question_evaluation,
  accept_question_evaluation, enforce_grading_ownership, review_row, Review,
}

-- A work item of the tenant on the question evaluation that is not COMPLETED.
pub record IsGoverning (req : Request) (qe_id : ℕ) (i : GradingWorkItem) : Type 0 where
  pub tenant : i.tenant_id ≡ req.tenant_id
  pub evaluation : i.question_evaluation_id ≡ qe_id
  pub uncompleted : i.status ≢ WorkStatus.completed

-- The caller has one of the four governance roles and the permission to manage grading.
pub record IsGovernance (req : Request) : Type 0 where
  pub role :
      Any
        (λ r.
          Any
            (λ g. g ≡ r)
            ("INSTITUTION_ADMIN" ∷ "EXAM_CONTROLLER" ∷ "HOD" ∷ "ACADEMIC_COORDINATOR" ∷ []))
        req.roles
  pub permission : Any (λ p. p ≡ "grading:manage") req.permissions

uncompleted_status : (s : WorkStatus) → is_governing s ≡ true → s ≢ WorkStatus.completed
unfolding is_governing
uncompleted_status WorkStatus.completed h e = cc
uncompleted_status WorkStatus.queued h e = cc
uncompleted_status WorkStatus.in_progress h e = cc
uncompleted_status WorkStatus.submitted h e = cc
uncompleted_status WorkStatus.returned h e = cc

completed_status : (s : WorkStatus) → is_governing s ≡ false → s ≡ WorkStatus.completed
unfolding is_governing
completed_status WorkStatus.completed h = refl
completed_status WorkStatus.queued h = cc
completed_status WorkStatus.in_progress h = cc
completed_status WorkStatus.submitted h = cc
completed_status WorkStatus.returned h = cc

module _ (req : Request) (qe_id : ℕ) where
  abbrev governs_test : GradingWorkItem → Bool
  governs_test i =
      i.tenant_id == req.tenant_id && (i.question_evaluation_id == qe_id && is_governing i.status)

  governs_test-IsGoverning : (i : GradingWorkItem) → governs_test i ≡ true → IsGoverning req qe_id i
  governs_test-IsGoverning i h = record {
    tenant = ground (arith, ==_iff i.tenant_id req.tenant_id);
    evaluation = ground (arith, ==_iff i.question_evaluation_id qe_id);
    uncompleted = uncompleted_status i.status (ground arith);
  }

  not-IsGoverning : (i : GradingWorkItem) → governs_test i ≡ false → ¬ IsGoverning req qe_id i
  not-IsGoverning i h g = elim (Bool-cases (is_governing i.status)) [
    | inl yes' ↦ ground (
      arith,
      (==_iff i.tenant_id req.tenant_id).1 g.tenant,
      (==_iff i.question_evaluation_id qe_id).1 g.evaluation,
    )
    | inr no' ↦ g.uncompleted (completed_status i.status no')
  ]

pub governing_item :
    (db : Store) (req : Request) (qe_id : ℕ) {item : GradingWorkItem}
    → FirstOf (IsGoverning req qe_id) item db.work_items
    → get_governing_work_item db req qe_id ≡ some item
unfolding get_governing_work_item
governing_item db req qe_id f =
    FirstOf-first (IsGoverning req qe_id) (governs_test req qe_id)
      (governs_test-IsGoverning req qe_id) (not-IsGoverning req qe_id) f

pub no_override : (req : Request) → ¬ IsGovernance req → is_grading_governance_override req ≡ false
unfolding is_grading_governance_override
no_override req n = elim (Bool-cases (is_grading_governance_override req)) [
  | inl yes' ↦
      let (role, permission) =
        &&-eq-true (meets req.roles grading_governance_roles)
          (has_text req.permissions "grading:manage") yes' in
      absurd (
        n (record {
          role = meets→Any req.roles grading_governance_roles role;
          permission = has_text→Any req.permissions "grading:manage" permission;
        }))
  | inr no' ↦ no'
]

pub not_assigned : (a b : ℕ) → a ≢ b → (a == b) ≡ false
not_assigned a b n = elim (Bool-cases (a == b)) [
  | inl yes' ↦ absurd (n ((==_iff a b).0 yes'))
  | inr no' ↦ no'
]

pub review_row_needs_ownership :
    (db : Store) (req : Request) (action : Review) (qe : QuestionEvaluation)
    → enforce_grading_ownership db req qe ≡ err grading_assignment_forbidden
    → review_row db req action qe ≡ err grading_assignment_forbidden
unfolding review_row accept_question_evaluation override_question_evaluation
    feedback_question_evaluation escalate_question_evaluation
review_row_needs_ownership db req Review.accept qe h = rw h refl
review_row_needs_ownership db req (Review.override o) qe h = rw h refl
review_row_needs_ownership db req (Review.feedback text) qe h = rw h refl
review_row_needs_ownership db req (Review.escalate reason) qe h = rw h refl
