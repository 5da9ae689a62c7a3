-- ===== src/Grading/Review.antt =====
-- The review actions of evaluation.py. The row that a route loaded is the argument `qe`; its
-- changed copy takes the place of the row with its `id`.
pub mod Recorded
pub mod Decisions
pub mod Ownership
use eduvijna_paper_evaluatio.Prelude.{
  ℕ, Bool, true, false, not, zero, suc, Option, none, some, List, [], ◌∷◌, ◌++◌, map, String,
  Result, ok, guard, require, ◌>>=◌, ◌>>◌, ◌==◌, ◌&&◌, first, update, select, has_text, strip,
  is_blank, is_empty, if◌then◌else◌,
}
use eduvijna_paper_evaluatio.Prelude.Int.{ℤ, pos, ltb_ℤ}
use eduvijna_paper_evaluatio.Grading.Ledger.{
  QeState, QuestionEvaluation, CriterionEvaluation, ActionType, qe_before_snapshot, is_reviewed,
}
use eduvijna_paper_evaluatio.Grading.Store.{
  Store, Request, Code, not_found, no_proposal, already_reviewed, reason_required,
  score_out_of_range, feedback_required,
}
use eduvijna_paper_evaluatio.Grading.Access.{assert_question_evaluation_review_allowed}
use eduvijna_paper_evaluatio.Grading.Criteria.{settle, write_back}

unfoldable pub is_escalated : QeState → Bool
is_escalated QeState.escalated = true
is_escalated _ = false

-- `_enforce_grading_ownership`, and the test of the tenant before it
unfoldable pub enforce_grading_ownership : Store → Request → QuestionEvaluation → Result Code Unit
enforce_grading_ownership db req qe = do
  guard (qe.tenant_id == req.tenant_id) not_found
  assert_question_evaluation_review_allowed db req qe.id

-- the changed row and the `ReviewAction` that every review adds
unfoldable pub record_review :
    Request
    → QuestionEvaluation
    → QuestionEvaluation
    → ActionType
    → Option String
    → Option ℤ
    → Option ℤ
    → Store
    → Store
unfolding update qe_before_snapshot
record_review req qe changed action_type reason previous_score new_score db = record db {
  question_evaluations = update (λ r. r.id == qe.id) (λ r. changed) db.question_evaluations;
  review_actions =
      db.review_actions
      ++ record {
        tenant_id = req.tenant_id;
        submission_id = qe.submission_id;
        question_evaluation_id = qe.id;
        evaluation_run_id = qe.evaluation_run_id;
        actor_user_id = req.user_id;
        action_type = action_type;
        reason = reason;
        before_snapshot = qe_before_snapshot qe;
        after_snapshot = qe_before_snapshot changed;
        previous_score = previous_score;
        new_score = new_score;
      }
        ∷ [];
}

unfoldable pub accepted_row :
    Request → List CriterionEvaluation → QuestionEvaluation → QuestionEvaluation
unfolding qe_before_snapshot
accepted_row req criteria qe =
    let decided : QuestionEvaluation = record qe {
      final_human_approved_score = qe.proposed_ai_score;
      workflow_state = QeState.accepted;
      reviewed_by = some req.user_id;
      reviewed_at = some req.now;
    } in
    record decided {
      approved_snapshot_hash =
          some (req.snapshot_hash (qe_before_snapshot decided) (some criteria));
    }

-- the criteria that an acceptance selects, by the evaluation alone, and what it does to each
unfoldable pub is_criterion_of : QuestionEvaluation → CriterionEvaluation → Bool
is_criterion_of qe c = c.question_evaluation_id == qe.id

unfoldable pub accept_marks : CriterionEvaluation → CriterionEvaluation
accept_marks c = record c { final_marks = c.proposed_marks }

unfoldable pub accept_question_evaluation : Store → Request → QuestionEvaluation → Result Code Store
unfolding enforce_grading_ownership record_review accepted_row is_escalated is_reviewed select
    update is_criterion_of accept_marks
accept_question_evaluation db req qe = do
  enforce_grading_ownership db req qe
  score ← require qe.proposed_ai_score no_proposal
  guard (not (is_reviewed qe.workflow_state)) already_reviewed
  guard (not (is_escalated qe.workflow_state)) Code.escalated
  ok (
      record_review req qe
        (accepted_row req (map accept_marks (select (is_criterion_of qe) db.criteria)) qe)
        ActionType.accept none none (some score)
        (record db { criteria = update (is_criterion_of qe) accept_marks db.criteria }))

-- the arguments of an override
pub record Override : Type 0 where
  pub score : ℤ
  pub reason : String
  pub feedback : Option String
  pub criterion_finals : List (ℕ × ℤ)
  pub valid_alternative : Bool

-- `(feedback or reason).strip()`
unfoldable pub feedback_or : Option String → String → String
unfolding is_empty
feedback_or none reason = reason
feedback_or (some feedback) reason = if is_empty feedback then reason else feedback

unfoldable pub with_valid_alternative : Bool → List String → List String
unfolding has_text
with_valid_alternative false codes = codes
with_valid_alternative true codes =
    if has_text codes "VALID_ALTERNATIVE" then codes else codes ++ "VALID_ALTERNATIVE" ∷ []

-- `int(qe.ledger_version or 1) + 1`
unfoldable pub next_version : ℕ → ℕ
next_version zero = 2
next_version (suc n) = suc (suc n)

unfoldable pub overridden_row : Request → Override → QuestionEvaluation → QuestionEvaluation
unfolding qe_before_snapshot feedback_or strip with_valid_alternative next_version
overridden_row req o qe =
    let decided : QuestionEvaluation = record qe {
      final_human_approved_score = some o.score;
      workflow_state = QeState.overridden;
      reviewed_by = some req.user_id;
      reviewed_at = some req.now;
      reviewer_feedback = some (strip (feedback_or o.feedback o.reason));
      ledger_version = next_version qe.ledger_version;
      error_codes = with_valid_alternative o.valid_alternative qe.error_codes;
    } in
    record decided {
      approved_snapshot_hash = some (req.snapshot_hash (qe_before_snapshot decided) none);
    }

unfoldable pub override_question_evaluation :
    Store → Request → QuestionEvaluation → Override → Result Code Store
unfolding enforce_grading_ownership record_review overridden_row is_escalated is_blank strip settle
    write_back select
override_question_evaluation db req qe o = do
  enforce_grading_ownership db req qe
  guard (not (is_blank o.reason)) reason_required
  guard (not (ltb_ℤ o.score (pos 0))) score_out_of_range
  guard (not (ltb_ℤ qe.max_mark o.score)) score_out_of_range
  guard (not (is_escalated qe.workflow_state)) Code.escalated
  criteria ←
      settle o.score o.criterion_finals (
        select (λ c. c.tenant_id == req.tenant_id && c.question_evaluation_id == qe.id) db.criteria)
  ok (
      record_review req qe (overridden_row req o qe)
        (if o.valid_alternative then ActionType.valid_alternative else ActionType.override)
        (some (strip o.reason)) qe.final_human_approved_score (some o.score)
        (record db { criteria = write_back criteria db.criteria }))

unfoldable pub feedback_question_evaluation :
    Store → Request → QuestionEvaluation → String → Result Code Store
unfolding enforce_grading_ownership record_review is_blank strip
feedback_question_evaluation db req qe feedback = do
  enforce_grading_ownership db req qe
  guard (not (is_blank feedback)) feedback_required
  ok (
      record_review req qe (record qe { reviewer_feedback = some (strip feedback) })
        ActionType.edit_feedback (some (strip feedback)) qe.final_human_approved_score
        qe.final_human_approved_score db)

unfoldable pub escalate_question_evaluation :
    Store → Request → QuestionEvaluation → String → Result Code Store
unfolding enforce_grading_ownership record_review is_blank strip
escalate_question_evaluation db req qe reason = do
  enforce_grading_ownership db req qe
  guard (not (is_blank reason)) reason_required
  ok (
      record_review req qe
        (record qe {
          workflow_state = QeState.escalated;
          reviewer_feedback = some (strip reason);
          reviewed_by = some req.user_id;
          reviewed_at = some req.now;
        })
        ActionType.escalate (some (strip reason)) qe.final_human_approved_score
        qe.final_human_approved_score db)

-- a request to one of the four review routes
pub data Review : Type 0 where
  accept : Review
  override : Override → Review
  feedback : String → Review
  escalate : String → Review

unfoldable pub review_row : Store → Request → Review → QuestionEvaluation → Result Code Store
unfolding accept_question_evaluation override_question_evaluation feedback_question_evaluation
    escalate_question_evaluation
review_row db req Review.accept qe = accept_question_evaluation db req qe
review_row db req (Review.override o) qe = override_question_evaluation db req qe o
review_row db req (Review.feedback text) qe = feedback_question_evaluation db req qe text
review_row db req (Review.escalate reason) qe = escalate_question_evaluation db req qe reason

unfoldable pub load_qe : Store → Request → ℕ → Option QuestionEvaluation
unfolding first
load_qe db req qe_id =
    first (λ r. r.id == qe_id && r.tenant_id == req.tenant_id) db.question_evaluations

-- the route: it loads the row in the caller's tenant
unfoldable pub review : Store → Request → ℕ → Review → Result Code Store
unfolding load_qe review_row
review db req qe_id action = do
  qe ← require (load_qe db req qe_id) not_found
  review_row db req action qe
