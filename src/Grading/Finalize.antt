-- ===== src/Grading/Finalize.antt =====
-- `finalize_evaluation` of evaluation.py, from the submission that the route loaded.
pub mod Complete
use eduvijna_paper_evaluatio.Prelude.{
  ℕ, Bool, true, false, not, Option, none, some, List, [], ◌∷◌, String, Result, ok, err, guard,
  require, ◌>>=◌, ◌>>◌, ◌==◌, ◌&&◌, ltb, first, update, select, if◌then◌else◌,
}
use eduvijna_paper_evaluatio.Assessment.Marks.{QuestionVersion, leaves}
use eduvijna_paper_evaluatio.Grading.Ledger.{
  QeState, RunStatus, SubmissionState, EvaluationRun, QuestionEvaluation, Submission, is_reviewed,
}
use eduvijna_paper_evaluatio.Grading.Work.{ModerationPolicy}
use eduvijna_paper_evaluatio.Grading.Store.{
  Store, Request, Code, Payload, audit, invalid_workflow_state, run_not_found, ledger_incomplete,
  escalated_pending, review_incomplete,
}
use eduvijna_paper_evaluatio.Grading.Review.{is_escalated}
use eduvijna_paper_evaluatio.Grading.Pools.Allocation.{evaluations_of}
use eduvijna_paper_evaluatio.Grading.Moderation.{
  active_moderation_policy, ensure_moderation_case_for_run,
}
use eduvijna_paper_evaluatio.Grading.Moderation.Decide.{save_run, save_submission}

unfoldable pub is_evaluation_review : SubmissionState → Bool
is_evaluation_review SubmissionState.evaluation_review = true
is_evaluation_review _ = false

-- `order_by(run_number.desc()).limit(1)`
unfoldable pub newer_run : EvaluationRun → Option EvaluationRun → EvaluationRun
newer_run r none = r
newer_run r (some s) = if ltb r.run_number s.run_number then s else r

unfoldable pub newest_run : List EvaluationRun → Option EvaluationRun
unfolding newer_run
newest_run [] = none
newest_run (r ∷ rs) = some (newer_run r (newest_run rs))

unfoldable pub latest_run : Store → Request → Submission → Option EvaluationRun
unfolding newest_run select
latest_run db req submission =
    newest_run
      (select (λ r. r.tenant_id == req.tenant_id && r.submission_id == submission.id) db.runs)

-- `_leaf_questions`
unfoldable pub leaf_questions : Store → Request → ℕ → List QuestionVersion
unfolding leaves select
leaf_questions db req version_id = leaves (
    select (λ q. q.tenant_id == req.tenant_id && q.assessment_version_id == version_id)
      db.questions)

-- `by_qv.get(leaf.id)`: of two rows for one question the dictionary keeps the later
unfoldable pub by_qv : ℕ → List QuestionEvaluation → Option QuestionEvaluation
by_qv id [] = none
by_qv id (q ∷ qs) = elim (by_qv id qs) [
  | some later ↦ some later
  | none ↦ if q.question_version_id == id then some q else none
]

-- the body of `for leaf in leaves`
unfoldable pub check_question : List QuestionEvaluation → QuestionVersion → Result Code Unit
unfolding by_qv is_escalated is_reviewed
check_question qes leaf = do
  qe ← require (by_qv leaf.id qes) ledger_incomplete
  guard (not (is_escalated qe.workflow_state)) escalated_pending
  guard (is_reviewed qe.workflow_state) review_incomplete

unfoldable pub check_questions : List QuestionEvaluation → List QuestionVersion → Result Code Unit
unfolding check_question
check_questions qes [] = ok tt
check_questions qes (leaf ∷ rest) =
    let others = check_questions qes rest in check_question qes leaf >> others

module _ (db : Store) (req : Request) (submission : Submission) (run : EvaluationRun) where
  unfoldable pub send_to_moderation : ModerationPolicy → Result Code Store
  unfolding save_submission save_run ensure_moderation_case_for_run audit
  send_to_moderation policy = do
    let sent = record submission { workflow_state = SubmissionState.moderation_review }
    let under_review = record run { status = RunStatus.review_required }
    saved ←
        ensure_moderation_case_for_run (save_run under_review (save_submission sent db)) req policy
          sent under_review
    ok (
        audit req "Submission" submission.id "evaluation_sent_to_moderation"
          (Payload.workflow SubmissionState.moderation_review run.id (some policy.id)) saved)

  unfoldable pub approve : Store
  unfolding save_submission save_run audit
  approve =
      audit req "Submission" submission.id "evaluation_finalized"
        (Payload.workflow SubmissionState.approved run.id none)
        (save_run (record run { status = RunStatus.completed; finished_at = some req.now })
          (save_submission (record submission { workflow_state = SubmissionState.approved }) db))

  -- what follows `if policy is not None`
  unfoldable pub conclude : Option ModerationPolicy → Result Code Store
  unfolding send_to_moderation approve
  conclude none = ok approve
  conclude (some policy) = send_to_moderation policy

unfoldable pub finalize_evaluation : Store → Request → Submission → Result Code Store
unfolding is_evaluation_review latest_run leaf_questions evaluations_of check_questions
    active_moderation_policy conclude
finalize_evaluation db req submission = do
  guard (is_evaluation_review submission.workflow_state) invalid_workflow_state
  run ← require (latest_run db req submission) run_not_found
  check_questions (evaluations_of db req run.id)
      (leaf_questions db req submission.assessment_version_id)
  conclude db req submission run (active_moderation_policy db req submission.assessment_version_id)
