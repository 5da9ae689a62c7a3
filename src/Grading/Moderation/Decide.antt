-- ===== src/Grading/Moderation/Decide.antt =====
-- `decide_moderation`: one decision on a case at its current stage.
use eduvijna_paper_evaluatio.Prelude.{
  ℕ, Bool, true, false, not, Option, none, some, List, [], ◌∷◌, ◌++◌, map, String, Result, ok,
  guard, require, ◌>>=◌, ◌>>◌, ◌==◌, ◌&&◌, ◌||◌, ltb, first, update, select, has_text, any,
  contains, strip, is_empty,
}
use eduvijna_paper_evaluatio.Grading.Ledger.{
  RunStatus, SubmissionState, EvaluationRun, QuestionEvaluation, ReviewAction, Submission,
}
use eduvijna_paper_evaluatio.Grading.Work.{
  WorkStatus, CaseStatus, Decision, ModerationStage, ModerationCase, ModerationAction,
}
use eduvijna_paper_evaluatio.Grading.Store.{
  Store, Request, Code, Payload, audit, not_found, reason_required, invalid_case_state,
  stage_missing, forbidden_role, separation_of_duties, invalid_decision,
}
use eduvijna_paper_evaluatio.Grading.Moderation.{is_actionable, lowest, save_case}

unfoldable pub is_approve : Decision → Bool
is_approve Decision.approve = true
is_approve _ = false

-- `not (reason or "").strip()`
unfoldable pub lacks_reason : Option String → Bool
unfolding strip is_empty
lacks_reason none = true
lacks_reason (some reason) = is_empty (strip reason)

unfoldable pub load_case : Store → Request → ℕ → Option ModerationCase
unfolding first
load_case db req id = first (λ c. c.id == id && c.tenant_id == req.tenant_id) db.cases

-- the stages of the case's policy that pass a test of their order
unfoldable pub stages_where : Store → Request → ModerationCase → (ℕ → Bool) → List ModerationStage
unfolding select
stages_where db req case test =
    select
      (λ s. s.tenant_id == req.tenant_id && (s.policy_id == case.policy_id && test s.stage_order))
      db.stages

unfoldable pub current_stage : Store → Request → ModerationCase → Option ModerationStage
unfolding stages_where first
current_stage db req case =
    first (λ s. true) (stages_where db req case (λ order. order == case.current_stage_order))

unfoldable pub next_stage : Store → Request → ModerationCase → Option ModerationStage
unfolding stages_where lowest
next_stage db req case =
    lowest (stages_where db req case (λ order. ltb case.current_stage_order order))

unfoldable pub may_decide : Request → ModerationStage → Bool
unfolding has_text
may_decide req stage =
    has_text req.roles stage.required_role || has_text req.roles "INSTITUTION_ADMIN"

-- the identifiers of the evaluations of the case's run
unfoldable pub evaluation_ids : Store → Request → ModerationCase → List ℕ
unfolding select
evaluation_ids db req case =
    map (λ (q : QuestionEvaluation). q.id)
      (select (λ q. q.tenant_id == req.tenant_id && q.evaluation_run_id == case.evaluation_run_id)
        db.question_evaluations)

-- `prior_review is not None`: the actor reviewed a question of the run
unfoldable pub reviewed_run : Store → Request → ModerationCase → Bool
unfolding any contains evaluation_ids
reviewed_run db req case =
    any
      (λ (a : ReviewAction).
        a.tenant_id == req.tenant_id
        && (a.actor_user_id == req.user_id
            && contains (evaluation_ids db req case) a.question_evaluation_id))
      db.review_actions

unfoldable pub load_submission : Store → Request → ℕ → Option Submission
unfolding first
load_submission db req id = first (λ s. s.id == id && s.tenant_id == req.tenant_id) db.submissions

unfoldable pub case_run : Store → Request → ℕ → Option EvaluationRun
unfolding first
case_run db req id = first (λ r. r.id == id && r.tenant_id == req.tenant_id) db.runs

unfoldable pub save_submission : Submission → Store → Store
unfolding update
save_submission s db = record db {
  submissions = update (λ r. r.id == s.id) (λ r. s) db.submissions;
}

unfoldable pub save_run : EvaluationRun → Store → Store
unfolding update
save_run run db = record db { runs = update (λ r. r.id == run.id) (λ r. run) db.runs }

unfoldable pub is_submitted : WorkStatus → Bool
is_submitted WorkStatus.submitted = true
is_submitted _ = false

unfoldable pub is_submitted_or_completed : WorkStatus → Bool
is_submitted_or_completed WorkStatus.submitted = true
is_submitted_or_completed WorkStatus.completed = true
is_submitted_or_completed _ = false

-- the work items of the run whose status passes the test get the status
unfoldable pub move_items :
    Request → EvaluationRun → (WorkStatus → Bool) → WorkStatus → Store → Store
unfolding update
move_items req run test status db = record db {
  work_items =
      update (λ i. i.tenant_id == req.tenant_id && (i.evaluation_run_id == run.id && test i.status))
        (λ i. record i { status = status }) db.work_items;
}

module _ (req : Request) (reason : Option String) (case : ModerationCase) where
  unfoldable pub action_of : Decision → ModerationAction
  action_of decision = record {
    id = req.uuid4 0;
    tenant_id = req.tenant_id;
    case_id = case.id;
    stage_order = case.current_stage_order;
    actor_user_id = req.user_id;
    decision = decision;
    reason = reason;
  }

  unfoldable pub return_case : Submission → EvaluationRun → Store → Store
  unfolding save_case save_submission move_items is_submitted_or_completed audit
  return_case submission run db =
      audit req "ModerationCase" case.id "moderation_returned" (Payload.because reason) (
        move_items req run is_submitted_or_completed WorkStatus.returned (
          save_submission (record submission { workflow_state = SubmissionState.evaluation_review })
            (save_case (record case { status = CaseStatus.returned }) db)))

  unfoldable pub reject_case : Submission → EvaluationRun → Store → Store
  unfolding save_case save_submission save_run audit
  reject_case submission run db =
      audit req "ModerationCase" case.id "moderation_rejected" (Payload.because reason) (
        save_run (record run { status = RunStatus.failed })
          (save_submission (record submission { workflow_state = SubmissionState.failed })
            (save_case (record case { status = CaseStatus.rejected }) db)))

  unfoldable pub approve_finally : Submission → EvaluationRun → Store → Store
  unfolding save_case save_submission save_run move_items is_submitted audit
  approve_finally submission run db =
      audit req "ModerationCase" case.id "moderation_final_approved"
        (Payload.case (record case { status = CaseStatus.approved }))
        (move_items req run is_submitted WorkStatus.completed (
          save_run (record run { status = RunStatus.completed; finished_at = some req.now })
            (save_submission (record submission { workflow_state = SubmissionState.approved })
              (save_case (record case { status = CaseStatus.approved }) db))))

  unfoldable pub approve_stage : ModerationStage → Store → Store
  unfolding save_case audit
  approve_stage next db =
      audit req "ModerationCase" case.id "moderation_stage_approved"
        (Payload.stage next.stage_order)
        (save_case
          (record case { current_stage_order = next.stage_order; status = CaseStatus.pending }) db)

  unfoldable pub approve_case : Option ModerationStage → Submission → EvaluationRun → Store → Store
  unfolding approve_finally approve_stage
  approve_case none submission run db = approve_finally submission run db
  approve_case (some next) submission run db = approve_stage next db

  unfoldable pub apply :
      Decision → Option ModerationStage → Submission → EvaluationRun → Store → Store
  unfolding return_case reject_case approve_case
  apply Decision.return next submission run db = return_case submission run db
  apply Decision.reject next submission run db = reject_case submission run db
  apply Decision.approve next submission run db = approve_case next submission run db

-- `none` is a decision that is none of the three
unfoldable pub decide_moderation :
    Store → Request → (case_id : ℕ) → Option Decision → (reason : Option String) → Result Code Store
unfolding is_approve lacks_reason load_case is_actionable current_stage next_stage may_decide
    reviewed_run load_submission case_run action_of apply
decide_moderation db req case_id decision reason = do
  decision ← require decision invalid_decision
  guard (is_approve decision || not (lacks_reason reason)) reason_required
  case ← require (load_case db req case_id) not_found
  guard (is_actionable case.status) invalid_case_state
  stage ← require (current_stage db req case) stage_missing
  guard (may_decide req stage) forbidden_role
  guard (not (reviewed_run db req case && is_approve decision)) separation_of_duties
  submission ← require (load_submission db req case.submission_id) not_found
  run ← require (case_run db req case.evaluation_run_id) not_found
  ok (
      apply req reason case decision (next_stage db req case) submission run (record db {
        moderation_actions = db.moderation_actions ++ action_of req reason case decision ∷ [];
      }))
