-- ===== src/Grading/CaseSamples.antt =====
-- A script on its way through submission, finalization, moderation and a grievance, and the
-- theorems about these at it.
use eduvijna_paper_evaluatio.Grading.Moderation.Admission.{IsRow, Admitted}
use eduvijna_paper_evaluatio.Grading.Grievance.Reevaluation.{
  Reevaluated, accept_grievance-Reevaluated,
}
use eduvijna_paper_evaluatio.Grading.Grievance.Duplicates.{second_grievance_refused}
use eduvijna_paper_evaluatio.Grading.Grievance.{create_grievance, accept_grievance}
use eduvijna_paper_evaluatio.Grading.Finalize.Complete.{Finalized, finalize_evaluation-Finalized}
use eduvijna_paper_evaluatio.Grading.Finalize.{finalize_evaluation}
use eduvijna_paper_evaluatio.Grading.Moderation.Outcome.{Applied, decide_moderation-Applied}
use eduvijna_paper_evaluatio.Grading.Moderation.Decide.{decide_moderation}
use eduvijna_paper_evaluatio.Grading.Moderation.Policies.{
  Activated, activate_moderation_policy-OneActive,
}
use eduvijna_paper_evaluatio.Grading.Moderation.{activate_moderation_policy}
use eduvijna_paper_evaluatio.Grading.Pools.WorkItems.Tracking.{
  Submitted, submit_work_item-Submitted,
}
use eduvijna_paper_evaluatio.Grading.Pools.WorkItems.{Progress, submit_work_item, pool_progress}
use eduvijna_paper_evaluatio.Grading.Published.{
  PublishedStatus, PublishedResult, no_artifact, no_report,
}
use eduvijna_paper_evaluatio.Grading.Store.{Store, Request, stage_missing, duplicate_grievance}
use eduvijna_paper_evaluatio.Grading.Work.{
  PolicyStatus, WorkStatus, Decision, GrievanceStatus, GradingWorkItem, ModerationPolicy,
  ModerationStage, ModerationCase, GrievanceCase,
}
use eduvijna_paper_evaluatio.Grading.Ledger.{
  QeState, SubmissionState, QuestionEvaluation, Submission,
}
use eduvijna_paper_evaluatio.Assessment.Marks.{QuestionVersion, QuestionMode}
use eduvijna_paper_evaluatio.Prelude.Int.{pos}
use eduvijna_paper_evaluatio.Prelude.{ℕ, ◌≡◌, refl, none, some, [], ◌∷◌, String, map, ok, err}
use eduvijna_paper_evaluatio.Grading.Samples.{question, work_item, desk, by_user, returned}

abbrev leaf : QuestionVersion
leaf = record {
  id = 31;
  tenant_id = 1;
  assessment_version_id = 21;
  parent_question_version_id = none;
  display_label = "Q1";
  max_marks = 200;
  scoring_mode = QuestionMode.leaf_scorable;
}

abbrev reviewed_question : QuestionEvaluation
reviewed_question = record (question 100 31 QeState.accepted) {
  final_human_approved_score = some (pos 15_000);
}

abbrev policy : PolicyStatus → ModerationPolicy
policy status = record {
  id = 90;
  tenant_id = 1;
  assessment_id = 20;
  assessment_version_id = 21;
  status = status;
  created_by = none;
  activated_by = none;
  activated_at = none;
  retired_by = none;
  retired_at = none;
}

abbrev stage : ℕ → ℕ → String → ModerationStage
stage id stage_order role = record {
  id = id;
  tenant_id = 1;
  policy_id = 90;
  stage_order = stage_order;
  required_role = role;
  label = "Stage";
}

abbrev pub result : ℕ → PublishedStatus → PublishedResult
result id status = record {
  id = id;
  tenant_id = 1;
  submission_id = 50;
  student_id = some 60;
  assessment_id = 20;
  assessment_version_id = 21;
  evaluation_run_id = 10;
  version_number = 1;
  status = status;
  ledger_snapshot_hash = "hash";
  total_score = pos 15_000;
  max_total_score = pos 20_000;
  annotated_pdf = no_artifact;
  student_report = no_artifact;
  student_report_payload = no_report;
  parent_report = no_artifact;
  parent_report_payload = no_report;
  teacher_report = no_artifact;
  teacher_report_payload = no_report;
  narrative_source = none;
  generated_by = some 9;
  generated_at = none;
  published_by = none;
  published_at = none;
  failure_code = none;
  supersedes_result_id = none;
}

-- Two stages, at orders that leave out 1.
abbrev hall : Store
hall = record desk {
  questions = leaf ∷ [];
  question_evaluations = reviewed_question ∷ [];
  policies = policy PolicyStatus.active ∷ [];
  stages = stage 92 5 "HOD" ∷ stage 91 2 "MODERATOR" ∷ [];
  published_results = result 300 PublishedStatus.published ∷ [];
}

abbrev moderator : Request
moderator = record (by_user 7) { roles = "MODERATOR" ∷ [] }

abbrev submission : Submission
submission = record {
  id = 50;
  tenant_id = 1;
  student_id = some 60;
  assessment_id = 20;
  assessment_version_id = 21;
  workflow_state = SubmissionState.evaluation_review;
}

abbrev finalized : Store
finalized = returned hall (finalize_evaluation hall (by_user 9) submission)

finalize_ok : finalize_evaluation hall (by_user 9) submission ≡ ok finalized
unfolding finalize_evaluation
finalize_ok = refl

finalize_evaluation-Finalized_example : Finalized hall (by_user 9) submission finalized
finalize_evaluation-Finalized_example =
    finalize_evaluation-Finalized hall (by_user 9) submission finalized finalize_ok

abbrev moderated : Store
moderated = returned hall (decide_moderation finalized moderator 500 (some Decision.approve) none)

decide_ok : decide_moderation finalized moderator 500 (some Decision.approve) none ≡ ok moderated
unfolding decide_moderation finalize_evaluation
decide_ok = refl

-- The case starts at the first stage, 2, and goes on to the next, 5.
stages_test :
    (map (λ (c : ModerationCase). c.current_stage_order) finalized.cases ≡ 2 ∷ [])
    × (map (λ (c : ModerationCase). c.current_stage_order) moderated.cases ≡ 5 ∷ [])
unfolding decide_moderation finalize_evaluation
stages_test = (refl, refl)

decide_moderation-Applied_example :
    (case : ModerationCase) × IsRow moderator
      (λ (c : ModerationCase). c.id)
      (λ (c : ModerationCase). c.tenant_id)
      500
      case
      finalized.cases
    × Admitted finalized moderator case Decision.approve none
    × Applied finalized moderator case Decision.approve none moderated
decide_moderation-Applied_example =
    decide_moderation-Applied finalized moderated moderator 500 Decision.approve none decide_ok

abbrev sent_back : Store
sent_back =
    returned hall
      (decide_moderation finalized moderator 500 (some Decision.return) (some "Unclear"))

-- A case that was returned is taken up again at stage 1, which this policy does not have.
stage_missing_test :
    (sent : Store) × (finalize_evaluation sent_back (by_user 9) submission ≡ ok sent)
    × (decide_moderation sent moderator 500 (some Decision.approve) none ≡ err stage_missing)
unfolding decide_moderation finalize_evaluation
stage_missing_test =
    (returned hall (finalize_evaluation sent_back (by_user 9) submission), refl, refl)

abbrev drafted : Store
drafted = record hall { policies = policy PolicyStatus.draft ∷ [] }

abbrev activation : Store × ModerationPolicy
activation =
    returned (hall, policy PolicyStatus.draft) (activate_moderation_policy drafted (by_user 9) 90)

activate_ok : activate_moderation_policy drafted (by_user 9) 90 ≡ ok activation
unfolding activate_moderation_policy
activate_ok = refl

activate_moderation_policy-OneActive_example :
    Activated drafted activation.0 (by_user 9) 90 activation.1
activate_moderation_policy-OneActive_example =
    activate_moderation_policy-OneActive drafted activation.0 (by_user 9) 90 activation.1
      activate_ok

abbrev submitted_item : Store × GradingWorkItem
submitted_item = returned (hall, work_item WorkStatus.queued) (submit_work_item hall (by_user 5) 80)

submit_ok : submit_work_item hall (by_user 5) 80 ≡ ok submitted_item
unfolding submit_work_item
submit_ok = refl

submit_work_item-Submitted_example : Submitted hall submitted_item.0 (by_user 5) 80 submitted_item.1
submit_work_item-Submitted_example =
    submit_work_item-Submitted hall submitted_item.0 (by_user 5) 80 submitted_item.1 submit_ok

abbrev no_progress : Progress
no_progress = record { counts = λ s. 0; total = 0; by_evaluator = λ u s. 0 }

abbrev progress : Progress
progress = returned no_progress (pool_progress hall (by_user 5) 70)

progress_ok : pool_progress hall (by_user 5) 70 ≡ ok progress
unfolding pool_progress
progress_ok = refl

abbrev no_case : GrievanceCase
no_case = record {
  id = 0;
  tenant_id = 0;
  submission_id = 0;
  original_published_result_id = 0;
  original_evaluation_run_id = 0;
  requester_reference = "";
  submitted_by = 0;
  reason = "";
  status = GrievanceStatus.closed;
  decision_by = none;
  decision_at = none;
  decision_reason = none;
  reevaluation_run_id = none;
  revised_published_result_id = none;
}

abbrev filed : Store × GrievanceCase
filed = returned (hall, no_case) (create_grievance hall (by_user 9) 300 "Roll 12" " Total? ")

filed_ok : create_grievance hall (by_user 9) 300 "Roll 12" " Total? " ≡ ok filed
unfolding create_grievance
filed_ok = refl

second_grievance_refused_example :
    create_grievance filed.0 (record (by_user 9) { user_id = 4; now = 9 }) 300 "Roll 12" "Again"
    ≡ err duplicate_grievance
second_grievance_refused_example =
    second_grievance_refused hall filed.0 (by_user 9) 4 9 300 "Roll 12" " Total? " "Roll 12" "Again"
      filed.1 filed_ok

abbrev reevaluated : Store × GrievanceCase
reevaluated = returned (hall, no_case) (accept_grievance filed.0 (by_user 9) 500 none)

accept_ok : accept_grievance filed.0 (by_user 9) 500 none ≡ ok reevaluated
unfolding accept_grievance create_grievance
accept_ok = refl

accept_grievance-Reevaluated_example :
    Reevaluated filed.0 (by_user 9) 500 none reevaluated.0 reevaluated.1
accept_grievance-Reevaluated_example =
    accept_grievance-Reevaluated filed.0 (by_user 9) 500 none reevaluated.0 reevaluated.1 accept_ok
