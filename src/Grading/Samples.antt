-- ===== src/Grading/Samples.antt =====
-- A script under review, and the theorems about its review and allocation at it.
use eduvijna_paper_evaluatio.Grading.Review.Ownership.{IsGoverning, IsGovernance}
use eduvijna_paper_evaluatio.Prelude.{
  String, List, ℕ, ◌+◌, ◌≡◌, refl, true, false, none, some, [], ◌∷◌, ok, strip, Result, All, arith,
  map, err, FirstOf, found, Any, here, there,
}
use eduvijna_paper_evaluatio.Prelude.Int.{ℤ, pos}
use eduvijna_paper_evaluatio.Grading.Ledger.{
  QeState, RunStatus, RunKind, SubmissionState, EvaluationRun, Evidence, QuestionEvaluation,
  CriterionEvaluation,
}
use eduvijna_paper_evaluatio.Grading.Work.{
  PoolStatus, AllocationStrategy, WorkStatus, GradingPool, GradingPoolMember, GradingWorkItem,
}
use eduvijna_paper_evaluatio.Grading.Store.{Store, Request, Code, grading_assignment_forbidden}
use eduvijna_paper_evaluatio.Grading.Criteria.{settle}
use eduvijna_paper_evaluatio.Grading.Review.{Override, review, Review, load_qe}
use eduvijna_paper_evaluatio.Grading.Access.{assert_question_evaluation_review_allowed}
use eduvijna_paper_evaluatio.Grading.Criteria.Split.{Settles, settle-Settles}
use eduvijna_paper_evaluatio.Grading.Review.Recorded.{Recorded, review-Recorded}
use eduvijna_paper_evaluatio.Grading.Review.Decisions.{
  Reviews, none_yet, then_one, reviewed, IsDecided, EscalatedAt, ledger_stays-IsDecided,
  escalated_is_final, review_needs_ownership,
}
use eduvijna_paper_evaluatio.Grading.Pools.{get_pool}
use eduvijna_paper_evaluatio.Grading.Pools.Allocation.{allocate_work}
use eduvijna_paper_evaluatio.Grading.Pools.Allocation.Outcome.{
  Allocated, later, allocate_work-Allocated, allocate_work_twice,
}

abbrev evidence : Evidence
evidence = record {
  student_id = some 60;
  assessment_id = 20;
  assessment_version_id = 21;
  question_id = 30;
  rubric_version_id = 40;
  answer_key_version_id = 41;
  mapping_id = none;
  answer_region_ids = [];
  transcription_refs = [];
  evidence_metadata = "{}";
  first_divergence_step = none;
  ecf_applied = false;
  ecf_chain = "{}";
  alternative_method_id = none;
  alternative_method_label = none;
  deduction_reasons = [];
  criterion_snapshot = [];
  identity_confidence = none;
  mapping_confidence = none;
  transcription_confidence = none;
  evaluation_confidence = some (pos 9000);
  math_verification_confidence = none;
  ai_execution_record_id = none;
}

-- A question of two marks, proposed at one and a half.
abbrev pub question : ℕ → ℕ → QeState → QuestionEvaluation
question id question_version_id state = record {
  id = id;
  tenant_id = 1;
  evaluation_run_id = 10;
  submission_id = 50;
  question_version_id = question_version_id;
  evidence = evidence;
  max_mark = pos 20_000;
  proposed_ai_score = some (pos 15_000);
  final_human_approved_score = none;
  error_codes = [];
  workflow_state = state;
  ledger_version = 1;
  supersedes_ledger_id = none;
  reviewed_by = none;
  reviewed_at = none;
  reviewer_feedback = none;
  approved_snapshot_hash = none;
}

abbrev pub criterion : ℕ → ℤ → CriterionEvaluation
criterion id proposed = record {
  id = id;
  tenant_id = 1;
  question_evaluation_id = 100;
  rubric_criterion_id = id;
  criterion_code = "M";
  criterion_label = "Method";
  max_marks = pos 10_000;
  proposed_marks = some proposed;
  final_marks = none;
  decision = "PARTIAL";
  error_code = none;
  deduction_reason = none;
}

abbrev pub script_run : EvaluationRun
script_run = record {
  id = 10;
  tenant_id = 1;
  submission_id = 50;
  assessment_id = 20;
  assessment_version_id = 21;
  run_number = 1;
  run_kind = RunKind.initial;
  supersedes_run_id = none;
  grievance_case_id = none;
  status = RunStatus.review_required;
  provider = "test";
  model = none;
  rules_engine_version = none;
  started_by = none;
  started_at = none;
  finished_at = none;
}

abbrev pub pool : GradingPool
pool = record {
  id = 70;
  tenant_id = 1;
  assessment_id = 20;
  assessment_version_id = 21;
  status = PoolStatus.active;
  allocation_strategy = AllocationStrategy.round_robin;
  created_by = none;
  activated_by = none;
  activated_at = none;
  closed_by = none;
  closed_at = none;
}

abbrev member : ℕ → ℕ → GradingPoolMember
member id user_id = record {
  id = id;
  tenant_id = 1;
  pool_id = 70;
  user_id = user_id;
  is_active = true;
  capacity = none;
}

abbrev pub work_item : WorkStatus → GradingWorkItem
work_item status = record {
  id = 80;
  tenant_id = 1;
  pool_id = 70;
  submission_id = 50;
  evaluation_run_id = 10;
  question_evaluation_id = 100;
  assigned_evaluator_id = 5;
  status = status;
  assigned_by = none;
  assigned_at = none;
  started_at = none;
  submitted_at = none;
}

abbrev pub desk : Store
desk = record {
  questions = [];
  submissions =
      record {
        id = 50;
        tenant_id = 1;
        student_id = some 60;
        assessment_id = 20;
        assessment_version_id = 21;
        workflow_state = SubmissionState.evaluation_review;
      }
      ∷ [];
  runs = script_run ∷ [];
  question_evaluations =
      question 101 32 QeState.escalated ∷ question 100 31 QeState.review_required ∷ [];
  criteria = criterion 200 (pos 10_000) ∷ criterion 201 (pos 5_000) ∷ [];
  review_actions = [];
  users = [];
  user_roles = [];
  pools = pool ∷ [];
  members = member 72 6 ∷ member 71 5 ∷ [];
  work_items = work_item WorkStatus.in_progress ∷ [];
  policies = [];
  stages = [];
  cases = [];
  moderation_actions = [];
  grievances = [];
  published_results = [];
  audit_events = [];
}

abbrev pub by_user : ℕ → Request
by_user user_id = record {
  tenant_id = 1;
  user_id = user_id;
  roles = "EVALUATOR" ∷ [];
  permissions = "evaluation:review" ∷ [];
  now = 1000;
  uuid4 = λ n. 500 + n;
  snapshot_hash = λ snapshot criteria. "0f";
}

abbrev fairer : Override
fairer = record {
  score = pos 12_345;
  reason = " Units are missing ";
  feedback = none;
  criterion_finals = [];
  valid_alternative = false;
}

strip_test : strip " \tok now  " ≡ "ok now"
unfolding strip
strip_test = refl

-- One third of the score is 4115: the last criterion takes what is left.
settle_test :
    settle (pos 12_345) [] desk.criteria
    ≡ ok (
        record (criterion 200 (pos 10_000)) { final_marks = some (pos 8_230) }
        ∷ record (criterion 201 (pos 5_000)) { final_marks = some (pos 4_115) }
        ∷ [])
unfolding settle
settle_test = refl

-- An override to 1.9 of 2 gives the first of two equal criteria its share, 0.95; the split does
-- not see that a last criterion of at most 0.5 then has more than its maximum.
over_max_test :
    settle (pos 19_000) [] (
      criterion 200 (pos 5_000) ∷ record (criterion 201 (pos 5_000)) { max_marks = pos 5_000 } ∷ [])
    ≡ ok (
        record (criterion 200 (pos 5_000)) { final_marks = some (pos 9_500) }
        ∷ record (criterion 201 (pos 5_000)) {
          max_marks = pos 5_000;
          final_marks = some (pos 9_500);
        }
        ∷ [])
unfolding settle
over_max_test = refl

abbrev pub returned : {A : Type 0} → A → Result Code A → A
returned default (ok a) = a
returned default (err e) = default

abbrev override_it : Result Code Store
override_it = review desk (by_user 5) 100 (Review.override fairer)

override_ok : override_it ≡ ok (returned desk override_it)
unfolding review assert_question_evaluation_review_allowed
override_ok = refl

settle-Settles_example : Settles (pos 12_345) [] desk.criteria (
    record (criterion 200 (pos 10_000)) { final_marks = some (pos 8_230) }
    ∷ record (criterion 201 (pos 5_000)) { final_marks = some (pos 4_115) }
    ∷ [])
settle-Settles_example = settle-Settles (pos 12_345) [] desk.criteria _ settle_test

review-Recorded_example :
    (qe : QuestionEvaluation) × (load_qe desk (by_user 5) 100 ≡ some qe)
    × Recorded desk (by_user 5) (Review.override fairer) qe (returned desk override_it)
review-Recorded_example =
    review-Recorded desk (by_user 5) 100 (Review.override fairer) (returned desk override_it)
      override_ok

after_override : Reviews desk (returned desk override_it)
after_override = then_one none_yet (reviewed (by_user 5) 100 (Review.override fairer) override_ok)

ledger_stays-IsDecided_example : All IsDecided (returned desk override_it).question_evaluations
ledger_stays-IsDecided_example = ledger_stays-IsDecided after_override (tt, (refl, tt))

escalated_is_final_example : All (EscalatedAt 101) (returned desk override_it).question_evaluations
escalated_is_final_example =
    escalated_is_final 101 after_override ((λ e. refl), ((λ e. absurd (omega (arith, e))), tt))

load_100 : load_qe desk (by_user 6) 100 ≡ some (question 100 31 QeState.review_required)
unfolding load_qe
load_100 = refl

governed_100 :
    FirstOf (IsGoverning (by_user 6) 100) (work_item WorkStatus.in_progress) desk.work_items
governed_100 = found refl (record { tenant = refl; evaluation = refl; uncompleted = λ e. cc })

unpermitted : ¬ Any (λ (p : String). p ≡ "grading:manage") ("evaluation:review" ∷ [])
unpermitted (here e) = cc
unpermitted (there m) = elim m [ ]

review_needs_ownership_example :
    review desk (by_user 6) 100 Review.accept ≡ err grading_assignment_forbidden
review_needs_ownership_example =
    review_needs_ownership desk (by_user 6) 100 Review.accept load_100 governed_100 (omega arith)
      (λ (g : IsGovernance (by_user 6)). unpermitted g.permission)

abbrev allocate_it : Result Code (Store × List GradingWorkItem)
allocate_it = allocate_work (record desk { work_items = [] }) (by_user 9) 70 10

abbrev allocated : Store × List GradingWorkItem
allocated = returned (desk, []) allocate_it

allocate_ok : allocate_it ≡ ok allocated
unfolding allocate_work
allocate_ok = refl

-- The two evaluations, in the order of their identifiers, go to the members in that of theirs.
allocate_test :
    map {B = ℕ × ℕ}
      (λ (i : GradingWorkItem). (i.question_evaluation_id, i.assigned_evaluator_id))
      allocated.1
    ≡ (100, 5) ∷ (101, 6) ∷ []
unfolding allocate_work
allocate_test = refl

allocate_work-Allocated_example :
    Allocated (record desk { work_items = [] }) (by_user 9) 70 10 allocated.0 allocated.1
allocate_work-Allocated_example =
    allocate_work-Allocated (record desk { work_items = [] }) (by_user 9) 70 10 allocated.0
      allocated.1 allocate_ok

pool_found : get_pool (record desk { work_items = [] }) (by_user 9) 70 ≡ ok pool
unfolding get_pool
pool_found = refl

abbrev next_day : Request
next_day = later desk (by_user 9) 8 2000 (λ n. 900 + n)

allocate_again :
    allocate_work allocated.0 next_day 70 10
    ≡ ok (returned (desk, []) (allocate_work allocated.0 next_day 70 10))
unfolding allocate_work
allocate_again = refl

allocate_work_twice_example :
    (returned (desk, []) (allocate_work allocated.0 next_day 70 10)).1 ≡ []
allocate_work_twice_example =
    allocate_work_twice (record desk { work_items = [] }) (by_user 9) 8 2000 (λ n. 900 + n) 70 10
      allocated.0 (returned (desk, []) (allocate_work allocated.0 next_day 70 10)).0 allocated.1 _
      pool_found refl allocate_ok allocate_again
