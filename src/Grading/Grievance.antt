-- ===== src/Grading/Grievance.antt =====
-- The grievances of enterprise_ops.py, and the re-evaluation that an accepted one starts.
pub mod Reevaluation
pub mod Duplicates
use eduvijna_paper_evaluatio.Prelude.{
  ℕ, ◌+◌, suc, Bool, true, false, not, Option, none, some, List, [], ◌∷◌, ◌++◌, String, Result, ok,
  err, guard, require, ◌>>=◌, ◌>>◌, ◌==◌, ◌&&◌, ltb, first, update, select, strip, if◌then◌else◌,
}
use eduvijna_paper_evaluatio.Grading.Ledger.{
  QeState, RunStatus, RunKind, SubmissionState, EvaluationRun, QuestionEvaluation, Submission,
}
use eduvijna_paper_evaluatio.Grading.Work.{GrievanceStatus, GrievanceCase}
use eduvijna_paper_evaluatio.Grading.Published.{PublishedStatus, PublishedResult}
use eduvijna_paper_evaluatio.Grading.Store.{
  Store, Request, Code, Payload, audit, not_found, not_eligible, duplicate_grievance,
  invalid_grievance_state,
}
use eduvijna_paper_evaluatio.Grading.Pools.Allocation.{load_run, evaluations_of}
use eduvijna_paper_evaluatio.Grading.Moderation.Decide.{load_submission, save_submission, save_run}

unfoldable pub is_published : PublishedStatus → Bool
is_published PublishedStatus.published = true
is_published _ = false

-- `ACTIVE_GRIEVANCE_STATUSES`
unfoldable pub is_active_grievance : GrievanceStatus → Bool
is_active_grievance GrievanceStatus.rejected = false
is_active_grievance GrievanceStatus.closed = false
is_active_grievance _ = true

-- `{"SUBMITTED", "UNDER_REVIEW"}`
unfoldable pub is_undecided : GrievanceStatus → Bool
is_undecided GrievanceStatus.submitted = true
is_undecided GrievanceStatus.under_review = true
is_undecided _ = false

unfoldable pub load_published : Store → Request → ℕ → Option PublishedResult
unfolding first
load_published db req id =
    first (λ p. p.id == id && p.tenant_id == req.tenant_id) db.published_results

-- the query for a duplicate
unfoldable pub active_grievance : Store → Request → ℕ → Option GrievanceCase
unfolding first is_active_grievance
active_grievance db req published_id =
    first
      (λ g.
        g.tenant_id == req.tenant_id
        && (g.original_published_result_id == published_id && is_active_grievance g.status))
      db.grievances

-- `if dup is not None: raise`
unfoldable pub no_duplicate : Option GrievanceCase → Result Code Unit
no_duplicate none = ok tt
no_duplicate (some dup) = err duplicate_grievance

unfoldable pub new_grievance : Request → PublishedResult → String → String → GrievanceCase
unfolding strip
new_grievance req published requester_reference reason = record {
  id = req.uuid4 0;
  tenant_id = req.tenant_id;
  submission_id = published.submission_id;
  original_published_result_id = published.id;
  original_evaluation_run_id = published.evaluation_run_id;
  requester_reference = strip requester_reference;
  submitted_by = req.user_id;
  reason = strip reason;
  status = GrievanceStatus.submitted;
  decision_by = none;
  decision_at = none;
  decision_reason = none;
  reevaluation_run_id = none;
  revised_published_result_id = none;
}

unfoldable pub create_grievance :
    Store
    → Request
    → (published_result_id : ℕ) → (requester_reference reason : String)
    → Result Code (Store × GrievanceCase)
unfolding load_published is_published active_grievance no_duplicate new_grievance audit
create_grievance db req published_result_id requester_reference reason = do
  published ← require (load_published db req published_result_id) not_eligible
  guard (is_published published.status) not_eligible
  no_duplicate (active_grievance db req published.id)
  let case = new_grievance req published requester_reference reason
  ok (
    audit req "GrievanceCase" case.id "grievance_created" (Payload.grievance case)
        (record db { grievances = db.grievances ++ case ∷ [] }),
    case,
  )

unfoldable pub get_grievance : Store → Request → ℕ → Result Code GrievanceCase
unfolding first
get_grievance db req id =
    require (first (λ g. g.id == id && g.tenant_id == req.tenant_id) db.grievances) not_found

unfoldable pub save_grievance : GrievanceCase → Store → Store
unfolding update
save_grievance case db = record db {
  grievances = update (λ g. g.id == case.id) (λ g. case) db.grievances;
}

-- `func.max(EvaluationRun.run_number)`, 0 where there is no run
unfoldable pub max_number : List EvaluationRun → ℕ
max_number [] = 0
max_number (r ∷ rs) =
    let rest = max_number rs in if ltb rest r.run_number then r.run_number else rest

unfoldable pub runs_of : Store → Request → ℕ → List EvaluationRun
unfolding select
runs_of db req submission_id =
    select (λ r. r.tenant_id == req.tenant_id && r.submission_id == submission_id) db.runs

unfoldable pub new_run : Store → Request → GrievanceCase → EvaluationRun → EvaluationRun
unfolding max_number runs_of
new_run db req case original = record {
  id = req.uuid4 0;
  tenant_id = req.tenant_id;
  submission_id = case.submission_id;
  assessment_id = original.assessment_id;
  assessment_version_id = original.assessment_version_id;
  run_number = suc (max_number (runs_of db req case.submission_id));
  run_kind = RunKind.re_evaluation;
  supersedes_run_id = some original.id;
  grievance_case_id = some case.id;
  status = RunStatus.review_required;
  provider = original.provider;
  model = original.model;
  rules_engine_version = original.rules_engine_version;
  started_by = some req.user_id;
  started_at = some req.now;
  finished_at = none;
}

-- the body of `for src in originals`
unfoldable pub copy_of : Request → ℕ → ℕ → QuestionEvaluation → QuestionEvaluation
copy_of req new_run_id index src = record {
  id = req.uuid4 index;
  tenant_id = req.tenant_id;
  evaluation_run_id = new_run_id;
  submission_id = src.submission_id;
  question_version_id = src.question_version_id;
  evidence = src.evidence;
  max_mark = src.max_mark;
  proposed_ai_score = src.proposed_ai_score;
  final_human_approved_score = none;
  error_codes = src.error_codes;
  workflow_state = QeState.review_required;
  ledger_version = 1;
  supersedes_ledger_id = some src.id;
  reviewed_by = none;
  reviewed_at = none;
  reviewer_feedback = none;
  approved_snapshot_hash = none;
}

unfoldable pub copies : Request → ℕ → ℕ → List QuestionEvaluation → List QuestionEvaluation
unfolding copy_of
copies req new_run_id index [] = []
copies req new_run_id index (src ∷ rest) =
    copy_of req new_run_id index src ∷ copies req new_run_id (suc index) rest

-- `if submission is not None`
unfoldable pub reopen_submission : Option Submission → Store → Store
unfolding save_submission
reopen_submission none db = db
reopen_submission (some s) db =
    save_submission (record s { workflow_state = SubmissionState.evaluation_review }) db

unfoldable pub accepted_case :
    Store → Request → GrievanceCase → EvaluationRun → Option String → GrievanceCase
unfolding new_run
accepted_case db req case original decision_reason = record case {
  status = GrievanceStatus.re_evaluating;
  decision_by = some req.user_id;
  decision_at = some req.now;
  decision_reason = decision_reason;
  reevaluation_run_id = some (new_run db req case original).id;
}

-- the new run with its evaluations, and the original run superseded
unfoldable pub with_reevaluation : Store → Request → GrievanceCase → EvaluationRun → Store
unfolding new_run copies evaluations_of update
with_reevaluation db req case original = record db {
  runs =
      update (λ r. r.id == original.id) (λ r. record original { status = RunStatus.superseded })
        db.runs
      ++ new_run db req case original ∷ [];
  question_evaluations =
      db.question_evaluations
      ++ copies req (new_run db req case original).id 1 (evaluations_of db req original.id);
}

-- what an acceptance writes
unfoldable pub begin_reevaluation :
    Store → Request → GrievanceCase → EvaluationRun → Option String → Store
unfolding new_run accepted_case with_reevaluation save_grievance reopen_submission load_submission
    audit
begin_reevaluation db req case original decision_reason =
    audit req "GrievanceCase" case.id "grievance_accepted_reevaluation_created"
      (Payload.reevaluation (new_run db req case original).id
        (new_run db req case original).run_number original.id)
      (reopen_submission (load_submission db req case.submission_id) (
        save_grievance (accepted_case db req case original decision_reason)
          (with_reevaluation db req case original)))

unfoldable pub accept_grievance :
    Store
    → Request
    → (grievance_id : ℕ) → (decision_reason : Option String) → Result Code (Store × GrievanceCase)
unfolding get_grievance is_undecided load_run begin_reevaluation accepted_case
accept_grievance db req grievance_id decision_reason = do
  case ← get_grievance db req grievance_id
  guard (is_undecided case.status) invalid_grievance_state
  original ← require (load_run db req case.original_evaluation_run_id) not_found
  ok (
    begin_reevaluation db req case original decision_reason,
    accepted_case db req case original decision_reason,
  )

unfoldable pub reject_grievance :
    Store
    → Request
    → (grievance_id : ℕ) → (decision_reason : String) → Result Code (Store × GrievanceCase)
unfolding get_grievance is_undecided save_grievance audit
reject_grievance db req grievance_id decision_reason = do
  case ← get_grievance db req grievance_id
  guard (is_undecided case.status) invalid_grievance_state
  let decided = record case {
    status = GrievanceStatus.rejected;
    decision_by = some req.user_id;
    decision_at = some req.now;
    decision_reason = some decision_reason;
  }
  ok (
    audit req "GrievanceCase" case.id "grievance_rejected" (Payload.because (some decision_reason))
        (save_grievance decided db),
    decided,
  )

unfoldable pub published_now : Store → Request → ℕ → Option PublishedResult
unfolding first is_published
published_now db req id =
    first (λ p. p.id == id && (p.tenant_id == req.tenant_id && is_published p.status))
      db.published_results

unfoldable pub resolve_grievance :
    Store
    → Request
    → (grievance_id revised_published_result_id : ℕ) → Result Code (Store × GrievanceCase)
unfolding get_grievance published_now save_grievance audit
resolve_grievance db req grievance_id revised_published_result_id = do
  case ← get_grievance db req grievance_id
  published ← require (published_now db req revised_published_result_id) not_found
  let resolved = record case {
    status = GrievanceStatus.resolved;
    revised_published_result_id = some published.id;
  }
  ok (
    audit req "GrievanceCase" case.id "grievance_resolved" (Payload.resolution published.id)
        (save_grievance resolved db),
    resolved,
  )
