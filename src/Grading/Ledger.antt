-- ===== src/Grading/Ledger.antt =====
-- The tables of db/models/evaluation.py. Scores are `Numeric(10, 4)`: integers of ten-thousandths.
-- Identifiers are UUIDs and timestamps are instants, both read as numbers; the JSON columns that
-- no operation below looks into are texts.
use eduvijna_paper_evaluatio.Prelude.{ℕ, Bool, Option, List, String}
use eduvijna_paper_evaluatio.Prelude.Int.{ℤ}

pub data QeState : Type 0 where
  pending proposed review_required accepted overridden escalated : QeState

pub data RunStatus : Type 0 where
  queued running review_required completed failed superseded : RunStatus

pub data RunKind : Type 0 where
  initial re_evaluation : RunKind

pub data SubmissionState : Type 0 where
  uploaded processing identity_review mapping_review ready_for_evaluation evaluating
        evaluation_review moderation_review approved published failed :
      SubmissionState

pub data ActionType : Type 0 where
  accept override edit_feedback valid_alternative escalate : ActionType

pub record EvaluationRun : Type 0 where
  pub id : ℕ
  pub tenant_id : ℕ
  pub submission_id : ℕ
  pub assessment_id : ℕ
  pub assessment_version_id : ℕ
  pub run_number : ℕ
  pub run_kind : RunKind
  pub supersedes_run_id : Option ℕ
  pub grievance_case_id : Option ℕ
  pub status : RunStatus
  pub provider : String
  pub model : Option String
  pub rules_engine_version : Option String
  pub started_by : Option ℕ
  pub started_at : Option ℕ
  pub finished_at : Option ℕ

-- The columns that the AI evaluation fills and that a re-evaluation copies.
pub record Evidence : Type 0 where
  pub student_id : Option ℕ
  pub assessment_id : ℕ
  pub assessment_version_id : ℕ
  pub question_id : ℕ
  pub rubric_version_id : ℕ
  pub answer_key_version_id : ℕ
  pub mapping_id : Option ℕ
  pub answer_region_ids : List String
  pub transcription_refs : List String
  pub evidence_metadata : String
  pub first_divergence_step : Option ℤ
  pub ecf_applied : Bool
  pub ecf_chain : String
  pub alternative_method_id : Option String
  pub alternative_method_label : Option String
  pub deduction_reasons : List String
  pub criterion_snapshot : List String
  pub identity_confidence : Option ℤ
  pub mapping_confidence : Option ℤ
  pub transcription_confidence : Option ℤ
  pub evaluation_confidence : Option ℤ
  pub math_verification_confidence : Option ℤ
  pub ai_execution_record_id : Option ℕ

pub record QuestionEvaluation : Type 0 where
  pub id : ℕ
  pub tenant_id : ℕ
  pub evaluation_run_id : ℕ
  pub submission_id : ℕ
  pub question_version_id : ℕ
  pub evidence : Evidence
  pub max_mark : ℤ
  pub proposed_ai_score : Option ℤ
  pub final_human_approved_score : Option ℤ
  pub error_codes : List String
  pub workflow_state : QeState
  pub ledger_version : ℕ
  pub supersedes_ledger_id : Option ℕ
  pub reviewed_by : Option ℕ
  pub reviewed_at : Option ℕ
  pub reviewer_feedback : Option String
  pub approved_snapshot_hash : Option String

-- the columns of `criterion_evaluations` that the review reads, writes or hashes
pub record CriterionEvaluation : Type 0 where
  pub id : ℕ
  pub tenant_id : ℕ
  pub question_evaluation_id : ℕ
  pub rubric_criterion_id : ℕ
  pub criterion_code : String
  pub criterion_label : String
  pub max_marks : ℤ
  pub proposed_marks : Option ℤ
  pub final_marks : Option ℤ
  pub decision : String
  pub error_code : Option String
  pub deduction_reason : Option String

-- `_qe_before_snapshot`
pub record Snapshot : Type 0 where
  pub workflow_state : QeState
  pub proposed_ai_score : Option ℤ
  pub final_human_approved_score : Option ℤ
  pub reviewer_feedback : Option String
  pub error_codes : List String
  pub ledger_version : ℕ

unfoldable pub qe_before_snapshot : QuestionEvaluation → Snapshot
qe_before_snapshot qe = record {
  workflow_state = qe.workflow_state;
  proposed_ai_score = qe.proposed_ai_score;
  final_human_approved_score = qe.final_human_approved_score;
  reviewer_feedback = qe.reviewer_feedback;
  error_codes = qe.error_codes;
  ledger_version = qe.ledger_version;
}

pub record ReviewAction : Type 0 where
  pub tenant_id : ℕ
  pub submission_id : ℕ
  pub question_evaluation_id : ℕ
  pub evaluation_run_id : ℕ
  pub actor_user_id : ℕ
  pub action_type : ActionType
  pub reason : Option String
  pub before_snapshot : Snapshot
  pub after_snapshot : Snapshot
  pub previous_score : Option ℤ
  pub new_score : Option ℤ

pub record Submission : Type 0 where
  pub id : ℕ
  pub tenant_id : ℕ
  pub student_id : Option ℕ
  pub assessment_id : ℕ
  pub assessment_version_id : ℕ
  pub workflow_state : SubmissionState

-- `workflow_state in {"ACCEPTED", "OVERRIDDEN"}`
unfoldable pub is_reviewed : QeState → Bool
is_reviewed QeState.accepted = Bool.true
is_reviewed QeState.overridden = Bool.true
is_reviewed _ = Bool.false
