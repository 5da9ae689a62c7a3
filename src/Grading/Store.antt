-- ===== src/Grading/Store.antt =====
-- The database that the grading services share, the request they serve, and their errors. A table
-- is the list of its rows in the order in which the database returns them, and new rows come last.
-- An operation that raises leaves the database as it was: the routes commit only what returned.
use eduvijna_paper_evaluatio.Prelude.{ℕ, Option, some, List, [], ◌∷◌, ◌++◌, String}
use eduvijna_paper_evaluatio.Assessment.Marks.{QuestionVersion}
use eduvijna_paper_evaluatio.Grading.Ledger.{
  EvaluationRun, QuestionEvaluation, CriterionEvaluation, Snapshot, ReviewAction, Submission,
  SubmissionState,
}
use eduvijna_paper_evaluatio.Grading.Published.{PublishedResult}
use eduvijna_paper_evaluatio.Grading.Work.{
  GradingPool, GradingPoolMember, GradingWorkItem, ModerationPolicy, ModerationStage,
  ModerationCase, ModerationAction, GrievanceCase,
}

-- the codes of `GradingAccessError`, `EvaluationError` and `EnterpriseOpsError`
pub data Code : Type 0 where
  grading_assignment_forbidden not_found no_proposal already_reviewed escalated reason_required
        score_out_of_range foreign_criterion criterion_over_max criterion_total_mismatch
        feedback_required invalid_workflow_state run_not_found ledger_incomplete escalated_pending
        review_incomplete moderation_policy_empty pool_closed invalid_member_role invalid_pool_state
        pool_empty pool_not_active assessment_mismatch not_member already_assigned forbidden
        invalid_work_state invalid_stage_role invalid_policy_state policy_active_exists
        invalid_case_state stage_missing forbidden_role separation_of_duties not_eligible
        duplicate_grievance invalid_grievance_state invalid_allocation invalid_decision :
      Code

-- the columns of `users` and `user_roles` (joined with `roles`) that are read
pub record User : Type 0 where
  pub id : ℕ
  pub tenant_id : ℕ

pub record UserRole : Type 0 where
  pub tenant_id : ℕ
  pub user_id : ℕ
  pub code : String

-- the `after` of an audit event, by its shape
pub data Payload : Type 0 where
  pool : GradingPool → Payload
  member : (pool_id user_id : ℕ) → Option ℕ → Payload
  allocated : (created_count evaluation_run_id : ℕ) → Payload
  work : GradingWorkItem → Payload
  policy : ModerationPolicy → Payload
  case : ModerationCase → Payload
  because : Option String → Payload
  stage : (next_stage_order : ℕ) → Payload
  grievance : GrievanceCase → Payload
  reevaluation : (reevaluation_run_id run_number supersedes_run_id : ℕ) → Payload
  resolution : (revised_published_result_id : ℕ) → Payload
  workflow : SubmissionState → (evaluation_run_id : ℕ) → Option ℕ → Payload
  publication : (submission_id version_number : ℕ) → (ledger_snapshot_hash : String) → Payload
  regeneration : (supersedes_result_id version_number : ℕ) → Payload
  supersession : (superseded_by : ℕ) → Payload
  published : (submission_id : ℕ) → (ledger_snapshot_hash : String) → Payload
  analytics : (pipeline_job_id : ℕ) → Payload

pub record AuditEvent : Type 0 where
  pub tenant_id : ℕ
  pub actor_user_id : Option ℕ
  pub entity_type : String
  pub entity_id : ℕ
  pub action : String
  pub after : Payload

pub record Store : Type 0 where
  pub questions : List QuestionVersion
  pub submissions : List Submission
  pub runs : List EvaluationRun
  pub question_evaluations : List QuestionEvaluation
  pub criteria : List CriterionEvaluation
  pub review_actions : List ReviewAction
  pub users : List User
  pub user_roles : List UserRole
  pub pools : List GradingPool
  pub members : List GradingPoolMember
  pub work_items : List GradingWorkItem
  pub policies : List ModerationPolicy
  pub stages : List ModerationStage
  pub cases : List ModerationCase
  pub moderation_actions : List ModerationAction
  pub grievances : List GrievanceCase
  pub published_results : List PublishedResult
  pub audit_events : List AuditEvent

-- Who asks, when, and what the services take from outside: `uuid.uuid4`, by the position of the
-- call in the request, and `_snapshot_hash`, a SHA-256 of the snapshot and of the criterion
-- decisions that an acceptance adds to it.
pub record Request : Type 0 where
  pub tenant_id : ℕ
  pub user_id : ℕ
  pub roles : List String
  pub permissions : List String
  pub now : ℕ
  pub uuid4 : ℕ → ℕ
  pub snapshot_hash : Snapshot → Option (List CriterionEvaluation) → String

-- `add_audit_event`
unfoldable pub add_audit_event : Request → Option ℕ → String → ℕ → String → Payload → Store → Store
add_audit_event req actor entity_type entity_id action after db = record db {
  audit_events =
      db.audit_events
      ++ record {
        tenant_id = req.tenant_id;
        actor_user_id = actor;
        entity_type = entity_type;
        entity_id = entity_id;
        action = action;
        after = after;
      }
        ∷ [];
}

-- an event of the caller
unfoldable pub audit : Request → String → ℕ → String → Payload → Store → Store
unfolding add_audit_event
audit req entity_type entity_id action after db =
    add_audit_event req (some req.user_id) entity_type entity_id action after db
