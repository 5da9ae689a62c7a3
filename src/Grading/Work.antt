-- ===== src/Grading/Work.antt =====
-- The tables of db/models/enterprise_ops.py.
use eduvijna_paper_evaluatio.Prelude.{ℕ, Bool, Option, String}

pub data PoolStatus : Type 0 where
  draft active closed : PoolStatus

pub data AllocationStrategy : Type 0 where
  manual round_robin : AllocationStrategy

pub data WorkStatus : Type 0 where
  queued in_progress submitted returned completed : WorkStatus

pub data PolicyStatus : Type 0 where
  draft active retired : PolicyStatus

pub data CaseStatus : Type 0 where
  pending in_progress approved returned rejected : CaseStatus

pub data Decision : Type 0 where
  approve return reject : Decision

pub data GrievanceStatus : Type 0 where
  submitted under_review accepted rejected re_evaluating resolved closed : GrievanceStatus

pub record GradingPool : Type 0 where
  pub id : ℕ
  pub tenant_id : ℕ
  pub assessment_id : ℕ
  pub assessment_version_id : ℕ
  pub status : PoolStatus
  pub allocation_strategy : AllocationStrategy
  pub created_by : Option ℕ
  pub activated_by : Option ℕ
  pub activated_at : Option ℕ
  pub closed_by : Option ℕ
  pub closed_at : Option ℕ

pub record GradingPoolMember : Type 0 where
  pub id : ℕ
  pub tenant_id : ℕ
  pub pool_id : ℕ
  pub user_id : ℕ
  pub is_active : Bool
  pub capacity : Option ℕ

pub record GradingWorkItem : Type 0 where
  pub id : ℕ
  pub tenant_id : ℕ
  pub pool_id : ℕ
  pub submission_id : ℕ
  pub evaluation_run_id : ℕ
  pub question_evaluation_id : ℕ
  pub assigned_evaluator_id : ℕ
  pub status : WorkStatus
  pub assigned_by : Option ℕ
  pub assigned_at : Option ℕ
  pub started_at : Option ℕ
  pub submitted_at : Option ℕ

pub record ModerationPolicy : Type 0 where
  pub id : ℕ
  pub tenant_id : ℕ
  pub assessment_id : ℕ
  pub assessment_version_id : ℕ
  pub status : PolicyStatus
  pub created_by : Option ℕ
  pub activated_by : Option ℕ
  pub activated_at : Option ℕ
  pub retired_by : Option ℕ
  pub retired_at : Option ℕ

pub record ModerationStage : Type 0 where
  pub id : ℕ
  pub tenant_id : ℕ
  pub policy_id : ℕ
  pub stage_order : ℕ
  pub required_role : String
  pub label : String

pub record ModerationCase : Type 0 where
  pub id : ℕ
  pub tenant_id : ℕ
  pub policy_id : ℕ
  pub submission_id : ℕ
  pub evaluation_run_id : ℕ
  pub current_stage_order : ℕ
  pub status : CaseStatus

pub record ModerationAction : Type 0 where
  pub id : ℕ
  pub tenant_id : ℕ
  pub case_id : ℕ
  pub stage_order : ℕ
  pub actor_user_id : ℕ
  pub decision : Decision
  pub reason : Option String

pub record GrievanceCase : Type 0 where
  pub id : ℕ
  pub tenant_id : ℕ
  pub submission_id : ℕ
  pub original_published_result_id : ℕ
  pub original_evaluation_run_id : ℕ
  pub requester_reference : String
  pub submitted_by : ℕ
  pub reason : String
  pub status : GrievanceStatus
  pub decision_by : Option ℕ
  pub decision_at : Option ℕ
  pub decision_reason : Option String
  pub reevaluation_run_id : Option ℕ
  pub revised_published_result_id : Option ℕ
