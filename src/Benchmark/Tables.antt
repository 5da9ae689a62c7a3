-- ===== src/Benchmark/Tables.antt =====
-- The tables of db/models/benchmark.py, the errors of benchmark.py, and what it takes from outside.
-- A rate is a fraction, and a threshold is a number of millionths. Marks are ten-thousandths.
use eduvijna_paper_evaluatio.Prelude.{ℕ, Bool, Option, List, String}
use eduvijna_paper_evaluatio.Prelude.Int.{ℤ}
use eduvijna_paper_evaluatio.Grading.Store.{Store}

-- the codes of `BenchmarkError`, those of `BenchmarkCandidateError` among them
pub data BenchmarkCode : Type 0 where
  not_found dataset_code_conflict version_locked case_ineligible version_empty version_not_locked
        idempotency_conflict candidate_unconfigured candidate_unsupported
        candidate_identity_mismatch replay_invalid :
      BenchmarkCode

pub data VersionStatus : Type 0 where
  draft locked : VersionStatus

pub data RegressionStatus : Type 0 where
  queued running passed failed error : RegressionStatus

pub data Verdict : Type 0 where
  pass fail pending : Verdict

-- `BenchmarkThresholdProfileIn`, which the route demands of a profile
pub record Thresholds : Type 0 where
  pub profile_code : String
  pub algorithm_version : String
  pub max_missing_output_rate : ℕ
  pub max_mean_abs_score_error : ℕ
  pub min_exact_score_agreement_rate : ℕ
  pub min_taxonomy_agreement_rate : ℕ
  pub max_safety_invariant_failure_rate : ℕ
  pub score_tolerance : ℕ

pub record BenchmarkDataset : Type 0 where
  pub id : ℕ
  pub tenant_id : ℕ
  pub code : String
  pub title : String
  pub description : Option String
  pub created_by : Option ℕ

pub record BenchmarkDatasetVersion : Type 0 where
  pub id : ℕ
  pub tenant_id : ℕ
  pub dataset_id : ℕ
  pub version_number : ℕ
  pub status : VersionStatus
  pub threshold_profile_snapshot : Thresholds
  pub case_count : ℕ
  pub content_hash : Option String
  pub locked_by : Option ℕ
  pub locked_at : Option ℕ
  pub created_by : Option ℕ

-- `replay_fixture`; the entries that are read out of the evidence's metadata stay together
pub record ReplayFixture : Type 0 where
  pub question_version_id : ℕ
  pub assessment_version_id : ℕ
  pub rubric_version_id : ℕ
  pub criterion_snapshot : List String
  pub transcription_text : String
  pub blank_flag : Bool
  pub unreadable_flag : Bool
  pub expected_final_marks : ℤ
  pub expected_max_marks : ℤ
  pub expected_error_codes : List String
  pub max_mark : ℤ
  pub evidence_metadata : String

pub record BenchmarkCase : Type 0 where
  pub id : ℕ
  pub tenant_id : ℕ
  pub dataset_version_id : ℕ
  pub published_result_id : ℕ
  pub evaluation_run_id : ℕ
  pub question_evaluation_id : ℕ
  pub question_version_id : ℕ
  pub rubric_version_id : ℕ
  pub assessment_version_id : ℕ
  pub expected_final_marks : ℤ
  pub expected_max_marks : ℤ
  pub expected_error_codes : List String
  pub source_ledger_hash : String
  pub evidence_hash : String
  pub adjudicated_by : Option ℕ
  pub adjudicated_at : ℕ
  pub replay_fixture : ReplayFixture

-- what `compare_case_output` returns, but for `diff`, which lists the same values as texts
pub record Compared : Type 0 where
  pub missing_output : Bool
  pub actual_marks : Option ℤ
  pub actual_error_codes : List String
  pub score_abs_error : Option ℕ
  pub exact_score_match : Bool
  pub taxonomy_match : Option Bool
  pub safety_invariant_failed : Bool

pub record Rate : Type 0 where
  pub part : ℕ
  pub whole : ℕ

pub record Measured : Type 0 where
  pub case_count : ℕ
  pub missing_count : ℕ
  pub missing_output_rate : Rate
  pub mean_abs_score_error : Rate
  pub exact_score_agreement_rate : Rate
  pub taxonomy_agreement_rate : Rate
  pub safety_invariant_failure_rate : Rate
  pub exact_match_count : ℕ
  pub taxonomy_match_count : ℕ
  pub taxonomy_applicable_count : ℕ
  pub safety_fail_count : ℕ

-- `threshold_comparisons`
pub data Comparisons : Type 0 where
  empty_run_safety_fail : Comparisons
  compared : (missing error exact taxonomy safety : Bool) → Comparisons

pub record Metrics : Type 0 where
  pub measured : Measured
  pub verdict : Verdict
  pub passed : Bool
  pub threshold_comparisons : Comparisons

-- the ways in which the loop over the cases is left by an exception
pub data Failure : Type 0 where
  benchmark_error : BenchmarkCode → Failure
  other_exception : (message : String) → Failure

-- `aggregate_metrics`
pub data Aggregate : Type 0 where
  empty : Aggregate
  metrics : Metrics → Aggregate
  failed : (case_count : ℕ) → Failure → Aggregate

pub record BenchmarkRegressionRun : Type 0 where
  pub id : ℕ
  pub tenant_id : ℕ
  pub dataset_version_id : ℕ
  pub status : RegressionStatus
  pub verdict : Verdict
  pub idempotency_key : Option String
  pub candidate_provider : String
  pub candidate_model : String
  pub candidate_model_version : String
  pub candidate_prompt_template_version : String
  pub candidate_config : String
  pub threshold_snapshot : Thresholds
  pub aggregate_metrics : Aggregate
  pub initiated_by : Option ℕ
  pub started_at : Option ℕ
  pub finished_at : Option ℕ
  pub failure : Option Failure

pub record BenchmarkRegressionCaseResult : Type 0 where
  pub id : ℕ
  pub tenant_id : ℕ
  pub regression_run_id : ℕ
  pub benchmark_case_id : ℕ
  pub compared : Compared
  pub ai_execution_record_id : Option ℕ

-- the columns of `ai_execution_records` that `_record_isolated_execution` fills
pub record AiExecution : Type 0 where
  pub id : ℕ
  pub tenant_id : ℕ
  pub operation : String
  pub provider : String
  pub status : String
  pub benchmark_case_id : ℕ
  pub question_evaluation_id : ℕ
  pub model : String
  pub model_version : String
  pub prompt_template_version : String
  pub error_class : Option String

-- the columns of `answer_region_transcriptions` that are read
pub record Transcription : Type 0 where
  pub id : ℕ
  pub tenant_id : ℕ
  pub text : Option String
  pub unreadable : Bool

-- what the release gate answers, with its run
pub record GateResult : Type 0 where
  pub run : BenchmarkRegressionRun
  pub passed : Bool

pub data BenchmarkPayload : Type 0 where
  dataset : BenchmarkDataset → BenchmarkPayload
  version : BenchmarkDatasetVersion → BenchmarkPayload
  case : BenchmarkCase → BenchmarkPayload
  run : BenchmarkRegressionRun → BenchmarkPayload
  gate : GateResult → BenchmarkPayload

-- the rows of `audit_events` that the benchmark writes
pub record BenchmarkEvent : Type 0 where
  pub tenant_id : ℕ
  pub actor_user_id : ℕ
  pub entity_id : ℕ
  pub action : String
  pub payload : BenchmarkPayload

-- `grading` holds the tables of the grading services.
pub record BenchmarkStore : Type 0 where
  pub grading : Store
  pub transcriptions : List Transcription
  pub datasets : List BenchmarkDataset
  pub versions : List BenchmarkDatasetVersion
  pub cases : List BenchmarkCase
  pub runs : List BenchmarkRegressionRun
  pub case_results : List BenchmarkRegressionCaseResult
  pub executions : List AiExecution
  pub events : List BenchmarkEvent
