-- ===== src/Benchmark/Regression.antt =====
-- The loop of `start_regression_run` of benchmark.py, and how it concludes the run.
pub mod Right
pub mod Reproduced
pub mod Started
use eduvijna_paper_evaluatio.Prelude.{
  ℕ, suc, ◌+◌, ◌*◌, not, Option, none, some, List, [], ◌∷◌, String, Result, ok, err, length,
  if◌then◌else◌,
}
use eduvijna_paper_evaluatio.Grading.Store.{Request}
use eduvijna_paper_evaluatio.Benchmark.Tables.{
  RegressionStatus, Verdict, BenchmarkDatasetVersion, BenchmarkCase, Compared, Failure, Aggregate,
  BenchmarkRegressionRun, BenchmarkRegressionCaseResult, AiExecution,
}
use eduvijna_paper_evaluatio.Benchmark.Compare.{compare_case_output}
use eduvijna_paper_evaluatio.Benchmark.Metrics.{aggregate_regression_metrics}
use eduvijna_paper_evaluatio.Benchmark.Registry.{Settings, evaluate_benchmark_candidate}
use eduvijna_paper_evaluatio.Benchmark.Candidates.{BenchmarkCandidateOutput}

-- the body of the route's request
pub record Candidate : Type 0 where
  pub provider : String
  pub model : String
  pub model_version : String
  pub prompt_template_version : String
  pub config : String

-- `_record_isolated_execution`, but for the redacted summaries and the hash of the input
unfoldable pub isolated_execution :
    Request → ℕ → BenchmarkCase → BenchmarkCandidateOutput → AiExecution
isolated_execution req id case output = record {
  id = id;
  tenant_id = req.tenant_id;
  operation = "gold_benchmark_evaluate";
  provider = output.execution_metadata.provider;
  status = if not output.missing_output then "SUCCEEDED" else "FAILED";
  benchmark_case_id = case.id;
  question_evaluation_id = case.question_evaluation_id;
  model = output.execution_metadata.model;
  model_version = output.execution_metadata.model_version;
  prompt_template_version = output.execution_metadata.prompt_template_version;
  error_class = if output.missing_output then some "missing_output" else none;
}

-- what the loop leaves behind: the rows that it wrote, also before an exception, and the exception
pub record Evaluated : Type 0 where
  pub results : List BenchmarkRegressionCaseResult
  pub executions : List AiExecution
  pub compared : List Compared
  pub failure : Option Failure

unfoldable pub compare_output : ℕ → BenchmarkCase → BenchmarkCandidateOutput → Compared
unfolding compare_case_output
compare_output score_tolerance case output =
    compare_case_output case.expected_final_marks case.expected_max_marks case.expected_error_codes
      output.marks output.error_codes output.missing_output score_tolerance

-- the rows of a case, before those of the later cases
unfoldable pub add_evaluated :
    Request
    → (run_id index score_tolerance : ℕ) → BenchmarkCase
    → BenchmarkCandidateOutput
    → Evaluated
    → Evaluated
unfolding isolated_execution compare_output
add_evaluated req run_id index score_tolerance case output later =
    let c = compare_output score_tolerance case output in
    let execution_id = req.uuid4 (2 * index + 2) in
    record {
      results =
          record {
            id = req.uuid4 (2 * index + 1);
            tenant_id = req.tenant_id;
            regression_run_id = run_id;
            benchmark_case_id = case.id;
            compared = c;
            ai_execution_record_id = some execution_id;
          }
          ∷ later.results;
      executions = isolated_execution req execution_id case output ∷ later.executions;
      compared = c ∷ later.compared;
      failure = later.failure;
    }

-- an exception ends the loop
unfoldable pub join_evaluated :
    Request
    → (run_id index score_tolerance : ℕ) → BenchmarkCase
    → Result Failure BenchmarkCandidateOutput
    → Evaluated
    → Evaluated
unfolding add_evaluated
join_evaluated req run_id index score_tolerance case (err f) later = record {
  results = [];
  executions = [];
  compared = [];
  failure = some f;
}
join_evaluated req run_id index score_tolerance case (ok output) later =
    add_evaluated req run_id index score_tolerance case output later

module _ (settings : Settings) where
  unfoldable pub evaluate_case : Candidate → BenchmarkCase → Result Failure BenchmarkCandidateOutput
  unfolding evaluate_benchmark_candidate
  evaluate_case candidate case =
      evaluate_benchmark_candidate settings candidate.provider candidate.model case.replay_fixture
        case.expected_error_codes

  -- `for case in cases`
  unfoldable pub evaluate_cases :
      Request → Candidate → (run_id score_tolerance index : ℕ) → List BenchmarkCase → Evaluated
  unfolding evaluate_case join_evaluated
  evaluate_cases req candidate run_id score_tolerance index [] = record {
    results = [];
    executions = [];
    compared = [];
    failure = none;
  }
  evaluate_cases req candidate run_id score_tolerance index (case ∷ cases) =
      join_evaluated req run_id index score_tolerance case (evaluate_case candidate case)
        (evaluate_cases req candidate run_id score_tolerance (suc index) cases)

-- the row as it is first written
unfoldable pub new_run :
    Request → BenchmarkDatasetVersion → Candidate → Option String → BenchmarkRegressionRun
new_run req version candidate idempotency_key = record {
  id = req.uuid4 0;
  tenant_id = req.tenant_id;
  dataset_version_id = version.id;
  status = RegressionStatus.running;
  verdict = Verdict.pending;
  idempotency_key = idempotency_key;
  candidate_provider = candidate.provider;
  candidate_model = candidate.model;
  candidate_model_version = candidate.model_version;
  candidate_prompt_template_version = candidate.prompt_template_version;
  candidate_config = candidate.config;
  threshold_snapshot = version.threshold_profile_snapshot;
  aggregate_metrics = Aggregate.empty;
  initiated_by = some req.user_id;
  started_at = some req.now;
  finished_at = none;
  failure = none;
}

-- the run at the end of the `try`, or of a handler
unfoldable pub conclude_run :
    Request → BenchmarkRegressionRun → List Compared → Option Failure → BenchmarkRegressionRun
unfolding aggregate_regression_metrics
conclude_run req run compared none =
    let m = aggregate_regression_metrics run.threshold_snapshot compared in
    record run {
      aggregate_metrics = Aggregate.metrics m;
      verdict = m.verdict;
      status = if m.passed then RegressionStatus.passed else RegressionStatus.failed;
      finished_at = some req.now;
    }
conclude_run req run compared (some f) = record run {
  status = RegressionStatus.error;
  verdict = Verdict.fail;
  failure = some f;
  finished_at = some req.now;
  aggregate_metrics = Aggregate.failed (length compared) f;
}
