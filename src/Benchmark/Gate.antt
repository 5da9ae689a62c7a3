-- ===== src/Benchmark/Gate.antt =====
-- `start_regression_run` and `evaluate_release_gate` of benchmark.py.
use eduvijna_paper_evaluatio.Prelude.{
  ℕ, Bool, true, false, ◌&&◌, ◌||◌, ◌==◌, Option, none, some, [], ◌∷◌, ◌++◌, String, Result, ok,
  guard, require, ◌>>=◌, ◌>>◌, str_eq, first, is_empty, if◌then◌else◌,
}
use eduvijna_paper_evaluatio.Grading.Store.{Request}
use eduvijna_paper_evaluatio.Benchmark.Tables.{
  BenchmarkCode, RegressionStatus, Verdict, BenchmarkDatasetVersion, BenchmarkRegressionRun,
  GateResult, BenchmarkPayload, BenchmarkStore,
}
use eduvijna_paper_evaluatio.Benchmark.Registry.{Settings, get_benchmark_candidate_executor}
use eduvijna_paper_evaluatio.Benchmark.Datasets.{
  record_event, find_version, find_run, cases_of, is_locked,
}
use eduvijna_paper_evaluatio.Benchmark.Regression.{
  Candidate, Evaluated, evaluate_cases, new_run, conclude_run,
}

unfoldable pub has_key : String → Option String → Bool
has_key key none = false
has_key key (some k) = str_eq k key

unfoldable pub run_with_key : BenchmarkStore → Request → String → Option BenchmarkRegressionRun
unfolding first has_key
run_with_key db req key =
    first (λ r. r.tenant_id == req.tenant_id && has_key key r.idempotency_key) db.runs

-- `if idempotency_key:`, an empty one is not looked up
unfoldable pub run_to_reuse :
    BenchmarkStore → Request → Option String → Option BenchmarkRegressionRun
unfolding run_with_key is_empty
run_to_reuse db req none = none
run_to_reuse db req (some key) = if is_empty key then none else run_with_key db req key

-- the run that the unique index `uq_benchmark_regression_runs_tenant_idempotency` collides with
unfoldable pub colliding_run :
    BenchmarkStore → Request → Option String → Option BenchmarkRegressionRun
unfolding run_with_key
colliding_run db req none = none
colliding_run db req (some key) = run_with_key db req key

module _ (settings : Settings) where
  unfoldable pub evaluate_version :
      BenchmarkStore → Request → BenchmarkDatasetVersion → Candidate → Evaluated
  unfolding evaluate_cases cases_of
  evaluate_version db req version candidate =
      evaluate_cases settings req candidate (req.uuid4 0)
        version.threshold_profile_snapshot.score_tolerance 0 (cases_of db req version.id)

  unfoldable pub finished_run :
      BenchmarkStore
      → Request
      → BenchmarkDatasetVersion
      → Candidate
      → Option String
      → BenchmarkRegressionRun
  unfolding evaluate_version new_run conclude_run
  finished_run db req version candidate key =
      let evaluated = evaluate_version db req version candidate in
      conclude_run req (new_run req version candidate key) evaluated.compared evaluated.failure

  -- from the audit of the start to that of the end
  unfoldable pub run_regression :
      BenchmarkStore
      → Request
      → BenchmarkDatasetVersion
      → Candidate
      → Option String
      → BenchmarkStore × BenchmarkRegressionRun
  unfolding evaluate_version new_run finished_run record_event
  run_regression db req version candidate key =
      let evaluated = evaluate_version db req version candidate in
      let run = finished_run db req version candidate key in
      let started =
        record_event req run.id "benchmark_regression_started"
          (BenchmarkPayload.run (new_run req version candidate key)) db in
      (
        record_event req run.id "benchmark_regression_completed" (BenchmarkPayload.run run)
            (record started {
              runs = db.runs ++ run ∷ [];
              case_results = db.case_results ++ evaluated.results;
              executions = db.executions ++ evaluated.executions;
            }),
        run,
      )

  -- the flush of the new row, and the handler of `IntegrityError`
  unfoldable pub insert_run :
      BenchmarkStore
      → Request
      → BenchmarkDatasetVersion
      → Candidate
      → Option String
      → Option BenchmarkRegressionRun
      → Result BenchmarkCode (BenchmarkStore × BenchmarkRegressionRun)
  unfolding run_regression run_to_reuse
  insert_run db req version candidate key none = ok (run_regression db req version candidate key)
  insert_run db req version candidate key (some other) =
      require (run_to_reuse db req key) BenchmarkCode.idempotency_conflict >>= λ existing.
      ok (db, existing)

  -- what follows the query for an existing run
  unfoldable pub run_or_reuse :
      BenchmarkStore
      → Request
      → BenchmarkDatasetVersion
      → Candidate
      → Option String
      → Option BenchmarkRegressionRun
      → Result BenchmarkCode (BenchmarkStore × BenchmarkRegressionRun)
  unfolding get_benchmark_candidate_executor insert_run colliding_run
  run_or_reuse db req version candidate key (some existing) = ok (db, existing)
  run_or_reuse db req version candidate key none =
      get_benchmark_candidate_executor settings candidate.provider candidate.model >>= λ executor.
      insert_run db req version candidate key (colliding_run db req key)

  unfoldable pub start_regression_run :
      BenchmarkStore
      → Request
      → (version_id : ℕ) → Candidate
      → (idempotency_key : Option String)
      → Result BenchmarkCode (BenchmarkStore × BenchmarkRegressionRun)
  unfolding find_version is_locked run_to_reuse run_or_reuse
  start_regression_run db req version_id candidate idempotency_key = do
    version ← require (find_version db req version_id) BenchmarkCode.not_found
    guard (is_locked version.status) BenchmarkCode.version_not_locked
    run_or_reuse db req version candidate idempotency_key (run_to_reuse db req idempotency_key)

unfoldable pub is_pass : Verdict → Bool
is_pass Verdict.pass = true
is_pass _ = false

unfoldable pub is_passed : RegressionStatus → Bool
is_passed RegressionStatus.passed = true
is_passed _ = false

-- `verdict in {"FAIL", "PENDING"}`
unfoldable pub is_fail_or_pending : Verdict → Bool
is_fail_or_pending Verdict.fail = true
is_fail_or_pending Verdict.pending = true
is_fail_or_pending Verdict.pass = false

-- `status in {"ERROR", "QUEUED", "RUNNING"}`
unfoldable pub is_unfinished_or_error : RegressionStatus → Bool
is_unfinished_or_error RegressionStatus.error = true
is_unfinished_or_error RegressionStatus.queued = true
is_unfinished_or_error RegressionStatus.running = true
is_unfinished_or_error _ = false

unfoldable pub gate_passes : BenchmarkRegressionRun → Bool
unfolding is_pass is_passed is_fail_or_pending is_unfinished_or_error
gate_passes run =
    if is_fail_or_pending run.verdict || is_unfinished_or_error run.status
    then false
    else is_pass run.verdict && is_passed run.status

unfoldable pub evaluate_release_gate :
    BenchmarkStore → Request → ℕ → Result BenchmarkCode (BenchmarkStore × GateResult)
unfolding find_run gate_passes record_event
evaluate_release_gate db req run_id = do
  run ← require (find_run db req run_id) BenchmarkCode.not_found
  let result : GateResult = record { run = run; passed = gate_passes run }
  ok (record_event req run.id "benchmark_gate_evaluated" (BenchmarkPayload.gate result) db, result)
