-- ===== src/Benchmark/Registry.antt =====
-- Which candidate a request names: `resolve_benchmark_candidate` of ai/providers/benchmark.py and
-- `get_benchmark_candidate_executor` of ai/registry.py.
use eduvijna_paper_evaluatio.Prelude.{
  Option, none, some, List, String, Result, ok, err, guard, require, ◌>>=◌, ◌>>◌, str_eq, strip,
  if◌then◌else◌,
}
use eduvijna_paper_evaluatio.Benchmark.Tables.{BenchmarkCode, Failure, ReplayFixture}
use eduvijna_paper_evaluatio.Benchmark.Candidates.{
  BenchmarkCandidateOutput, EvaluationProvider, FixedModel, Executor, fixture_model, is_none,
  execute,
}

-- The settings: the evaluation provider that is active, and `str.lower`, of Unicode's tables.
pub record Settings : Type 0 where
  pub evaluation_provider : Option EvaluationProvider
  pub lower : String → String

module _ (settings : Settings) where
  -- what follows once the pair is not a fixture's
  unfoldable pub resolve_configured :
      (provider_key model_key : String) → Result BenchmarkCode Executor
  unfolding fixture_model is_none
  resolve_configured provider_key model_key = do
    provider ← require settings.evaluation_provider BenchmarkCode.candidate_unconfigured
    guard (str_eq provider_key (settings.lower provider.provider_name))
        BenchmarkCode.candidate_unsupported
    guard (is_none (fixture_model model_key)) BenchmarkCode.candidate_unsupported
    ok (Executor.adapter provider)

  -- the model of a fixture candidate
  unfoldable pub ci_fixture : (provider_key model_key : String) → Option FixedModel
  unfolding fixture_model
  ci_fixture provider_key model_key =
      if str_eq provider_key "fixed" then fixture_model model_key else none

  unfoldable pub resolve_keys :
      (provider_key model_key : String) → Option FixedModel → Result BenchmarkCode Executor
  unfolding resolve_configured
  resolve_keys provider_key model_key (some m) = ok (Executor.fixed m)
  resolve_keys provider_key model_key none = resolve_configured provider_key model_key

  unfoldable pub resolve_benchmark_candidate :
      (candidate_provider candidate_model : String) → Result BenchmarkCode Executor
  unfolding resolve_keys ci_fixture strip
  resolve_benchmark_candidate candidate_provider candidate_model =
      let provider_key = settings.lower (strip candidate_provider) in
      let model_key = strip candidate_model in
      resolve_keys provider_key model_key (ci_fixture provider_key model_key)

  -- the requested model is the one that the provider runs
  unfoldable pub check_identity : String → Executor → Result BenchmarkCode Executor
  unfolding strip
  check_identity candidate_model (Executor.fixed m) = ok (Executor.fixed m)
  check_identity candidate_model (Executor.adapter p) =
      guard (str_eq (strip candidate_model) p.metadata.model)
        BenchmarkCode.candidate_identity_mismatch
      >> ok (Executor.adapter p)

  unfoldable pub get_benchmark_candidate_executor :
      (candidate_provider candidate_model : String) → Result BenchmarkCode Executor
  unfolding resolve_benchmark_candidate check_identity
  get_benchmark_candidate_executor candidate_provider candidate_model =
      resolve_benchmark_candidate candidate_provider candidate_model
      >>= check_identity candidate_model

  unfoldable pub run_resolved :
      Result BenchmarkCode Executor
      → ReplayFixture
      → List String
      → Result Failure BenchmarkCandidateOutput
  unfolding execute
  run_resolved (err code) fixture expected_codes = err (Failure.benchmark_error code)
  run_resolved (ok executor) fixture expected_codes = execute executor fixture expected_codes

  unfoldable pub evaluate_benchmark_candidate :
      (candidate_provider candidate_model : String)
      → ReplayFixture
      → List String
      → Result Failure BenchmarkCandidateOutput
  unfolding run_resolved resolve_benchmark_candidate
  evaluate_benchmark_candidate candidate_provider candidate_model fixture expected_codes =
      run_resolved (resolve_benchmark_candidate candidate_provider candidate_model) fixture
        expected_codes
