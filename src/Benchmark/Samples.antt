-- ===== src/Benchmark/Samples.antt =====
-- A dataset of one published answer: it is locked, and candidates are run on it.
use eduvijna_paper_evaluatio.Benchmark.Evidence.{new_case}
use eduvijna_paper_evaluatio.Prelude.Int.{pos}
use eduvijna_paper_evaluatio.Benchmark.Tables.{Aggregate, Verdict}
use eduvijna_paper_evaluatio.Benchmark.Regression.Started.{
  Unused, Gated, start_regression_run-Gated,
}
use eduvijna_paper_evaluatio.Benchmark.Regression.Reproduced.{AllReproduced}
use eduvijna_paper_evaluatio.Benchmark.Datasets.{is_locked, find_version}
use eduvijna_paper_evaluatio.Benchmark.Gate.{run_to_reuse}
use eduvijna_paper_evaluatio.Benchmark.Locked.Kept.{Kept}
use eduvijna_paper_evaluatio.Benchmark.Locked.History.{start, then_step, runs, BenchmarkStep-Kept}
use eduvijna_paper_evaluatio.Benchmark.Locked.Over.{Keyed}
use eduvijna_paper_evaluatio.Benchmark.Locked.ForGood.{ForGood, lock_version-ForGood}
use eduvijna_paper_evaluatio.Benchmark.Cases.Eligible.{CaseAdded, add_case-CaseAdded}
use eduvijna_paper_evaluatio.Prelude.{true, ap, sym, ◌∙◌, Any, here, there}
use eduvijna_paper_evaluatio.Prelude.{
  ◌≡◌, refl, none, some, [], ◌∷◌, String, Result, ok, err, Option,
}
use eduvijna_paper_evaluatio.Grading.Published.{PublishedStatus}
use eduvijna_paper_evaluatio.Grading.Samples.{by_user, desk}
use eduvijna_paper_evaluatio.Publication.SampleScript.{version, approved_question}
use eduvijna_paper_evaluatio.Benchmark.Tables.{
  BenchmarkCode, VersionStatus, RegressionStatus, BenchmarkDatasetVersion, BenchmarkCase,
  BenchmarkRegressionRun, BenchmarkStore,
}
use eduvijna_paper_evaluatio.Benchmark.Metrics.{default_thresholds}
use eduvijna_paper_evaluatio.Benchmark.Registry.{Settings}
use eduvijna_paper_evaluatio.Benchmark.Evidence.{Digests}
use eduvijna_paper_evaluatio.Benchmark.Cases.{add_case, lock_version}
use eduvijna_paper_evaluatio.Benchmark.Regression.{Candidate}
use eduvijna_paper_evaluatio.Benchmark.Gate.{start_regression_run}

abbrev digests : Digests
digests = record {
  transcription_id = λ ref. none;
  evidence_hash = λ pr qe final max codes ledger snapshot. ledger;
  content_hash = λ id number profile hashes. "content";
}

-- no provider is configured
abbrev settings : Settings
settings = record { evaluation_provider = none; lower = λ s. s }

abbrev draft : BenchmarkDatasetVersion
draft = record {
  id = 700;
  tenant_id = 1;
  dataset_id = 600;
  version_number = 1;
  status = VersionStatus.draft;
  threshold_profile_snapshot = default_thresholds;
  case_count = 0;
  content_hash = none;
  locked_by = none;
  locked_at = none;
  created_by = some 9;
}

abbrev gold : BenchmarkStore
gold = record {
  grading = record desk {
    published_results = version PublishedStatus.published ∷ [];
    question_evaluations = approved_question ∷ [];
  };
  transcriptions = [];
  datasets = [];
  versions = draft ∷ [];
  cases = [];
  runs = [];
  case_results = [];
  executions = [];
  events = [];
}

abbrev store_of : {A : Type 0} → Result BenchmarkCode (BenchmarkStore × A) → BenchmarkStore
store_of (ok p) = p.0
store_of (err e) = gold

abbrev added : Result BenchmarkCode (BenchmarkStore × BenchmarkCase)
added = add_case digests gold (by_user 9) 700 500 100

abbrev filled : BenchmarkStore
filled = store_of added

abbrev lock_it : Result BenchmarkCode (BenchmarkStore × BenchmarkDatasetVersion)
lock_it = lock_version digests filled (by_user 9) 700

abbrev candidate : String → Candidate
candidate model = record {
  provider = "fixed";
  model = model;
  model_version = "B15_V1";
  prompt_template_version = "fixed-benchmark-v1";
  config = "{}";
}

abbrev run_it : String → Result BenchmarkCode (BenchmarkStore × BenchmarkRegressionRun)
run_it model =
    start_regression_run settings (store_of lock_it) (by_user 9) 700 (candidate model) none

abbrev passes :
    Result BenchmarkCode (BenchmarkStore × BenchmarkRegressionRun) → Option RegressionStatus
passes (ok p) = some p.1.status
passes (err e) = none

pass_test : passes (run_it "fixed-benchmark-pass") ≡ some RegressionStatus.passed
unfolding add_case lock_version start_regression_run
pass_test = refl

regress_test : passes (run_it "fixed-benchmark-regress") ≡ some RegressionStatus.failed
unfolding add_case lock_version start_regression_run
regress_test = refl

invalid_test : passes (run_it " fixed-benchmark-invalid ") ≡ some RegressionStatus.failed
unfolding add_case lock_version start_regression_run
invalid_test = refl

abbrev version_of :
    Result BenchmarkCode (BenchmarkStore × BenchmarkDatasetVersion) → BenchmarkDatasetVersion
version_of (ok p) = p.1
version_of (err e) = draft

abbrev locked : BenchmarkStore
locked = store_of lock_it

abbrev gold_version : BenchmarkDatasetVersion
gold_version = version_of lock_it

lock_ok : lock_it ≡ ok (locked, gold_version)
unfolding add_case lock_version
lock_ok = refl

abbrev no_run : BenchmarkRegressionRun
no_run = record {
  id = 0;
  tenant_id = 1;
  dataset_version_id = 700;
  status = RegressionStatus.queued;
  verdict = Verdict.pending;
  idempotency_key = none;
  candidate_provider = "";
  candidate_model = "";
  candidate_model_version = "";
  candidate_prompt_template_version = "";
  candidate_config = "";
  threshold_snapshot = default_thresholds;
  aggregate_metrics = Aggregate.empty;
  initiated_by = none;
  started_at = none;
  finished_at = none;
  failure = none;
}

abbrev run_of :
    Result BenchmarkCode (BenchmarkStore × BenchmarkRegressionRun) → BenchmarkRegressionRun
run_of (ok p) = p.1
run_of (err e) = no_run

abbrev passing : BenchmarkStore
passing = store_of (run_it "fixed-benchmark-pass")

abbrev passing_run : BenchmarkRegressionRun
passing_run = run_of (run_it "fixed-benchmark-pass")

run_ok : run_it "fixed-benchmark-pass" ≡ ok (passing, passing_run)
unfolding add_case lock_version start_regression_run
run_ok = refl

version_found : find_version locked (by_user 9) 700 ≡ some gold_version
unfolding add_case lock_version
version_found = refl

default_profile : gold_version.threshold_profile_snapshot ≡ default_thresholds
unfolding add_case lock_version
default_profile = refl

no_key : run_to_reuse locked (by_user 9) none ≡ none
unfolding run_to_reuse
no_key = refl

no_runs : Unused 500 locked
unfolding add_case lock_version
no_runs = tt

start_regression_run-Gated_example :
    (is_locked gold_version.status ≡ true)
    × Gated passing
        (by_user 9)
        passing_run
        (AllReproduced settings locked (by_user 9) gold_version (candidate "fixed-benchmark-pass"))
start_regression_run-Gated_example =
    start_regression_run-Gated settings locked passing (by_user 9) 700 gold_version
      (candidate "fixed-benchmark-pass") none passing_run version_found default_profile no_key
      no_runs run_ok

-- A table of one row is keyed.
only_row {ℓ} :
    {A : Type ℓ} {x a b : A} → Any (λ y. y ≡ a) (x ∷ []) → Any (λ y. y ≡ b) (x ∷ []) → a ≡ b
only_row (here e) (here f) = sym e ∙ f
only_row (there m) n = elim m [ ]
only_row (here e) (there n) = elim n [ ]

filled-Keyed : Keyed filled
unfolding add_case
filled-Keyed = record {
  versions = λ v w m n same. only_row m n;
  cases = λ c d m n same. ap (λ (x : BenchmarkCase). x.dataset_version_id) (only_row m n);
}

lock_version-ForGood_example :
    ForGood digests locked passing (by_user 9) (by_user 5) 700 gold_version
lock_version-ForGood_example =
    lock_version-ForGood digests settings filled locked passing (by_user 9) (by_user 5) 700
      gold_version filled-Keyed lock_ok
      (then_step start
        (runs (by_user 9) 700 (candidate "fixed-benchmark-pass") none passing passing_run run_ok))
      refl

BenchmarkStep-Kept_example : Kept locked passing
BenchmarkStep-Kept_example =
    BenchmarkStep-Kept digests settings locked passing
      (runs (by_user 9) 700 (candidate "fixed-benchmark-pass") none passing passing_run run_ok)

abbrev gold_case : BenchmarkCase
gold_case =
    new_case digests gold (by_user 9) 700 (version PublishedStatus.published) approved_question
      (pos 15_000)

add_ok : added ≡ ok (filled, gold_case)
unfolding add_case
add_ok = refl

add_case-CaseAdded_example : CaseAdded gold filled (by_user 9) 700 500 100 gold_case
add_case-CaseAdded_example =
    add_case-CaseAdded digests gold filled (by_user 9) 700 500 100 gold_case add_ok
