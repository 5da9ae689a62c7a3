-- ===== src/Benchmark/Regression/Reproduced.antt =====
-- The release gate lets a candidate pass that reproduces every case.
use mathlib.Core.Path.{subst}
use eduvijna_paper_evaluatio.Benchmark.Datasets.{cases_of}
use eduvijna_paper_evaluatio.Benchmark.Gate.{
  is_fail_or_pending, is_unfinished_or_error, is_pass, is_passed, finished_run, evaluate_version,
  gate_passes,
}
use eduvijna_paper_evaluatio.Benchmark.Metrics.{
  default_thresholds, aggregate_regression_metrics, empty_metrics,
}
use eduvijna_paper_evaluatio.Prelude.{true, if◌then◌else◌, Bool-cases, inl, inr, ◌↔◌, String}
use eduvijna_paper_evaluatio.Prelude.{
  ℕ, ◌≡◌, ◌≢◌, refl, none, List, [], ◌∷◌, Result, ok, err, All, suc,
}
use eduvijna_paper_evaluatio.Grading.Store.{Request}
use eduvijna_paper_evaluatio.Benchmark.Tables.{Thresholds, BenchmarkStore, BenchmarkCase, Failure}
use eduvijna_paper_evaluatio.Benchmark.Metrics.{error_of}
use eduvijna_paper_evaluatio.Benchmark.Metrics.Defaults.{
  All-IsFine→passed, passed→All-IsFine, IsFine,
}
use eduvijna_paper_evaluatio.Benchmark.Candidates.{BenchmarkCandidateOutput}
use eduvijna_paper_evaluatio.Benchmark.Registry.{Settings}
use eduvijna_paper_evaluatio.Benchmark.Regression.{
  new_run, some, Verdict, Compared, Option, BenchmarkDatasetVersion, BenchmarkRegressionRun,
  conclude_run, Candidate, Evaluated, evaluate_case, add_evaluated, join_evaluated, evaluate_cases,
}
use eduvijna_paper_evaluatio.Benchmark.Regression.Right.{IsRight, IsFine→IsRight, IsRight→IsFine}

module _ (settings : Settings) (candidate : Candidate) where
  -- The candidate answers the case, and its output is right.
  pub record Reproduces (case : BenchmarkCase) : Type 0 where
    pub output : BenchmarkCandidateOutput
    pub answered : evaluate_case settings candidate case ≡ ok output
    pub right : IsRight case output

  module _ (req : Request) (run_id : ℕ) where
    evaluated : ℕ → List BenchmarkCase → Evaluated
    evaluated index cases = evaluate_cases settings req candidate run_id 0 index cases

    record AreFine (e : Evaluated) : Type 0 where
      finished : e.failure ≡ none
      fine : All IsFine e.compared

    joined-Reproduces :
        (index : ℕ) (case : BenchmarkCase) (later : Evaluated)
        (answer : Result Failure BenchmarkCandidateOutput)
        → evaluate_case settings candidate case ≡ answer
        → AreFine (join_evaluated req run_id index 0 case answer later)
        → Reproduces case × AreFine later
    unfolding join_evaluated add_evaluated
    joined-Reproduces index case later (err f) e h = cc h.finished
    joined-Reproduces index case later (ok output) e h = (
      record { output = output; answered = e; right = IsFine→IsRight case output h.fine.0 },
      record { finished = h.finished; fine = h.fine.1 },
    )

    AreFine→Reproduces :
        (index : ℕ) (cases : List BenchmarkCase)
        → AreFine (evaluated index cases)
        → All Reproduces cases
    unfolding evaluate_cases evaluated
    AreFine→Reproduces index [] h = tt
    AreFine→Reproduces index (case ∷ cases) h =
        let (r, later) = joined-Reproduces index case (evaluated (suc index) cases) _ refl h in
        (r, AreFine→Reproduces (suc index) cases later)

    -- the rows of cases that are reproduced
    record AllRight (e : Evaluated) : Type 0 where
      finished : e.failure ≡ none
      fine : All IsFine e.compared
      errors : All (λ r. error_of r ≡ 0) e.compared

    joined-AllRight :
        (index : ℕ) (case : BenchmarkCase) (later : Evaluated) (r : Reproduces case)
        → AllRight later
        → AllRight
            (join_evaluated req run_id index 0 case (evaluate_case settings candidate case) later)
          × (Evaluated.compared (
                join_evaluated req run_id index 0 case
                  (evaluate_case settings candidate case)
                  later)
              ≢ [])
    unfolding join_evaluated add_evaluated
    joined-AllRight index case later r h =
        let (fine, error) = IsRight→IsFine case r.output r.right in
        rw r.answered (
          record { finished = h.finished; fine = (fine, h.fine); errors = (error, h.errors) },
          (λ e. cc),
        )

    Reproduces→AllRight :
        (index : ℕ) (cases : List BenchmarkCase)
        → All Reproduces cases
        → AllRight (evaluated index cases)
    unfolding evaluate_cases evaluated
    Reproduces→AllRight index [] h = record { finished = refl; fine = tt; errors = tt }
    Reproduces→AllRight index (case ∷ cases) (r, rs) =
        (joined-AllRight index case (evaluated (suc index) cases) r
          (Reproduces→AllRight (suc index) cases rs)).0

    reproduced-compared :
        (index : ℕ) (cases : List BenchmarkCase)
        → cases ≢ []
        → All Reproduces cases
        → Evaluated.compared (evaluated index cases) ≢ []
    unfolding evaluate_cases evaluated
    reproduced-compared index [] some' h = absurd (some' refl)
    reproduced-compared index (case ∷ cases) some' (r, rs) =
        (joined-AllRight index case (evaluated (suc index) cases) r
          (Reproduces→AllRight (suc index) cases rs)).1

    compared-cases :
        (index : ℕ) (cases : List BenchmarkCase)
        → Evaluated.compared (evaluated index cases) ≢ []
        → cases ≢ []
    unfolding evaluate_cases evaluated
    compared-cases index [] some' e = some' refl
    compared-cases index (case ∷ cases) some' e = cc

aggregate_verdict :
    (profile : Thresholds) (rows : List Compared)
    → (aggregate_regression_metrics profile rows).verdict
      ≡ (if (aggregate_regression_metrics profile rows).passed then Verdict.pass else Verdict.fail)
unfolding aggregate_regression_metrics empty_metrics
aggregate_verdict profile [] = refl
aggregate_verdict profile (r ∷ rs) = refl

-- A concluded run passes the gate exactly if no exception ended it and its metrics pass.
pub gate_passes-conclude_run :
    (req : Request) (run : BenchmarkRegressionRun) (rows : List Compared) (failure : Option Failure)
    → (gate_passes (conclude_run req run rows failure) ≡ true) ↔ (
        (failure ≡ none)
        × ((aggregate_regression_metrics run.threshold_snapshot rows).passed ≡ true))
unfolding gate_passes conclude_run is_fail_or_pending is_unfinished_or_error is_pass is_passed
gate_passes-conclude_run req run rows (some f) = ((λ h. cc), (λ h. cc h.0))
gate_passes-conclude_run req run rows none =
    elim (Bool-cases (aggregate_regression_metrics run.threshold_snapshot rows).passed) [
      | inl passed ↦
          rw (aggregate_verdict run.threshold_snapshot rows, passed)
            ((λ h. (refl, refl)), (λ h. refl))
      | inr failed ↦
          rw (aggregate_verdict run.threshold_snapshot rows, failed) ((λ h. cc), (λ h. cc h.1))
    ]

-- The version has a case, and the candidate reproduces every one.
abbrev pub AllReproduced :
    Settings → BenchmarkStore → Request → BenchmarkDatasetVersion → Candidate → Type 0
AllReproduced settings db req version candidate =
    (cases_of db req version.id ≢ [])
    × All (Reproduces settings candidate) (cases_of db req version.id)

module _ (settings : Settings) (db : BenchmarkStore) (req : Request)
    (version : BenchmarkDatasetVersion) (candidate : Candidate) (key : Option String)
    (default : version.threshold_profile_snapshot ≡ default_thresholds) where
  version_evaluated :
      evaluate_version settings db req version candidate
      ≡ evaluated settings candidate req (req.uuid4 0) 0 (cases_of db req version.id)
  unfolding evaluate_version evaluated
  version_evaluated = rw default refl

  version_gate : (gate_passes (finished_run settings db req version candidate key) ≡ true) ↔ (
      ((evaluate_version settings db req version candidate).failure ≡ none)
      × ((aggregate_regression_metrics version.threshold_profile_snapshot
            (evaluate_version settings db req version candidate).compared).passed
          ≡ true))
  unfolding finished_run new_run
  version_gate = gate_passes-conclude_run req (new_run req version candidate key) _ _

  gate_passes_iff : (gate_passes (finished_run settings db req version candidate key) ≡ true) ↔ (
      ((evaluated settings candidate req (req.uuid4 0) 0 (cases_of db req version.id)).failure
        ≡ none)
      × ((aggregate_regression_metrics default_thresholds
            (evaluated settings candidate req
              (req.uuid4 0)
              0
              (cases_of db req version.id)).compared).passed
          ≡ true))
  gate_passes_iff =
      let e = evaluated settings candidate req (req.uuid4 0) 0 (cases_of db req version.id) in
      subst
        (λ (t : Thresholds).
          (gate_passes (finished_run settings db req version candidate key) ≡ true)
          ↔ ((e.failure ≡ none) × ((aggregate_regression_metrics t e.compared).passed ≡ true)))
        default (rw version_evaluated at version_gate)

  -- Under the default thresholds a finished run passes the gate exactly if its version has a case
  -- and the candidate reproduces every one.
  pub gate_passes-AllReproduced :
      (gate_passes (finished_run settings db req version candidate key) ≡ true)
      ↔ AllReproduced settings db req version candidate
  gate_passes-AllReproduced =
      let cases = cases_of db req version.id in
      (
        (λ h.
            let (finished, passed) = gate_passes_iff.0 h in
            let (some', fine) = passed→All-IsFine _ passed in
            (
              compared-cases settings candidate req (req.uuid4 0) 0 cases some',
              AreFine→Reproduces settings candidate req (req.uuid4 0) 0 cases
                  (record { finished = finished; fine = fine }),
            )),
        (λ h.
            let right = Reproduces→AllRight settings candidate req (req.uuid4 0) 0 cases h.1 in
            let rows = reproduced-compared settings candidate req (req.uuid4 0) 0 cases h.0 h.1 in
            gate_passes_iff.1 (right.finished, All-IsFine→passed _ rows right.fine right.errors)),
      )
