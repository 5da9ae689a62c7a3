-- ===== src/Benchmark/Regression/Started.antt =====
-- A regression that is started anew, and the release gate on it.
use mathlib.Core.Path.{subst}
use eduvijna_paper_evaluatio.Benchmark.Datasets.{is_locked, record_event}
use eduvijna_paper_evaluatio.Benchmark.Regression.Reproduced.{
  AllReproduced, gate_passes-AllReproduced,
}
use eduvijna_paper_evaluatio.Benchmark.Metrics.{default_thresholds}
use eduvijna_paper_evaluatio.Prelude.{
  ℕ, ◌≡◌, ◌≢◌, refl, true, false, Bool, ◌&&◌, ◌==◌, ==_iff, ==_refl, Option, some, none, List, [],
  ◌∷◌, ◌++◌, String, ok, All, All-imp, first, >>=-eq-ok, ok-injective, arith, ◌↔◌, sym, ◌∙◌, ap,
  guard-eq-ok, require, guard, require-eq-ok,
}
use eduvijna_paper_evaluatio.Grading.Store.{Request}
use eduvijna_paper_evaluatio.Benchmark.Tables.{
  BenchmarkDatasetVersion, BenchmarkRegressionRun, BenchmarkStore, Compared, Failure, GateResult,
  BenchmarkPayload, BenchmarkCode,
}
use eduvijna_paper_evaluatio.Benchmark.Registry.{Settings, get_benchmark_candidate_executor}
use eduvijna_paper_evaluatio.Benchmark.Datasets.{is_locked, record_event, find_version, find_run}
use eduvijna_paper_evaluatio.Benchmark.Regression.{Candidate, new_run, conclude_run}
use eduvijna_paper_evaluatio.Benchmark.Gate.{
  run_to_reuse, colliding_run, finished_run, run_regression, insert_run, run_or_reuse,
  start_regression_run, gate_passes, evaluate_release_gate,
}

first-append {ℓ} :
    {A : Type ℓ} (test : A → Bool) (x : A) (xs : List A)
    → All (λ y. test y ≡ false) xs
    → test x ≡ true
    → first test (xs ++ x ∷ []) ≡ some x
unfolding first
first-append test x [] h hit = rw hit refl
first-append test x (y ∷ ys) (e, es) hit = rw e (first-append test x ys es hit)

module _ (settings : Settings) (db : BenchmarkStore) (req : Request)
    (version : BenchmarkDatasetVersion) (candidate : Candidate) (key : Option String) where
  -- The run of a request with no run to reuse is the finished one.
  insert_run-eq :
      (other : Option BenchmarkRegressionRun) (after : BenchmarkStore)
      (run : BenchmarkRegressionRun)
      → run_to_reuse db req key ≡ none
      → insert_run settings db req version candidate key other ≡ ok (after, run)
      → ◌≡◌ {A = BenchmarkStore × BenchmarkRegressionRun}
          (run_regression settings db req version candidate key)
          (after, run)
  unfolding insert_run
  insert_run-eq none after run e h = ok-injective h
  insert_run-eq (some other) after run e h = cc (rw e at h)

  pub run_or_reuse-eq :
      (after : BenchmarkStore) (run : BenchmarkRegressionRun)
      → run_to_reuse db req key ≡ none
      → run_or_reuse settings db req version candidate key (run_to_reuse db req key)
        ≡ ok (after, run)
      → ◌≡◌ {A = BenchmarkStore × BenchmarkRegressionRun}
          (run_regression settings db req version candidate key)
          (after, run)
  unfolding run_or_reuse
  run_or_reuse-eq after run e h =
      let (executor, resolved, h₁) =
        >>=-eq-ok (get_benchmark_candidate_executor settings candidate.provider candidate.model) _
          (rw e at h) in
      insert_run-eq (colliding_run db req key) after run e h₁

abbrev SameRow : BenchmarkRegressionRun → BenchmarkRegressionRun → Type 0
SameRow a b = (a.id ≡ b.id) × (a.tenant_id ≡ b.tenant_id)

conclude_run-SameRow :
    (req : Request) (run : BenchmarkRegressionRun) (rows : List Compared) (failure : Option Failure)
    → SameRow (conclude_run req run rows failure) run
unfolding conclude_run
conclude_run-SameRow req run rows none = (refl, refl)
conclude_run-SameRow req run rows (some f) = (refl, refl)

-- No run has the identifier.
abbrev pub Unused : ℕ → BenchmarkStore → Type 0
Unused id db = All (λ (r : BenchmarkRegressionRun). r.id ≢ id) db.runs

module _ (settings : Settings) (db : BenchmarkStore) (req : Request)
    (version : BenchmarkDatasetVersion) (candidate : Candidate) (key : Option String) where
  finished_run-SameRow :
      SameRow
        (finished_run settings db req version candidate key)
        (new_run req version candidate key)
  unfolding finished_run
  finished_run-SameRow = conclude_run-SameRow req (new_run req version candidate key) _ _

  finished_run-id : (finished_run settings db req version candidate key).id ≡ req.uuid4 0
  unfolding new_run
  finished_run-id = finished_run-SameRow.0

  finished_run_tenant :
      (finished_run settings db req version candidate key).tenant_id ≡ req.tenant_id
  unfolding new_run
  finished_run_tenant = finished_run-SameRow.1

  find_run-run_regression :
      Unused (req.uuid4 0) db
      → find_run (run_regression settings db req version candidate key).0 req (req.uuid4 0)
        ≡ some (finished_run settings db req version candidate key)
  unfolding find_run run_regression
  find_run-run_regression unused =
      first-append
        (λ (r : BenchmarkRegressionRun). r.id == req.uuid4 0 && r.tenant_id == req.tenant_id)
        (finished_run settings db req version candidate key) db.runs
        (All-imp
          (λ (r : BenchmarkRegressionRun) (n : r.id ≢ req.uuid4 0).
            ground (arith, ==_iff r.id (req.uuid4 0)))
          db.runs unused)
        (rw (finished_run-id, finished_run_tenant)
          (ground (arith, ==_refl (req.uuid4 0), ==_refl req.tenant_id)))

abbrev gate_result : BenchmarkRegressionRun → GateResult
gate_result run = record { run = run; passed = gate_passes run }

abbrev gate_event : Request → BenchmarkRegressionRun → BenchmarkStore → BenchmarkStore
gate_event req run =
    record_event req run.id "benchmark_gate_evaluated" (BenchmarkPayload.gate (gate_result run))

gate_found :
    (db : BenchmarkStore) (req : Request) (id : ℕ) (run : BenchmarkRegressionRun)
    → find_run db req id ≡ some run
    → evaluate_release_gate db req id ≡ ok (gate_event req run db, gate_result run)
unfolding evaluate_release_gate
gate_found db req id run found = rw found refl

-- The gate finds the run, and passes it exactly if a statement holds.
pub record Gated (db : BenchmarkStore) (req : Request) (run : BenchmarkRegressionRun)
    (Holds : Type 0) : Type 0 where
  pub after : BenchmarkStore
  pub result : GateResult
  pub answered : evaluate_release_gate db req run.id ≡ ok (after, result)
  pub same_run : result.run ≡ run
  pub passes : (result.passed ≡ true) ↔ Holds

module _ (settings : Settings) (db : BenchmarkStore) (req : Request)
    (version : BenchmarkDatasetVersion) (candidate : Candidate) (key : Option String)
    (default : version.threshold_profile_snapshot ≡ default_thresholds)
    (unused : Unused (req.uuid4 0) db) where
  run_regression-Gated :
      Gated
        (run_regression settings db req version candidate key).0
        req
        (finished_run settings db req version candidate key)
        (AllReproduced settings db req version candidate)
  unfolding evaluate_release_gate
  run_regression-Gated =
      let run = finished_run settings db req version candidate key in
      let after = (run_regression settings db req version candidate key).0 in
      let found =
        ap (find_run after req) (finished_run-id settings db req version candidate key)
        ∙ find_run-run_regression settings db req version candidate key unused in
      record {
        after = gate_event req run after;
        result = gate_result run;
        answered = gate_found after req run.id run found;
        same_run = refl;
        passes = gate_passes-AllReproduced settings db req version candidate key default;
      }

-- A regression that is started, with no run to reuse and a new identifier, ran on a LOCKED version,
-- and the release gate finds its run. If the version has the default thresholds, the gate passes
-- exactly if the version has a case, and the candidate answers each case of it with the expected
-- marks, at most the maximum, and with the expected codes in whatever order, with none where none
-- are expected.
pub start_regression_run-Gated :
    (settings : Settings) (db after : BenchmarkStore) (req : Request) (version_id : ℕ)
    (version : BenchmarkDatasetVersion) (candidate : Candidate) (key : Option String)
    (run : BenchmarkRegressionRun)
    → find_version db req version_id ≡ some version
    → version.threshold_profile_snapshot ≡ default_thresholds
    → run_to_reuse db req key ≡ none
    → Unused (req.uuid4 0) db
    → start_regression_run settings db req version_id candidate key ≡ ok (after, run)
    → (is_locked version.status ≡ true)
      × Gated after req run (AllReproduced settings db req version candidate)
unfolding start_regression_run evaluate_release_gate
start_regression_run-Gated settings db after req version_id version candidate key run found default
      fresh unused h =
    let (v, found', h₁) =
      >>=-eq-ok (require (find_version db req version_id) BenchmarkCode.not_found) _ h in
    let (u, locked, h₂) =
      >>=-eq-ok (guard (is_locked v.status) BenchmarkCode.version_not_locked) _ h₁ in
    let same : ◌≡◌ {A = Option BenchmarkDatasetVersion} (some v) (some version) =
      sym (require-eq-ok _ _ found') ∙ found in
    let one : v ≡ version = cc same in
    let ran = run_or_reuse-eq settings db req version candidate key after run fresh (
      subst
        (λ (w : BenchmarkDatasetVersion).
          run_or_reuse settings db req w candidate key (run_to_reuse db req key) ≡ ok (after, run))
        one h₂) in
    (
      subst (λ (w : BenchmarkDatasetVersion). is_locked w.status ≡ true) one
          (guard-eq-ok _ _ locked),
      subst
          (λ (p : BenchmarkStore × BenchmarkRegressionRun).
            Gated p.0 req p.1 (AllReproduced settings db req version candidate))
          ran (run_regression-Gated settings db req version candidate key default unused),
    )
