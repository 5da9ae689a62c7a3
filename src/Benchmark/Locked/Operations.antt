-- ===== src/Benchmark/Locked/Operations.antt =====
-- No addition, lock or regression changes a locked version, its cases, or a table of grading.
use mathlib.Core.Path.{subst}
use eduvijna_paper_evaluatio.Benchmark.Evidence.{new_case}
use eduvijna_paper_evaluatio.Benchmark.Tables.{VersionStatus, BenchmarkRegressionRun}
use eduvijna_paper_evaluatio.Benchmark.Cases.{
  has_hash, version_content_hash, lock_loaded, lock_version, locked_version,
}
use eduvijna_paper_evaluatio.Benchmark.Registry.{Settings, get_benchmark_candidate_executor}
use eduvijna_paper_evaluatio.Benchmark.Datasets.{cases_of}
use eduvijna_paper_evaluatio.Benchmark.Regression.{Candidate}
use eduvijna_paper_evaluatio.Benchmark.Gate.{
  run_to_reuse, colliding_run, run_regression, insert_run, run_or_reuse, start_regression_run,
}
use eduvijna_paper_evaluatio.Prelude.{length}
use eduvijna_paper_evaluatio.Benchmark.Cases.Added.{add_case-Added}
use eduvijna_paper_evaluatio.Prelude.{
  ℕ, ◌≡◌, ◌≢◌, refl, ap, not, ◌==◌, inl, inr, Option, some, none, List, String, ok, All, Any, guard,
  require, >>=-eq-ok, ok-injective, require-eq-ok, length,
}
use eduvijna_paper_evaluatio.Grading.Store.{Request}
use eduvijna_paper_evaluatio.Benchmark.Tables.{
  BenchmarkCode, VersionStatus, BenchmarkDatasetVersion, BenchmarkCase, BenchmarkRegressionRun,
  BenchmarkStore,
}
use eduvijna_paper_evaluatio.Benchmark.Registry.{Settings, get_benchmark_candidate_executor}
use eduvijna_paper_evaluatio.Benchmark.Datasets.{find_version, cases_of, is_locked}
use eduvijna_paper_evaluatio.Benchmark.Evidence.{Digests, new_case}
use eduvijna_paper_evaluatio.Benchmark.Cases.{add_case, lock_loaded, locked_version, lock_version}
use eduvijna_paper_evaluatio.Benchmark.Regression.{Candidate}
use eduvijna_paper_evaluatio.Benchmark.Gate.{
  run_to_reuse, colliding_run, run_regression, insert_run, run_or_reuse, start_regression_run,
}
use eduvijna_paper_evaluatio.Benchmark.Locked.{found_version, other_version, save_version-IsLocked}
use eduvijna_paper_evaluatio.Benchmark.Locked.Kept.{
  Kept, Kept-refl, same_tables, record_event-Kept, insert_case-Kept,
}

module _ (o : Digests) (db : BenchmarkStore) (req : Request) where
  pub add_case-Kept :
      (version_id pr_id qe_id : ℕ) (after : BenchmarkStore) (c : BenchmarkCase)
      → All (λ (x : BenchmarkCase). x.id ≢ req.uuid4 0) db.cases
      → add_case o db req version_id pr_id qe_id ≡ ok (after, c)
      → Kept db after
  unfolding new_case
  add_case-Kept version_id pr_id qe_id after c fresh h =
      let a = add_case-Added o db after req version_id pr_id qe_id c h in
      let (m, id, tenant) = found_version db req version_id a.found in
      elim a.added [
        | inl (e, same) ↦ rw same (Kept-refl db)
        | inr (e, absent, eligible) ↦ rw e (
            insert_case-Kept db req a.version c m a.draft
              (rw (ap (λ (x : BenchmarkCase). x.id) eligible.row) fresh)
              (ap (λ (x : BenchmarkCase). x.dataset_version_id) eligible.row))
      ]

  pub lock_loaded-Kept :
      (w : BenchmarkDatasetVersion) (cases : List BenchmarkCase) (status : VersionStatus)
      (after : BenchmarkStore) (v : BenchmarkDatasetVersion)
      → w.status ≡ status
      → Any (λ x. x ≡ w) db.versions
      → lock_loaded o db req w cases status ≡ ok (after, v)
      → Kept db after
  unfolding lock_loaded locked_version is_locked
  lock_loaded-Kept w cases VersionStatus.locked after v e m h =
      let (u, same, h₁) =
        >>=-eq-ok
          (guard (has_hash w.content_hash (version_content_hash o w cases))
            BenchmarkCode.version_locked)
          _ h in
      subst (λ (p : BenchmarkStore × BenchmarkDatasetVersion). Kept db p.0) (ok-injective h₁)
        (Kept-refl db)
  lock_loaded-Kept w cases VersionStatus.draft after v e m h =
      let (u, some', h₁) =
        >>=-eq-ok (guard (not (length cases == 0)) BenchmarkCode.version_empty) _ h in
      subst (λ (p : BenchmarkStore × BenchmarkDatasetVersion). Kept db p.0) (ok-injective h₁)
        (record_event-Kept req _ _ _ (record {
          grading = refl;
          stays = λ x cs l.
              save_version-IsLocked x cs db _ (other_version x cs db w l m (ap is_locked e)) l;
        }))

  pub lock_version-Kept :
      (version_id : ℕ) (after : BenchmarkStore) (v : BenchmarkDatasetVersion)
      → lock_version o db req version_id ≡ ok (after, v)
      → Kept db after
  unfolding lock_version
  lock_version-Kept version_id after v h =
      let (w, found, h₁) =
        >>=-eq-ok (require (find_version db req version_id) BenchmarkCode.not_found) _ h in
      let (m, id, tenant) = found_version db req version_id (require-eq-ok _ _ found) in
      lock_loaded-Kept w (cases_of db req version_id) w.status after v refl m h₁

module _ (settings : Settings) (db : BenchmarkStore) (req : Request) where
  pub insert_run-Kept :
      (w : BenchmarkDatasetVersion) (candidate : Candidate) (key : Option String)
      (other : Option BenchmarkRegressionRun) (after : BenchmarkStore)
      (run : BenchmarkRegressionRun)
      → insert_run settings db req w candidate key other ≡ ok (after, run)
      → Kept db after
  unfolding insert_run run_regression
  insert_run-Kept w candidate key none after run h =
      subst (λ (p : BenchmarkStore × BenchmarkRegressionRun). Kept db p.0) (ok-injective h)
        (record_event-Kept req _ _ _ (same_tables refl refl refl))
  insert_run-Kept w candidate key (some other) after run h =
      let (r, found, h₁) =
        >>=-eq-ok (require (run_to_reuse db req key) BenchmarkCode.idempotency_conflict) _ h in
      subst (λ (p : BenchmarkStore × BenchmarkRegressionRun). Kept db p.0) (ok-injective h₁)
        (Kept-refl db)

  pub run_or_reuse-Kept :
      (w : BenchmarkDatasetVersion) (candidate : Candidate) (key : Option String)
      (existing : Option BenchmarkRegressionRun) (after : BenchmarkStore)
      (run : BenchmarkRegressionRun)
      → run_or_reuse settings db req w candidate key existing ≡ ok (after, run)
      → Kept db after
  unfolding run_or_reuse
  run_or_reuse-Kept w candidate key (some existing) after run h =
      subst (λ (p : BenchmarkStore × BenchmarkRegressionRun). Kept db p.0) (ok-injective h)
        (Kept-refl db)
  run_or_reuse-Kept w candidate key none after run h =
      let (e, resolved, h₁) =
        >>=-eq-ok (get_benchmark_candidate_executor settings candidate.provider candidate.model) _
          h in
      insert_run-Kept w candidate key (colliding_run db req key) after run h₁

  pub start_regression_run-Kept :
      (version_id : ℕ) (candidate : Candidate) (key : Option String) (after : BenchmarkStore)
      (run : BenchmarkRegressionRun)
      → start_regression_run settings db req version_id candidate key ≡ ok (after, run)
      → Kept db after
  unfolding start_regression_run
  start_regression_run-Kept version_id candidate key after run h =
      let (w, found, h₁) =
        >>=-eq-ok (require (find_version db req version_id) BenchmarkCode.not_found) _ h in
      let (u, locked, h₂) =
        >>=-eq-ok (guard (is_locked w.status) BenchmarkCode.version_not_locked) _ h₁ in
      run_or_reuse-Kept w candidate key (run_to_reuse db req key) after run h₂
