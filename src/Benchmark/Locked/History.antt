-- ===== src/Benchmark/Locked/History.antt =====
-- A lock is for good.
use eduvijna_paper_evaluatio.Prelude.{ℕ, ◌≡◌, ◌≢◌, Option, List, String, ok, All}
use eduvijna_paper_evaluatio.Grading.Store.{Request, Store}
use eduvijna_paper_evaluatio.Benchmark.Tables.{
  Thresholds, BenchmarkDataset, BenchmarkDatasetVersion, BenchmarkCase, BenchmarkRegressionRun,
  GateResult, Transcription, BenchmarkStore,
}
use eduvijna_paper_evaluatio.Benchmark.Registry.{Settings}
use eduvijna_paper_evaluatio.Benchmark.Datasets.{create_dataset, create_version}
use eduvijna_paper_evaluatio.Benchmark.Evidence.{Digests}
use eduvijna_paper_evaluatio.Benchmark.Cases.{add_case, remove_case, lock_version}
use eduvijna_paper_evaluatio.Benchmark.Regression.{Candidate}
use eduvijna_paper_evaluatio.Benchmark.Gate.{start_regression_run, evaluate_release_gate}
use eduvijna_paper_evaluatio.Benchmark.Locked.{IsLocked}
use eduvijna_paper_evaluatio.Benchmark.Locked.Kept.{
  Kept, create_dataset-Kept, create_version-Kept, remove_case-Kept, evaluate_release_gate-Kept,
}
use eduvijna_paper_evaluatio.Benchmark.Locked.Operations.{
  add_case-Kept, lock_version-Kept, start_regression_run-Kept,
}

-- One operation of the benchmark that succeeds. The identifiers of new rows are new.
pub data BenchmarkStep (o : Digests) (settings : Settings) (db : BenchmarkStore)
    : BenchmarkStore → Type 0 where
  creates_dataset :
      (req : Request) (code title : String) (description : Option String) (after : BenchmarkStore)
      (d : BenchmarkDataset)
      → create_dataset db req code title description ≡ ok (after, d)
      → BenchmarkStep o settings db after
  creates_version :
      (req : Request) (dataset_id : ℕ) (profile : Option Thresholds) (after : BenchmarkStore)
      (v : BenchmarkDatasetVersion)
      → All (λ (x : BenchmarkDatasetVersion). x.id ≢ req.uuid4 0) db.versions
      → create_version db req dataset_id profile ≡ ok (after, v)
      → BenchmarkStep o settings db after
  adds :
      (req : Request) (version_id pr_id qe_id : ℕ) (after : BenchmarkStore) (c : BenchmarkCase)
      → All (λ (x : BenchmarkCase). x.id ≢ req.uuid4 0) db.cases
      → add_case o db req version_id pr_id qe_id ≡ ok (after, c)
      → BenchmarkStep o settings db after
  removes :
      (req : Request) (version_id case_id : ℕ) (after : BenchmarkStore)
      → remove_case db req version_id case_id ≡ ok after
      → BenchmarkStep o settings db after
  locks :
      (req : Request) (version_id : ℕ) (after : BenchmarkStore) (v : BenchmarkDatasetVersion)
      → lock_version o db req version_id ≡ ok (after, v)
      → BenchmarkStep o settings db after
  runs :
      (req : Request) (version_id : ℕ) (candidate : Candidate) (key : Option String)
      (after : BenchmarkStore) (run : BenchmarkRegressionRun)
      → start_regression_run settings db req version_id candidate key ≡ ok (after, run)
      → BenchmarkStep o settings db after
  gates :
      (req : Request) (run_id : ℕ) (after : BenchmarkStore) (r : GateResult)
      → evaluate_release_gate db req run_id ≡ ok (after, r)
      → BenchmarkStep o settings db after

-- No operation of the benchmark writes to a table of grading, and none changes a LOCKED version or
-- the cases of one.
pub BenchmarkStep-Kept :
    (o : Digests) (settings : Settings) (db after : BenchmarkStore)
    → BenchmarkStep o settings db after
    → Kept db after
BenchmarkStep-Kept o settings db after (creates_dataset req code title description after' d h) =
    create_dataset-Kept db req code title description after' d h
BenchmarkStep-Kept o settings db after (creates_version req dataset_id profile after' v fresh h) =
    create_version-Kept db req dataset_id profile after' v fresh h
BenchmarkStep-Kept o settings db after (adds req version_id pr_id qe_id after' c fresh h) =
    add_case-Kept o db req version_id pr_id qe_id after' c fresh h
BenchmarkStep-Kept o settings db after (removes req version_id case_id after' h) =
    remove_case-Kept db req version_id case_id after' h
BenchmarkStep-Kept o settings db after (locks req version_id after' v h) =
    lock_version-Kept o db req version_id after' v h
BenchmarkStep-Kept o settings db after (runs req version_id candidate key after' run h) =
    start_regression_run-Kept settings db req version_id candidate key after' run h
BenchmarkStep-Kept o settings db after (gates req run_id after' r h) =
    evaluate_release_gate-Kept db req run_id after' r h

-- Operations of the benchmark, with other parts of the program writing to the tables of grading and
-- to the transcriptions between them.
pub data BenchmarkHistory (o : Digests) (settings : Settings) (db : BenchmarkStore)
    : BenchmarkStore → Type 0 where
  start : BenchmarkHistory o settings db db
  then_step :
      {mid after : BenchmarkStore}
      → BenchmarkHistory o settings db mid
      → BenchmarkStep o settings mid after
      → BenchmarkHistory o settings db after
  then_elsewhere :
      {mid : BenchmarkStore} (grading : Store) (transcriptions : List Transcription)
      → BenchmarkHistory o settings db mid
      → BenchmarkHistory o settings db
          (record mid { grading = grading; transcriptions = transcriptions })

pub history-IsLocked :
    (o : Digests) (settings : Settings) (db : BenchmarkStore) {after : BenchmarkStore}
    (v : BenchmarkDatasetVersion) (cs : List BenchmarkCase)
    → BenchmarkHistory o settings db after
    → IsLocked v cs db
    → IsLocked v cs after
history-IsLocked o settings db v cs start l = l
history-IsLocked o settings db v cs (then_step hs s) l =
    (BenchmarkStep-Kept o settings _ _ s).stays v cs (history-IsLocked o settings db v cs hs l)
history-IsLocked o settings db v cs (then_elsewhere g t hs) l =
    let m = history-IsLocked o settings db v cs hs l in
    record {
      locked = m.locked;
      here = m.here;
      only = m.only;
      kept = m.kept;
      one_version = m.one_version;
    }
