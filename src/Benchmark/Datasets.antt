-- ===== src/Benchmark/Datasets.antt =====
-- The datasets, their versions and the lookups of benchmark.py.
use eduvijna_paper_evaluatio.Prelude.{
  ℕ, suc, Bool, true, false, ◌&&◌, ◌==◌, Option, none, some, List, [], ◌∷◌, ◌++◌, String, Result,
  ok, guard, require, ◌>>=◌, ◌>>◌, str_eq, first, select, update, ltb, if◌then◌else◌,
}
use eduvijna_paper_evaluatio.Grading.Store.{Request}
use eduvijna_paper_evaluatio.Benchmark.Tables.{
  BenchmarkCode, VersionStatus, Thresholds, BenchmarkDataset, BenchmarkDatasetVersion,
  BenchmarkCase, BenchmarkRegressionRun, BenchmarkPayload, BenchmarkStore,
}
use eduvijna_paper_evaluatio.Benchmark.Metrics.{default_thresholds}
use eduvijna_paper_evaluatio.Benchmark.Candidates.{is_none}

-- an event of the caller
unfoldable pub record_event :
    Request → ℕ → String → BenchmarkPayload → BenchmarkStore → BenchmarkStore
record_event req entity_id action payload db = record db {
  events =
      db.events
      ++ record {
        tenant_id = req.tenant_id;
        actor_user_id = req.user_id;
        entity_id = entity_id;
        action = action;
        payload = payload;
      }
        ∷ [];
}

-- `_get_dataset`
unfoldable pub find_dataset : BenchmarkStore → Request → ℕ → Option BenchmarkDataset
unfolding first
find_dataset db req dataset_id =
    first (λ d. d.id == dataset_id && d.tenant_id == req.tenant_id) db.datasets

-- `_get_version`
unfoldable pub find_version : BenchmarkStore → Request → ℕ → Option BenchmarkDatasetVersion
unfolding first
find_version db req version_id =
    first (λ v. v.id == version_id && v.tenant_id == req.tenant_id) db.versions

-- `_get_run`
unfoldable pub find_run : BenchmarkStore → Request → ℕ → Option BenchmarkRegressionRun
unfolding first
find_run db req run_id = first (λ r. r.id == run_id && r.tenant_id == req.tenant_id) db.runs

-- the cases of a version, in the order in which they were added
unfoldable pub cases_of : BenchmarkStore → Request → ℕ → List BenchmarkCase
unfolding select
cases_of db req version_id =
    select (λ c. c.tenant_id == req.tenant_id && c.dataset_version_id == version_id) db.cases

unfoldable pub is_locked : VersionStatus → Bool
is_locked VersionStatus.locked = true
is_locked VersionStatus.draft = false

unfoldable pub save_version : BenchmarkDatasetVersion → BenchmarkStore → BenchmarkStore
unfolding update
save_version v db = record db { versions = update (λ x. x.id == v.id) (λ x. v) db.versions }

unfoldable pub dataset_with_code : BenchmarkStore → Request → String → Option BenchmarkDataset
unfolding first
dataset_with_code db req code =
    first (λ d. d.tenant_id == req.tenant_id && str_eq d.code code) db.datasets

unfoldable pub new_dataset : Request → (code title : String) → Option String → BenchmarkDataset
new_dataset req code title description = record {
  id = req.uuid4 0;
  tenant_id = req.tenant_id;
  code = code;
  title = title;
  description = description;
  created_by = some req.user_id;
}

unfoldable pub create_dataset :
    BenchmarkStore
    → Request
    → (code title : String) → Option String
    → Result BenchmarkCode (BenchmarkStore × BenchmarkDataset)
unfolding dataset_with_code is_none new_dataset record_event
create_dataset db req code title description = do
  guard (is_none (dataset_with_code db req code)) BenchmarkCode.dataset_code_conflict
  let dataset = new_dataset req code title description
  ok (
    record_event req dataset.id "benchmark_dataset_created" (BenchmarkPayload.dataset dataset)
        (record db { datasets = db.datasets ++ dataset ∷ [] }),
    dataset,
  )

-- `func.max(version_number)` of a dataset's versions, of none 0
unfoldable pub max_number : List BenchmarkDatasetVersion → ℕ
max_number [] = 0
max_number (v ∷ vs) =
    let rest = max_number vs in if ltb v.version_number rest then rest else v.version_number

unfoldable pub versions_of : BenchmarkStore → Request → ℕ → List BenchmarkDatasetVersion
unfolding select
versions_of db req dataset_id =
    select (λ v. v.tenant_id == req.tenant_id && v.dataset_id == dataset_id) db.versions

unfoldable pub profile_or_default : Option Thresholds → Thresholds
profile_or_default (some profile) = profile
profile_or_default none = default_thresholds

unfoldable pub new_version : Request → ℕ → ℕ → Option Thresholds → BenchmarkDatasetVersion
unfolding profile_or_default
new_version req dataset_id version_number profile = record {
  id = req.uuid4 0;
  tenant_id = req.tenant_id;
  dataset_id = dataset_id;
  version_number = version_number;
  status = VersionStatus.draft;
  threshold_profile_snapshot = profile_or_default profile;
  case_count = 0;
  content_hash = none;
  locked_by = none;
  locked_at = none;
  created_by = some req.user_id;
}

unfoldable pub create_version :
    BenchmarkStore
    → Request
    → (dataset_id : ℕ) → Option Thresholds
    → Result BenchmarkCode (BenchmarkStore × BenchmarkDatasetVersion)
unfolding find_dataset max_number versions_of new_version record_event
create_version db req dataset_id profile = do
  dataset ← require (find_dataset db req dataset_id) BenchmarkCode.not_found
  let version =
      new_version req dataset_id (suc (max_number (versions_of db req dataset_id))) profile
  ok (
    record_event req version.id "benchmark_version_created" (BenchmarkPayload.version version)
        (record db { versions = db.versions ++ version ∷ [] }),
    version,
  )
