-- ===== src/Benchmark/Cases.antt =====
-- The cases of a version while it is a draft, and its lock: `add_case`, `remove_case` and
-- `lock_version` of benchmark.py.
pub mod Added
pub mod Eligible
use eduvijna_paper_evaluatio.Prelude.{
  ℕ, suc, ◌-◌, Bool, false, not, ◌&&◌, ◌==◌, Option, none, some, List, [], ◌∷◌, ◌++◌, map, String,
  Result, ok, guard, require, ◌>>=◌, ◌>>◌, str_eq, first, select, length,
}
use eduvijna_paper_evaluatio.Grading.Ledger.{QuestionEvaluation, is_reviewed}
use eduvijna_paper_evaluatio.Grading.Published.{PublishedResult}
use eduvijna_paper_evaluatio.Grading.Grievance.{is_published}
use eduvijna_paper_evaluatio.Grading.Store.{Request}
use eduvijna_paper_evaluatio.Benchmark.Tables.{
  BenchmarkCode, VersionStatus, BenchmarkDatasetVersion, BenchmarkCase, BenchmarkPayload,
  BenchmarkStore,
}
use eduvijna_paper_evaluatio.Benchmark.Compare.{normalize_error_codes}
use eduvijna_paper_evaluatio.Benchmark.Datasets.{
  record_event, find_version, cases_of, is_locked, save_version,
}
use eduvijna_paper_evaluatio.Benchmark.Evidence.{Digests, new_case}

unfoldable pub existing_case :
    BenchmarkStore → Request → (version_id qe_id : ℕ) → Option BenchmarkCase
unfolding first
existing_case db req version_id qe_id =
    first
      (λ c.
        c.tenant_id == req.tenant_id
        && (c.dataset_version_id == version_id && c.question_evaluation_id == qe_id))
      db.cases

unfoldable pub find_published : BenchmarkStore → Request → ℕ → Option PublishedResult
unfolding first
find_published db req id =
    first (λ r. r.id == id && r.tenant_id == req.tenant_id) db.grading.published_results

unfoldable pub find_evaluation : BenchmarkStore → Request → ℕ → Option QuestionEvaluation
unfolding first
find_evaluation db req id =
    first (λ q. q.id == id && q.tenant_id == req.tenant_id) db.grading.question_evaluations

unfoldable pub insert_case :
    BenchmarkStore → Request → BenchmarkDatasetVersion → BenchmarkCase → BenchmarkStore
unfolding save_version record_event
insert_case db req version case =
    record_event req case.id "benchmark_case_added" (BenchmarkPayload.case case) (
      save_version (record version { case_count = suc version.case_count })
        (record db { cases = db.cases ++ case ∷ [] }))

module _ (o : Digests) where
  -- the checks of a new case, and its row
  unfoldable pub make_case :
      BenchmarkStore
      → Request
      → (version_id published_result_id question_evaluation_id : ℕ)
      → Result BenchmarkCode BenchmarkCase
  unfolding find_published is_published find_evaluation is_reviewed new_case
  make_case db req version_id published_result_id question_evaluation_id = do
    published ← require (find_published db req published_result_id) BenchmarkCode.not_found
    guard (is_published published.status) BenchmarkCode.case_ineligible
    qe ← require (find_evaluation db req question_evaluation_id) BenchmarkCode.not_found
    guard (qe.evaluation_run_id == published.evaluation_run_id) BenchmarkCode.case_ineligible
    guard (is_reviewed qe.workflow_state) BenchmarkCode.case_ineligible
    score ← require qe.final_human_approved_score BenchmarkCode.case_ineligible
    ok (new_case o db req version_id published qe score)

  -- what follows the query for an existing case
  unfoldable pub add_or_reuse :
      BenchmarkStore
      → Request
      → BenchmarkDatasetVersion
      → (published_result_id question_evaluation_id : ℕ) → Option BenchmarkCase
      → Result BenchmarkCode (BenchmarkStore × BenchmarkCase)
  unfolding make_case insert_case
  add_or_reuse db req version published_result_id question_evaluation_id (some case) = ok (db, case)
  add_or_reuse db req version published_result_id question_evaluation_id none =
      make_case db req version.id published_result_id question_evaluation_id >>= λ case.
      ok (insert_case db req version case, case)

  unfoldable pub add_case :
      BenchmarkStore
      → Request
      → (version_id published_result_id question_evaluation_id : ℕ)
      → Result BenchmarkCode (BenchmarkStore × BenchmarkCase)
  unfolding find_version is_locked existing_case add_or_reuse
  add_case db req version_id published_result_id question_evaluation_id = do
    version ← require (find_version db req version_id) BenchmarkCode.not_found
    guard (not (is_locked version.status)) BenchmarkCode.version_locked
    add_or_reuse db req version published_result_id question_evaluation_id
        (existing_case db req version_id question_evaluation_id)

unfoldable pub find_case :
    BenchmarkStore → Request → (version_id case_id : ℕ) → Option BenchmarkCase
unfolding first
find_case db req version_id case_id =
    first
      (λ c. c.id == case_id && (c.tenant_id == req.tenant_id && c.dataset_version_id == version_id))
      db.cases

unfoldable pub delete_case :
    BenchmarkStore → Request → BenchmarkDatasetVersion → BenchmarkCase → BenchmarkStore
unfolding save_version record_event select
delete_case db req version case =
    record_event req case.id "benchmark_case_removed" (BenchmarkPayload.case case) (
      save_version (record version { case_count = version.case_count - 1 })
        (record db { cases = select (λ c. not (c.id == case.id)) db.cases }))

unfoldable pub remove_case :
    BenchmarkStore → Request → (version_id case_id : ℕ) → Result BenchmarkCode BenchmarkStore
unfolding find_version is_locked find_case delete_case
remove_case db req version_id case_id = do
  version ← require (find_version db req version_id) BenchmarkCode.not_found
  guard (not (is_locked version.status)) BenchmarkCode.version_locked
  case ← require (find_case db req version_id case_id) BenchmarkCode.not_found
  ok (delete_case db req version case)

-- `version.content_hash == content_hash`
unfoldable pub has_hash : Option String → String → Bool
has_hash none hash = false
has_hash (some h) hash = str_eq h hash

module _ (o : Digests) where
  -- `_version_content_hash`
  unfoldable pub version_content_hash : BenchmarkDatasetVersion → List BenchmarkCase → String
  unfolding normalize_error_codes
  version_content_hash version cases =
      o.content_hash version.id version.version_number version.threshold_profile_snapshot
        (normalize_error_codes (map (λ (c : BenchmarkCase). c.evidence_hash) cases))

  unfoldable pub locked_version :
      Request → BenchmarkDatasetVersion → List BenchmarkCase → BenchmarkDatasetVersion
  unfolding version_content_hash
  locked_version req version cases = record version {
    status = VersionStatus.locked;
    content_hash = some (version_content_hash version cases);
    locked_by = some req.user_id;
    locked_at = some req.now;
    case_count = length cases;
  }

  unfoldable pub lock_loaded :
      BenchmarkStore
      → Request
      → BenchmarkDatasetVersion
      → List BenchmarkCase
      → VersionStatus
      → Result BenchmarkCode (BenchmarkStore × BenchmarkDatasetVersion)
  unfolding version_content_hash has_hash locked_version save_version record_event
  lock_loaded db req version cases VersionStatus.locked =
      guard (has_hash version.content_hash (version_content_hash version cases))
        BenchmarkCode.version_locked
      >> ok (db, version)
  lock_loaded db req version cases VersionStatus.draft =
      guard (not (length cases == 0)) BenchmarkCode.version_empty
      >> ok (
        record_event req version.id "benchmark_version_locked"
            (BenchmarkPayload.version (locked_version req version cases))
            (save_version (locked_version req version cases) db),
        locked_version req version cases,
      )

  unfoldable pub lock_version :
      BenchmarkStore → Request → ℕ → Result BenchmarkCode (BenchmarkStore × BenchmarkDatasetVersion)
  unfolding find_version cases_of lock_loaded
  lock_version db req version_id = do
    version ← require (find_version db req version_id) BenchmarkCode.not_found
    lock_loaded db req version (cases_of db req version_id) version.status
