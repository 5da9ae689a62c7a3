-- ===== src/Publication/Results.antt =====
-- Queries and writes on the published results, the jobs, the storage and the outbox.
use eduvijna_paper_evaluatio.Prelude.{
  ℕ, Bool, true, false, Option, none, some, List, [], ◌∷◌, ◌++◌, String, Result, ok, err, ◌==◌,
  ◌&&◌, ◌||◌, select, first, update, ltb, str_eq, if◌then◌else◌,
}
use eduvijna_paper_evaluatio.Grading.Ledger.{SubmissionState}
use eduvijna_paper_evaluatio.Grading.Published.{PublishedResult, ExportKey}
use eduvijna_paper_evaluatio.Grading.Store.{Request, Payload, add_audit_event}
use eduvijna_paper_evaluatio.Publication.Tables.{
  PublicationCode, Stage, JobStatus, JobKey, PipelineJob, StoredObject, Database,
}

-- `order_by(version_number.desc()).limit(1)`
unfoldable pub newer_result : PublishedResult → Option PublishedResult → PublishedResult
newer_result r none = r
newer_result r (some s) = if ltb r.version_number s.version_number then s else r

unfoldable pub newest_result : List PublishedResult → Option PublishedResult
unfolding newer_result
newest_result [] = none
newest_result (r ∷ rs) = some (newer_result r (newest_result rs))

-- the results of the submission that pass a test
unfoldable pub results_where :
    Database → Request → ℕ → (PublishedResult → Bool) → List PublishedResult
unfolding select
results_where db req submission_id test =
    select (λ r. r.tenant_id == req.tenant_id && (r.submission_id == submission_id && test r))
      db.store.published_results

-- `func.max(version_number)`, of no rows 0
unfoldable pub max_version : List PublishedResult → ℕ
max_version [] = 0
max_version (r ∷ rs) =
    let rest = max_version rs in if ltb r.version_number rest then rest else r.version_number

unfoldable pub load_result : Database → Request → ℕ → Option PublishedResult
unfolding first
load_result db req id =
    first (λ r. r.id == id && r.tenant_id == req.tenant_id) db.store.published_results

unfoldable pub add_result : PublishedResult → Database → Database
add_result r db = record db {
  store = record db.store { published_results = db.store.published_results ++ r ∷ [] };
}

unfoldable pub save_result : PublishedResult → Database → Database
unfolding update
save_result r db = record db {
  store = record db.store {
    published_results = update (λ x. x.id == r.id) (λ x. r) db.store.published_results;
  };
}

unfoldable pub save_state : ℕ → SubmissionState → Database → Database
unfolding update
save_state submission_id state db = record db {
  store = record db.store {
    submissions =
        update (λ s. s.id == submission_id) (λ s. record s { workflow_state = state })
          db.store.submissions;
  };
}

unfoldable pub audit_result : Request → ℕ → String → Payload → Database → Database
unfolding add_audit_event
audit_result req id action after db = record db {
  store = add_audit_event req (some req.user_id) "PublishedResult" id action after db.store;
}

-- the jobs

unfoldable pub same_key : JobKey → JobKey → Bool
same_key (JobKey.publication s v) (JobKey.publication t w) = s == t && v == w
same_key (JobKey.analytics r) (JobKey.analytics q) = r == q
same_key (JobKey.publication s v) (JobKey.analytics r) = false
same_key (JobKey.analytics r) (JobKey.publication s v) = false

unfoldable pub is_publication : Stage → Bool
is_publication Stage.publication = true
is_publication Stage.analytics = false

unfoldable pub publication_job :
    Database → Request → (submission_id version_number : ℕ) → Option PipelineJob
unfolding first is_publication same_key
publication_job db req submission_id version_number =
    first
      (λ j.
        j.tenant_id == req.tenant_id
        && (j.submission_id == submission_id
            && (is_publication j.stage
                && same_key j.idempotency_key (JobKey.publication submission_id version_number))))
      db.jobs

unfoldable pub new_job : Request → ℕ → ℕ → Stage → JobKey → PipelineJob
new_job req id submission_id stage key = record {
  id = id;
  tenant_id = req.tenant_id;
  submission_id = submission_id;
  stage = stage;
  status = JobStatus.queued;
  attempt = 1;
  idempotency_key = key;
  error_code = none;
  started_at = none;
  finished_at = none;
}

unfoldable pub add_job : PipelineJob → Database → Database
add_job j db = record db { jobs = db.jobs ++ j ∷ [] }

unfoldable pub update_job : ℕ → (PipelineJob → PipelineJob) → Database → Database
unfolding update
update_job id f db = record db { jobs = update (λ j. j.id == id) f db.jobs }

-- the storage

unfoldable pub same_export : ExportKey → ExportKey → Bool
same_export a b =
    a.tenant_id == b.tenant_id
    && (a.submission_id == b.submission_id
        && (a.version == b.version && str_eq a.filename b.filename))

unfoldable pub get_bytes : List StoredObject → ExportKey → Result PublicationCode String
unfolding same_export
get_bytes [] key = err PublicationCode.storage_not_found
get_bytes (o ∷ os) key =
    let rest = get_bytes os key in if same_export o.key key then ok o.body else rest

-- `exists`
unfoldable pub holds : List StoredObject → ExportKey → Bool
unfolding same_export
holds [] key = false
holds (o ∷ os) key = same_export o.key key || holds os key
