-- ===== src/Publication/Pipeline.antt =====
-- `run_publication_pipeline`: the job that makes the artifacts of a version.
pub mod Waiting
pub mod Made
pub mod Failure
use Prim.Native.Char.{code}
use eduvijna_paper_evaluatio.Grading.Moderation.Decide.{load_submission}
use eduvijna_paper_evaluatio.Grading.Ledger.{SubmissionState, Submission}
use eduvijna_paper_evaluatio.Publication.Snapshot.{
  Loaded, is_approved, load_approved_ledger_snapshot, reconcile_totals,
}
use eduvijna_paper_evaluatio.Prelude.{
  str_eq, guard, ◌>>=◌, some, ◌>>◌, none, ℕ, Bool, true, false, Option, List, [], ◌∷◌, ◌++◌, String,
  Result, ok, err, ◌==◌, ◌&&◌, first, if◌then◌else◌,
}
use eduvijna_paper_evaluatio.Grading.Published.{
  Artifact, PublishedStatus, PublishedResult, ExportKey,
}
use eduvijna_paper_evaluatio.Grading.Store.{Request}
use eduvijna_paper_evaluatio.Publication.Tables.{
  code_text, JobStatus, Outside, Rendering, PublicationCode, PipelineJob, StoredObject, Database,
}
use eduvijna_paper_evaluatio.Publication.Results.{
  save_state, get_bytes, update_job, save_result, newest_result, results_where, holds,
}

-- `status in ["READY", "GENERATING", "FAILED"]`
unfoldable pub is_waiting : PublishedStatus → Bool
is_waiting PublishedStatus.ready = true
is_waiting PublishedStatus.generating = true
is_waiting PublishedStatus.failed = true
is_waiting _ = false

unfoldable pub waiting_result : Database → Request → ℕ → Option PublishedResult
unfolding newest_result results_where is_waiting
waiting_result db req submission_id =
    newest_result (results_where db req submission_id (λ r. is_waiting r.status))

unfoldable pub load_job : Database → Request → ℕ → Option PipelineJob
unfolding first
load_job db req id = first (λ j. j.id == id && j.tenant_id == req.tenant_id) db.jobs

-- the storage and the outcome of a step that writes it
abbrev pub Stored : Type 0 → Type 0
Stored A = List StoredObject × Result PublicationCode A

-- `put_export_bytes`: write-once
unfoldable pub put_export_bytes : List StoredObject → ExportKey → String → Stored Unit
unfolding holds
put_export_bytes objects key body =
    if holds objects key
    then (objects, err PublicationCode.storage_immutability)
    else (objects ++ record { key = key; body = body } ∷ [], ok tt)

abbrev continue_with : Stored Unit → (List StoredObject → Stored Unit) → Stored Unit
continue_with (objects, err raised) next = (objects, err raised)
continue_with (objects, ok done) next = next objects

-- `for name, (data, filename) in artifacts.items()`
unfoldable pub put_all : List StoredObject → List (ExportKey × String) → Stored Unit
unfolding put_export_bytes
put_all objects [] = (objects, ok tt)
put_all objects ((key, body) ∷ rest) =
    continue_with (put_export_bytes objects key body) (λ next. put_all next rest)

-- `bytes.startswith`
unfoldable pub starts_with : String → String → Bool
starts_with text String.[] = true
starts_with String.[] (String.◌∷◌ c prefix) = false
starts_with (String.◌∷◌ d text) (String.◌∷◌ c prefix) = code d == code c && starts_with text prefix

unfoldable pub artifact : (String → ℕ) → (String → String) → ExportKey → String → Artifact
artifact byte_size sha256 key body = record {
  s3_key = some key;
  sha256 = some (sha256 body);
  byte_size = some (byte_size body);
}

unfoldable pub export_key : PublishedResult → String → ExportKey
export_key r filename = record {
  tenant_id = r.tenant_id;
  submission_id = r.submission_id;
  version = r.version_number;
  filename = filename;
}

unfoldable pub artifacts : PublishedResult → Rendering → List (ExportKey × String)
unfolding export_key
artifacts r made =
    (export_key r "annotated-paper.pdf", made.annotated_pdf)
    ∷ (export_key r "student-report.pdf", made.student_pdf)
    ∷ (export_key r "parent-report.pdf", made.parent_pdf)
    ∷ (export_key r "teacher-report.pdf", made.teacher_pdf)
    ∷ []

module _ (o : Outside) where
  -- `for name, key in keys.items()`
  unfoldable pub reread_all :
      List StoredObject → List (ExportKey × String) → Result PublicationCode Unit
  unfolding get_bytes starts_with
  reread_all objects [] = ok tt
  reread_all objects ((key, body) ∷ rest) =
      let others = reread_all objects rest in
      get_bytes objects key >>= λ reread.
      guard (str_eq (o.sha256 reread) (o.sha256 body)) PublicationCode.artifact_hash_mismatch
      >> (guard (starts_with reread "%PDF") PublicationCode.invalid_pdf >> others)

  -- the row after step 12
  unfoldable pub generated : PublishedResult → Rendering → PublishedResult
  unfolding artifact export_key
  generated r made = record r {
    annotated_pdf =
        artifact o.byte_size o.sha256 (export_key r "annotated-paper.pdf") made.annotated_pdf;
    student_report =
        artifact o.byte_size o.sha256 (export_key r "student-report.pdf") made.student_pdf;
    student_report_payload = made.student_payload;
    parent_report =
        artifact o.byte_size o.sha256 (export_key r "parent-report.pdf") made.parent_pdf;
    parent_report_payload = made.parent_payload;
    teacher_report =
        artifact o.byte_size o.sha256 (export_key r "teacher-report.pdf") made.teacher_pdf;
    teacher_report_payload = made.teacher_payload;
    narrative_source = some made.narrative_source;
    generated_at = some made.generated_at;
    status = PublishedStatus.generated;
  }

  -- steps 1 to 3
  unfoldable pub verify :
      Database
      → Request
      → Submission
      → PublishedResult
      → Result PublicationCode (PublishedResult × Loaded)
  unfolding is_approved load_approved_ledger_snapshot reconcile_totals
  verify db req submission published = do
    guard (is_approved submission.workflow_state) PublicationCode.invalid_workflow_state
    loaded ← load_approved_ledger_snapshot db.store req submission
    guard (str_eq (o.snapshot_digest loaded.canonical) published.ledger_snapshot_hash)
        PublicationCode.snapshot_mismatch
    totals ← reconcile_totals loaded.qes
    ok (record published { total_score = totals.0; max_total_score = totals.1 }, loaded)

  -- steps 4 to 10
  unfoldable pub make :
      Database
      → Request
      → Submission
      → PublishedResult
      → Result PublicationCode (PublishedResult × Rendering)
  unfolding verify
  make db req submission published = do
    checked ← verify db req submission published
    made ← o.render checked.0 checked.1.qes
    ok (checked.0, made)

  unfoldable pub store_artifacts :
      List StoredObject → PublishedResult → Rendering → Stored PublishedResult
  unfolding put_all artifacts reread_all generated
  store_artifacts objects r made =
      let (stored, put) = put_all objects (artifacts r made) in
      (stored, put >> (reread_all stored (artifacts r made) >> ok (generated r made)))

  -- steps 11 and 12, once the PDFs are made
  unfoldable pub store_made :
      List StoredObject
      → Result PublicationCode (PublishedResult × Rendering)
      → Stored PublishedResult
  unfolding store_artifacts
  store_made objects (err raised) = (objects, err raised)
  store_made objects (ok (r, made)) = store_artifacts objects r made

  -- the body of `try`
  unfoldable pub attempt :
      Database → Request → Submission → PublishedResult → Stored PublishedResult
  unfolding make store_made
  attempt db req submission published = store_made db.objects (make db req submission published)

unfoldable pub finish_job : Request → JobStatus → Option String → PipelineJob → PipelineJob
finish_job req status error_code j = record j {
  status = status;
  error_code = error_code;
  finished_at = some req.now;
}

-- the end of `try`, or `except Exception`: the rollback leaves the storage
unfoldable pub settle_attempt :
    Database
    → Request
    → Submission
    → PublishedResult
    → (job_id : ℕ) → Stored PublishedResult
    → Database
unfolding save_result update_job finish_job save_state code_text
settle_attempt db req submission published job_id (objects, ok made) =
    update_job job_id (λ j. record j { status = JobStatus.succeeded; finished_at = some req.now })
      (save_result made (record db { objects = objects }))
settle_attempt db req submission published job_id (objects, err raised) =
    save_state submission.id SubmissionState.approved (
      save_result
        (record published {
          status = PublishedStatus.failed;
          failure_code = some (code_text raised);
        })
        (update_job job_id (finish_job req JobStatus.failed (some (code_text raised)))
          (record db { objects = objects })))

-- what is committed before `try`
unfoldable pub start_job : Request → ℕ → PublishedResult → Database → Database
unfolding save_result update_job
start_job req job_id r db =
    save_result r (
      update_job job_id (λ j. record j { status = JobStatus.running; started_at = some req.now })
        db)

unfoldable pub generating : PublishedResult → PublishedResult
generating r = record r { status = PublishedStatus.generating; failure_code = none }

module _ (o : Outside) where
  unfoldable pub run_waiting :
      Database → Request → Submission → (job_id : ℕ) → Option PublishedResult → Database
  unfolding finish_job update_job start_job generating attempt settle_attempt
  run_waiting db req submission job_id none =
      update_job job_id (finish_job req JobStatus.failed (some "PUBLISHED_RESULT_MISSING")) db
  run_waiting db req submission job_id (some published) =
      let started = start_job req job_id (generating published) db in
      settle_attempt started req submission (generating published) job_id
        (attempt o started req submission (generating published))

  -- `if job is None or submission is None: return`
  unfoldable pub run_loaded :
      Database → Request → (job_id : ℕ) → Option PipelineJob → Option Submission → Database
  unfolding waiting_result run_waiting
  run_loaded db req job_id none submission = db
  run_loaded db req job_id (some job) none = db
  run_loaded db req job_id (some job) (some submission) =
      run_waiting db req submission job_id (waiting_result db req submission.id)

  unfoldable pub run_publication_pipeline :
      Database → Request → (submission_id job_id : ℕ) → Database
  unfolding load_job load_submission run_loaded
  run_publication_pipeline db req submission_id job_id =
      run_loaded db req job_id (load_job db req job_id) (load_submission db.store req submission_id)
