-- ===== src/Publication/Prepare.antt =====
-- `prepare_publication` and `regenerate_publication`: a new version of a result, and its job.
pub mod Twice
use eduvijna_paper_evaluatio.Prelude.{
  ℕ, suc, Bool, true, false, not, Option, none, some, String, Result, ok, guard, require, ◌>>=◌,
  ◌>>◌, ◌==◌, ◌&&◌, str_eq,
}
use eduvijna_paper_evaluatio.Prelude.Int.{ℤ}
use eduvijna_paper_evaluatio.Grading.Ledger.{Submission}
use eduvijna_paper_evaluatio.Grading.Published.{
  PublishedStatus, PublishedResult, no_artifact, no_report,
}
use eduvijna_paper_evaluatio.Grading.Store.{Request, Payload}
use eduvijna_paper_evaluatio.Grading.Moderation.Decide.{load_submission}
use eduvijna_paper_evaluatio.Grading.Grievance.{is_published}
use eduvijna_paper_evaluatio.Publication.Tables.{
  PublicationCode, Stage, JobKey, PipelineJob, Database, Outside,
}
use eduvijna_paper_evaluatio.Publication.Snapshot.{
  Loaded, is_approved, load_approved_ledger_snapshot, reconcile_totals,
}
use eduvijna_paper_evaluatio.Publication.Results.{
  newest_result, results_where, max_version, load_result, add_result, audit_result, publication_job,
  new_job, add_job,
}

-- `status in ["READY", "GENERATING", "GENERATED", "PUBLISHED"]`
unfoldable pub is_current : PublishedStatus → Bool
is_current PublishedStatus.failed = false
is_current PublishedStatus.superseded = false
is_current _ = true

unfoldable pub existing_result :
    Database → Request → Submission → ℕ → String → Option PublishedResult
unfolding newest_result results_where is_current
existing_result db req submission run_id snapshot_hash = newest_result (
    results_where db req submission.id (λ r.
      r.evaluation_run_id == run_id
      && (str_eq r.ledger_snapshot_hash snapshot_hash && is_current r.status)))

-- `current_published`
unfoldable pub current_published : Database → Request → ℕ → Option PublishedResult
unfolding newest_result results_where is_published
current_published db req submission_id =
    newest_result (results_where db req submission_id (λ r. is_published r.status))

unfoldable pub result_id : Option PublishedResult → Option ℕ
result_id none = none
result_id (some r) = some r.id

-- the columns that both functions give a new row
unfoldable pub new_result :
    Request → Submission → Loaded → (ℤ × ℤ) → String → ℕ → Option ℕ → PublishedResult
new_result req submission loaded (total, max_total) snapshot_hash version_number supersedes =
    record {
      id = req.uuid4 0;
      tenant_id = req.tenant_id;
      submission_id = submission.id;
      student_id = submission.student_id;
      assessment_id = submission.assessment_id;
      assessment_version_id = submission.assessment_version_id;
      evaluation_run_id = loaded.run.id;
      version_number = version_number;
      status = PublishedStatus.ready;
      ledger_snapshot_hash = snapshot_hash;
      total_score = total;
      max_total_score = max_total;
      annotated_pdf = no_artifact;
      student_report = no_artifact;
      student_report_payload = no_report;
      parent_report = no_artifact;
      parent_report_payload = no_report;
      teacher_report = no_artifact;
      teacher_report_payload = no_report;
      narrative_source = none;
      generated_by = some req.user_id;
      generated_at = none;
      published_by = none;
      published_at = none;
      failure_code = none;
      supersedes_result_id = supersedes;
    }

pub record Prepared : Type 0 where
  pub db : Database
  pub result : PublishedResult
  pub job : Option PipelineJob

-- the row, its job and the audit event
unfoldable pub enqueue : Database → Request → PublishedResult → String → Payload → Prepared
unfolding new_job add_result add_job audit_result
enqueue db req result action after =
    let job =
      new_job req (req.uuid4 1) result.submission_id Stage.publication
        (JobKey.publication result.submission_id result.version_number) in
    record {
      db = audit_result req result.id action after (add_job job (add_result result db));
      result = result;
      job = some job;
    }

-- what follows `if existing is not None`
unfoldable pub prepare_version :
    Database → Request → Submission → Loaded → (ℤ × ℤ) → String → Option PublishedResult → Prepared
unfolding enqueue new_result max_version results_where current_published result_id publication_job
prepare_version db req submission loaded totals snapshot_hash (some existing) = record {
  db = db;
  result = existing;
  job = publication_job db req submission.id existing.version_number;
}
prepare_version db req submission loaded totals snapshot_hash none =
    let version_number = suc (max_version (results_where db req submission.id (λ r. true))) in
    enqueue db req
      (new_result req submission loaded totals snapshot_hash version_number
        (result_id (current_published db req submission.id)))
      "publication_prepared" (Payload.publication submission.id version_number snapshot_hash)

module _ (o : Outside) where
  unfoldable pub prepare_publication :
      Database → Request → Submission → Result PublicationCode Prepared
  unfolding is_approved load_approved_ledger_snapshot reconcile_totals existing_result
      prepare_version
  prepare_publication db req submission = do
    guard (is_approved submission.workflow_state) PublicationCode.invalid_workflow_state
    loaded ← load_approved_ledger_snapshot db.store req submission
    let snapshot_hash = o.snapshot_digest loaded.canonical
    totals ← reconcile_totals loaded.qes
    ok (
        prepare_version db req submission loaded totals snapshot_hash
          (existing_result db req submission loaded.run.id snapshot_hash))

  unfoldable pub regenerate_publication : Database → Request → ℕ → Result PublicationCode Prepared
  unfolding load_result is_published load_submission is_approved load_approved_ledger_snapshot
      reconcile_totals enqueue new_result
  regenerate_publication db req published_result_id = do
    current ← require (load_result db req published_result_id) PublicationCode.not_found
    guard (not (is_published current.status)) PublicationCode.already_published
    submission ←
        require (load_submission db.store req current.submission_id)
          PublicationCode.invalid_workflow_state
    guard (is_approved submission.workflow_state) PublicationCode.invalid_workflow_state
    loaded ← load_approved_ledger_snapshot db.store req submission
    totals ← reconcile_totals loaded.qes
    let version_number = suc current.version_number
    ok (
        enqueue db req
          (new_result req submission loaded totals (o.snapshot_digest loaded.canonical)
            version_number (some current.id))
          "publication_regenerated" (Payload.regeneration current.id version_number))
