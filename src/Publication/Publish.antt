-- ===== src/Publication/Publish.antt =====
-- `publish_result`, and what its consumers read.
use eduvijna_paper_evaluatio.Prelude.{
  ℕ, Bool, true, false, not, Option, none, some, List, [], ◌∷◌, ◌++◌, map, String, Result, ok, err,
  guard, require, ◌>>=◌, ◌>>◌, ◌==◌, ◌&&◌, str_eq, is_empty, has_text, first, select, if◌then◌else◌,
}
use eduvijna_paper_evaluatio.Grading.Ledger.{SubmissionState, Submission}
use eduvijna_paper_evaluatio.Grading.Moderation.Decide.{load_submission}
use eduvijna_paper_evaluatio.Grading.Grievance.{is_published}
use eduvijna_paper_evaluatio.Grading.Published.{PublishedStatus, PublishedResult, Artifact, Report}
use eduvijna_paper_evaluatio.Grading.Store.{Request, Payload, add_audit_event}
use eduvijna_paper_evaluatio.Publication.Tables.{
  PublicationCode, Stage, JobKey, PipelineJob, OutboundEvent, WebhookEndpoint, StoredObject,
  Database, Outside,
}
use eduvijna_paper_evaluatio.Publication.Snapshot.{is_approved, load_approved_ledger_snapshot}
use eduvijna_paper_evaluatio.Publication.Results.{
  newest_result, results_where, load_result, save_result, save_state, audit_result, same_key,
  new_job, add_job, get_bytes,
}

unfoldable pub is_generated : PublishedStatus → Bool
is_generated PublishedStatus.generated = true
is_generated _ = false

-- `if not key or not expected`
unfoldable pub expected_digest : Option String → Result PublicationCode String
unfolding is_empty
expected_digest none = err PublicationCode.artifact_missing
expected_digest (some digest) =
    guard (not (is_empty digest)) PublicationCode.artifact_missing >> ok digest

module _ (o : Outside) where
  -- the body of `for key, expected in artifact_specs`
  unfoldable pub verify_artifact : List StoredObject → Artifact → Result PublicationCode Unit
  unfolding expected_digest get_bytes
  verify_artifact objects a = do
    key ← require a.s3_key PublicationCode.artifact_missing
    expected ← expected_digest a.sha256
    body ← get_bytes objects key
    guard (str_eq (o.sha256 body) expected) PublicationCode.artifact_hash_mismatch

  unfoldable pub verify_artifacts : List StoredObject → List Artifact → Result PublicationCode Unit
  unfolding verify_artifact
  verify_artifacts objects [] = ok tt
  verify_artifacts objects (a ∷ rest) =
      let others = verify_artifacts objects rest in verify_artifact objects a >> others

  -- the checks before the first write
  unfoldable pub check_publishable :
      Database → Request → PublishedResult → Result PublicationCode Submission
  unfolding is_published is_generated load_submission is_approved load_approved_ledger_snapshot
      verify_artifacts
  check_publishable db req published = do
    guard (not (is_published published.status)) PublicationCode.already_published
    guard (is_generated published.status) PublicationCode.not_generated
    submission ←
        require (load_submission db.store req published.submission_id) PublicationCode.not_found
    guard (is_approved submission.workflow_state) PublicationCode.invalid_workflow_state
    loaded ← load_approved_ledger_snapshot db.store req submission
    guard (str_eq (o.snapshot_digest loaded.canonical) published.ledger_snapshot_hash)
        PublicationCode.stale_snapshot
    verify_artifacts db.objects (
        published.annotated_pdf ∷ published.student_report ∷ published.parent_report
        ∷ published.teacher_report ∷ [])
    ok submission

-- `if prior is not None and prior.status == "PUBLISHED"`
unfoldable pub supersede_prior : Request → ℕ → Option PublishedResult → Database → Database
unfolding is_published save_result audit_result
supersede_prior req published_id none db = db
supersede_prior req published_id (some prior) db =
    if is_published prior.status
    then audit_result req prior.id "publication_superseded" (Payload.supersession published_id)
        (save_result (record prior { status = PublishedStatus.superseded }) db)
    else db

unfoldable pub prior_result : Database → Request → Option ℕ → Option PublishedResult
unfolding load_result
prior_result db req none = none
prior_result db req (some id) = load_result db req id

unfoldable pub stamp : ℕ → Report → Report
stamp now report = record report { published_at = some now }

unfoldable pub stamped : Request → PublishedResult → PublishedResult
unfolding stamp
stamped req r = record r {
  status = PublishedStatus.published;
  published_by = some req.user_id;
  published_at = some req.now;
  student_report_payload = stamp req.now r.student_report_payload;
  parent_report_payload = stamp req.now r.parent_report_payload;
  teacher_report_payload = stamp req.now r.teacher_report_payload;
}

-- `ensure_analytics_job` of analytics.py

unfoldable pub analytics_job : Database → Request → ℕ → Option PipelineJob
unfolding first same_key
analytics_job db req published_id =
    first
      (λ j.
        j.tenant_id == req.tenant_id && same_key j.idempotency_key (JobKey.analytics published_id))
      db.jobs

unfoldable pub ensure_job :
    Database → Request → PublishedResult → Option PipelineJob → Database × PipelineJob
unfolding new_job add_job add_audit_event
ensure_job db req published (some existing) = (db, existing)
ensure_job db req published none =
    let job =
      new_job req (req.uuid4 0) published.submission_id Stage.analytics
        (JobKey.analytics published.id) in
    let added = add_job job db in
    (
      record added {
        store =
            add_audit_event req none "PublishedResult" published.id "analytics_job_ensured"
              (Payload.analytics job.id) added.store;
      },
      job,
    )

unfoldable pub ensure_analytics_job :
    Database → Request → PublishedResult → Result PublicationCode (Database × PipelineJob)
unfolding is_published analytics_job ensure_job
ensure_analytics_job db req published =
    guard (is_published published.status) PublicationCode.not_published
    >> ok (ensure_job db req published (analytics_job db req published.id))

-- `record_outbound_event` of webhooks.py

unfoldable pub new_event : Request → PublishedResult → OutboundEvent
new_event req published = record {
  id = req.uuid4 1;
  tenant_id = req.tenant_id;
  event_type = "result.published";
  occurred_at = req.now;
  source_entity_id = published.id;
  source_version = some published.version_number;
  total_score = published.total_score;
  max_total_score = published.max_total_score;
}

unfoldable pub subscribers : Database → Request → String → List WebhookEndpoint
unfolding select has_text
subscribers db req event_type =
    select (λ e. has_text e.event_types_json event_type)
      (select (λ e. e.tenant_id == req.tenant_id && e.enabled) db.endpoints)

unfoldable pub record_outbound_event : Database → Request → OutboundEvent → Database
unfolding subscribers
record_outbound_event db req event = record db {
  outbound_events = db.outbound_events ++ event ∷ [];
  deliveries =
      db.deliveries
      ++ map (λ e. record { endpoint_id = e.id; event_id = event.id; next_attempt_at = req.now })
          (subscribers db req event.event_type);
}

-- the writes
unfoldable pub write_published : Database → Request → PublishedResult → Submission → Database
unfolding supersede_prior prior_result save_result stamped save_state audit_result
write_published db req published submission =
    audit_result req published.id "publication_published"
      (Payload.published submission.id published.ledger_snapshot_hash)
      (save_state submission.id SubmissionState.published (
        save_result (stamped req published) (
          supersede_prior req published.id (prior_result db req published.supersedes_result_id)
            db)))

-- from the writes to the end
unfoldable pub conclude_publication :
    Database
    → Request
    → PublishedResult
    → Submission
    → Result PublicationCode (Database × PublishedResult × PipelineJob)
unfolding write_published ensure_analytics_job record_outbound_event new_event stamped
conclude_publication db req published submission = do
  ensured ←
      ensure_analytics_job (write_published db req published submission) req (stamped req published)
  ok (
    record_outbound_event ensured.0 req (new_event req (stamped req published)),
    stamped req published,
    ensured.1,
  )

module _ (o : Outside) where
  unfoldable pub publish_result :
      Database → Request → ℕ → Result PublicationCode (Database × PublishedResult × PipelineJob)
  unfolding load_result check_publishable conclude_publication
  publish_result db req published_result_id = do
    published ← require (load_result db req published_result_id) PublicationCode.not_found
    submission ← check_publishable o db req published
    conclude_publication db req published submission

-- what consumers read

unfoldable pub get_published_result_for_consumer :
    Database → Request → ℕ → Result PublicationCode PublishedResult
unfolding newest_result results_where is_published
get_published_result_for_consumer db req submission_id =
    require (newest_result (results_where db req submission_id (λ r. is_published r.status)))
      PublicationCode.not_found
