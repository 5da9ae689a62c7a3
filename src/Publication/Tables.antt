-- ===== src/Publication/Tables.antt =====
-- The tables that publication writes beside those of grading, its errors, and what it takes from
-- outside.
use eduvijna_paper_evaluatio.Prelude.{Result, ℕ, Bool, Option, List, String}
use eduvijna_paper_evaluatio.Prelude.Int.{ℤ}
use eduvijna_paper_evaluatio.Grading.Ledger.{QeState, QuestionEvaluation}
use eduvijna_paper_evaluatio.Grading.Store.{Store}
use eduvijna_paper_evaluatio.Grading.Published.{PublishedResult, Report, ExportKey}

-- the codes of `PublicationError`, that of `AnalyticsError`, and the errors of the storage by name
pub data PublicationCode : Type 0 where
  invalid_workflow_state evaluation_run_missing ledger_empty ledger_incomplete final_score_missing
        total_mismatch total_out_of_range snapshot_mismatch not_found already_published
        not_generated stale_snapshot artifact_missing artifact_hash_mismatch
        published_result_missing invalid_audience not_ready invalid_pdf not_published pages_missing
        page_image_missing assessment_missing invalid_report_payload storage_not_found
        storage_immutability :
      PublicationCode

-- `exc.code`
unfoldable pub code_text : PublicationCode → String
code_text PublicationCode.invalid_workflow_state = "INVALID_WORKFLOW_STATE"
code_text PublicationCode.evaluation_run_missing = "EVALUATION_RUN_MISSING"
code_text PublicationCode.ledger_empty = "LEDGER_EMPTY"
code_text PublicationCode.ledger_incomplete = "LEDGER_INCOMPLETE"
code_text PublicationCode.final_score_missing = "FINAL_SCORE_MISSING"
code_text PublicationCode.total_mismatch = "TOTAL_MISMATCH"
code_text PublicationCode.total_out_of_range = "TOTAL_OUT_OF_RANGE"
code_text PublicationCode.snapshot_mismatch = "SNAPSHOT_MISMATCH"
code_text PublicationCode.not_found = "NOT_FOUND"
code_text PublicationCode.already_published = "ALREADY_PUBLISHED"
code_text PublicationCode.not_generated = "NOT_GENERATED"
code_text PublicationCode.stale_snapshot = "STALE_SNAPSHOT"
code_text PublicationCode.artifact_missing = "ARTIFACT_MISSING"
code_text PublicationCode.artifact_hash_mismatch = "ARTIFACT_HASH_MISMATCH"
code_text PublicationCode.published_result_missing = "PUBLISHED_RESULT_MISSING"
code_text PublicationCode.invalid_audience = "INVALID_AUDIENCE"
code_text PublicationCode.not_ready = "NOT_READY"
code_text PublicationCode.not_published = "NOT_PUBLISHED"
code_text PublicationCode.pages_missing = "PAGES_MISSING"
code_text PublicationCode.page_image_missing = "PAGE_IMAGE_MISSING"
code_text PublicationCode.assessment_missing = "ASSESSMENT_MISSING"
code_text PublicationCode.invalid_report_payload = "INVALID_REPORT_PAYLOAD"
code_text PublicationCode.invalid_pdf = "INVALID_PDF"
code_text PublicationCode.storage_not_found = "StorageNotFoundError"
code_text PublicationCode.storage_immutability = "StorageImmutabilityError"

-- the entries of `canonical`
pub record CriterionSnapshot : Type 0 where
  pub rubric_criterion_id : ℕ
  pub criterion_code : String
  pub final_marks : Option ℤ
  pub max_marks : ℤ
  pub decision : String

pub record QuestionSnapshot : Type 0 where
  pub question_evaluation_id : ℕ
  pub question_version_id : ℕ
  pub workflow_state : QeState
  pub final_human_approved_score : ℤ
  pub max_mark : ℤ
  pub criteria : List CriterionSnapshot

pub record Canonical : Type 0 where
  pub evaluation_run_id : ℕ
  pub submission_id : ℕ
  pub assessment_version_id : ℕ
  pub questions : List QuestionSnapshot

pub data Stage : Type 0 where
  publication analytics : Stage

pub data JobStatus : Type 0 where
  queued running succeeded failed : JobStatus

-- the texts `publication:{submission}:v{version}` and `analytics:{result}:{algorithm}`
pub data JobKey : Type 0 where
  publication : (submission_id version_number : ℕ) → JobKey
  analytics : (published_result_id : ℕ) → JobKey

pub record PipelineJob : Type 0 where
  pub id : ℕ
  pub tenant_id : ℕ
  pub submission_id : ℕ
  pub stage : Stage
  pub status : JobStatus
  pub attempt : ℕ
  pub idempotency_key : JobKey
  pub error_code : Option String
  pub started_at : Option ℕ
  pub finished_at : Option ℕ

-- the `result.published` events of webhooks.py, with the columns of their payload
pub record OutboundEvent : Type 0 where
  pub id : ℕ
  pub tenant_id : ℕ
  pub event_type : String
  pub occurred_at : ℕ
  pub source_entity_id : ℕ
  pub source_version : Option ℕ
  pub total_score : ℤ
  pub max_total_score : ℤ

pub record WebhookEndpoint : Type 0 where
  pub id : ℕ
  pub tenant_id : ℕ
  pub enabled : Bool
  pub event_types_json : List String

pub record WebhookDelivery : Type 0 where
  pub endpoint_id : ℕ
  pub event_id : ℕ
  pub next_attempt_at : ℕ

-- an object of the storage
pub record StoredObject : Type 0 where
  pub key : ExportKey
  pub body : String

-- `objects` is the object storage, which no rollback undoes.
pub record Database : Type 0 where
  pub store : Store
  pub jobs : List PipelineJob
  pub outbound_events : List OutboundEvent
  pub endpoints : List WebhookEndpoint
  pub deliveries : List WebhookDelivery
  pub objects : List StoredObject

-- what the steps from the pages to the validated reports make
pub record Rendering : Type 0 where
  pub annotated_pdf : String
  pub student_pdf : String
  pub student_payload : Report
  pub parent_pdf : String
  pub parent_payload : Report
  pub teacher_pdf : String
  pub teacher_payload : Report
  pub narrative_source : String
  pub generated_at : ℕ

-- What publication takes from outside: SHA-256 of the JSON of a snapshot and of the bytes of a
-- file, the number of these bytes, and the drawing of the annotated paper and the reports.
pub record Outside : Type 0 where
  pub snapshot_digest : Canonical → String
  pub sha256 : String → String
  pub byte_size : String → ℕ
  pub render : PublishedResult → List QuestionEvaluation → Result PublicationCode Rendering
