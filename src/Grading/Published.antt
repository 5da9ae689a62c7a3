-- ===== src/Grading/Published.antt =====
-- The tables of db/models/publication.py, but for the annotations, and the pipeline jobs.
-- The PDF files and the JSON of the reports are texts; messages of failures are left out.
use eduvijna_paper_evaluatio.Prelude.{ℕ, Option, none, String}
use eduvijna_paper_evaluatio.Prelude.Int.{ℤ}

pub data PublishedStatus : Type 0 where
  ready generating generated published failed superseded : PublishedStatus

-- `publication_export_key`, a text with these parts
pub record ExportKey : Type 0 where
  pub tenant_id : ℕ
  pub submission_id : ℕ
  pub version : ℕ
  pub filename : String

-- `..._s3_key`, `..._sha256` and `..._byte_size`
pub record Artifact : Type 0 where
  pub s3_key : Option ExportKey
  pub sha256 : Option String
  pub byte_size : Option ℕ

-- the JSON of a report: its `published_at`, and the rest
pub record Report : Type 0 where
  pub content : String
  pub published_at : Option ℕ

pub record PublishedResult : Type 0 where
  pub id : ℕ
  pub tenant_id : ℕ
  pub submission_id : ℕ
  pub student_id : Option ℕ
  pub assessment_id : ℕ
  pub assessment_version_id : ℕ
  pub evaluation_run_id : ℕ
  pub version_number : ℕ
  pub status : PublishedStatus
  pub ledger_snapshot_hash : String
  pub total_score : ℤ
  pub max_total_score : ℤ
  pub annotated_pdf : Artifact
  pub student_report : Artifact
  pub student_report_payload : Report
  pub parent_report : Artifact
  pub parent_report_payload : Report
  pub teacher_report : Artifact
  pub teacher_report_payload : Report
  pub narrative_source : Option String
  pub generated_by : Option ℕ
  pub generated_at : Option ℕ
  pub published_by : Option ℕ
  pub published_at : Option ℕ
  pub failure_code : Option String
  pub supersedes_result_id : Option ℕ

-- an artifact and a report that are not yet there
abbrev pub no_artifact : Artifact
no_artifact = record { s3_key = none; sha256 = none; byte_size = none }

abbrev pub no_report : Report
no_report = record { content = ""; published_at = none }
