-- ===== src/Publication/SampleScript.antt =====
-- A script that is approved, with a digest that tells its snapshot from the others.
use native.Mathlib.Decide.{ℕ_discrete}
use eduvijna_paper_evaluatio.Prelude.{
  ◌≡◌, refl, none, some, List, [], ◌∷◌, String, ok, inl, inr, str_eq, eq_iff, Bool-cases,
}
use eduvijna_paper_evaluatio.Prelude.Int.{ℤ, pos}
use eduvijna_paper_evaluatio.Grading.Ledger.{
  QeState, RunStatus, SubmissionState, Submission, QuestionEvaluation,
}
use eduvijna_paper_evaluatio.Grading.Published.{
  PublishedStatus, PublishedResult, no_artifact, no_report,
}
use eduvijna_paper_evaluatio.Grading.Samples.{question, desk, script_run}
use eduvijna_paper_evaluatio.Publication.Tables.{
  CriterionSnapshot, QuestionSnapshot, Canonical, Database, Outside,
}

-- Snapshots compare by their parts.

ℤ-discrete : Discrete ℤ
ℤ-discrete = hlevel ℕ_discrete

QeState-discrete : Discrete QeState
QeState-discrete = hlevel

String-discrete : Discrete String
String-discrete s t = elim (Bool-cases (str_eq s t)) [
  | inl same ↦ yes ((eq_iff s t).0 same)
  | inr other ↦ no (λ e. cc ((eq_iff s t).1 e))
]

list_heads {ℓ} :
    {A : Type ℓ} {x y : A} {xs ys : List A}
    → Dec (x ≡ y)
    → Dec (xs ≡ ys)
    → Dec ((x ∷ xs) ≡ (y ∷ ys))
list_heads (yes p) (yes q) = yes (λ i. p i ∷ q i)
list_heads (yes p) (no n) = no (λ e. n cc)
list_heads (no n) q = no (λ e. n cc)

list_discrete {ℓ} : {A : Type ℓ} → Discrete A → Discrete (List A)
list_discrete d [] [] = yes refl
list_discrete d [] (y ∷ ys) = no (λ e. cc)
list_discrete d (x ∷ xs) [] = no (λ e. cc)
list_discrete d (x ∷ xs) (y ∷ ys) = list_heads (d x y) (list_discrete d xs ys)

CriterionSnapshot-discrete : Discrete CriterionSnapshot
CriterionSnapshot-discrete = hlevel (ℕ_discrete, ℤ-discrete, String-discrete)

QuestionSnapshot-discrete : Discrete QuestionSnapshot
QuestionSnapshot-discrete =
    hlevel (ℕ_discrete, ℤ-discrete, QeState-discrete, list_discrete, CriterionSnapshot-discrete)

Canonical-discrete : Discrete Canonical
Canonical-discrete = hlevel (ℕ_discrete, list_discrete, QuestionSnapshot-discrete)

-- the snapshot of the script below
abbrev pub approved_snapshot : Canonical
approved_snapshot = record {
  evaluation_run_id = 10;
  submission_id = 50;
  assessment_version_id = 21;
  questions =
      record {
        question_evaluation_id = 100;
        question_version_id = 31;
        workflow_state = QeState.accepted;
        final_human_approved_score = pos 15_000;
        max_mark = pos 20_000;
        criteria = [];
      }
      ∷ [];
}

digest_of {ℓ} : {A : Type ℓ} → Dec A → String
digest_of (yes same) = "approved"
digest_of (no other) = "other"

unfoldable pub digest : Canonical → String
unfolding digest_of Canonical-discrete QuestionSnapshot-discrete CriterionSnapshot-discrete
    String-discrete QeState-discrete ℤ-discrete ℕ_discrete list_discrete list_heads
digest c = digest_of (Canonical-discrete c approved_snapshot)

pub digest_iff : (c : Canonical) → digest c ≡ "approved" → c ≡ approved_snapshot
unfolding digest digest_of
digest_iff c h =
    elim (Canonical-discrete c approved_snapshot)
        as (λ d. digest_of d ≡ "approved" → c ≡ approved_snapshot) [
          | yes same ↦ λ e. same
          | no other ↦ λ e. cc ((eq_iff "other" "approved").1 e)
        ]
      h

abbrev pub outside : Outside
outside = record {
  snapshot_digest = digest;
  sha256 = λ body. body;
  byte_size = λ body. 9;
  render = λ r qes. ok (record {
    annotated_pdf = "%PDF-1.4 paper";
    student_pdf = "%PDF-1.4 student";
    student_payload = record { content = "{}"; published_at = none };
    parent_pdf = "%PDF-1.4 parent";
    parent_payload = record { content = "{}"; published_at = none };
    teacher_pdf = "%PDF-1.4 teacher";
    teacher_payload = record { content = "{}"; published_at = none };
    narrative_source = "RULES_FALLBACK";
    generated_at = 1000;
  });
}

abbrev pub script : Submission
script = record {
  id = 50;
  tenant_id = 1;
  student_id = some 60;
  assessment_id = 20;
  assessment_version_id = 21;
  workflow_state = SubmissionState.approved;
}

abbrev pub approved_question : QuestionEvaluation
approved_question = record (question 100 31 QeState.accepted) {
  final_human_approved_score = some (pos 15_000);
}

abbrev pub office : Database
office = record {
  store = record desk {
    submissions = script ∷ [];
    runs = record script_run { status = RunStatus.completed } ∷ [];
    question_evaluations = approved_question ∷ [];
    criteria = [];
    work_items = [];
  };
  jobs = [];
  outbound_events = [];
  endpoints = [];
  deliveries = [];
  objects = [];
}

abbrev pub version : PublishedStatus → PublishedResult
version status = record {
  id = 500;
  tenant_id = 1;
  submission_id = 50;
  student_id = some 60;
  assessment_id = 20;
  assessment_version_id = 21;
  evaluation_run_id = 10;
  version_number = 1;
  status = status;
  ledger_snapshot_hash = "approved";
  total_score = pos 15_000;
  max_total_score = pos 20_000;
  annotated_pdf = no_artifact;
  student_report = no_artifact;
  student_report_payload = no_report;
  parent_report = no_artifact;
  parent_report_payload = no_report;
  teacher_report = no_artifact;
  teacher_report_payload = no_report;
  narrative_source = none;
  generated_by = some 9;
  generated_at = none;
  published_by = none;
  published_at = none;
  failure_code = none;
  supersedes_result_id = none;
}
