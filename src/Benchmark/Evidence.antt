-- ===== src/Benchmark/Evidence.antt =====
-- The evidence of a case: transcriptions, the replay fixture and the row, of benchmark.py.
use Prim.Native.String.{◌++◌ as text_append}
use eduvijna_paper_evaluatio.Prelude.{
  ℕ, Bool, false, ◌&&◌, ◌||◌, ◌==◌, Option, none, some, List, [], ◌∷◌, String, first, strip,
  is_empty, has_text, if◌then◌else◌,
}
use eduvijna_paper_evaluatio.Prelude.Int.{ℤ}
use eduvijna_paper_evaluatio.Grading.Ledger.{QuestionEvaluation}
use eduvijna_paper_evaluatio.Grading.Published.{PublishedResult}
use eduvijna_paper_evaluatio.Grading.Store.{Request}
use eduvijna_paper_evaluatio.Benchmark.Tables.{
  Thresholds, ReplayFixture, BenchmarkCase, Transcription, BenchmarkStore,
}
use eduvijna_paper_evaluatio.Benchmark.Compare.{normalize_error_codes}

-- What the cases take from outside: the UUID in a reference to a transcription, and SHA-256 of the
-- evidence of a case and of the content of a version.
pub record Digests : Type 0 where
  pub transcription_id : String → Option ℕ
  pub evidence_hash :
      (published_result_id question_evaluation_id : ℕ)
      → (expected_final_marks expected_max_marks : ℤ) → (expected_error_codes : List String)
      → (source_ledger_hash : String) → (criterion_snapshot : List String) → String
  pub content_hash :
      (version_id version_number : ℕ) → Thresholds → (case_evidence_hashes : List String) → String

-- `"\n".join(texts)`
unfoldable pub join_lines : List String → String
join_lines [] = ""
join_lines (t ∷ []) = t
join_lines (t ∷ u ∷ us) = text_append t (text_append "\n" (join_lines (u ∷ us)))

unfoldable pub find_transcription : BenchmarkStore → Request → Option ℕ → Option Transcription
unfolding first
find_transcription db req none = none
find_transcription db req (some id) =
    first (λ t. t.id == id && t.tenant_id == req.tenant_id) db.transcriptions

-- a text that is there and not empty comes before the others
unfoldable pub add_text : Option String → List String → List String
unfolding is_empty
add_text none texts = texts
add_text (some t) texts = if is_empty t then texts else t ∷ texts

-- the texts of the references, and whether one is unreadable
unfoldable pub add_transcription : Option Transcription → List String × Bool → List String × Bool
unfolding add_text
add_transcription none (texts, unreadable) = (texts, unreadable)
add_transcription (some row) (texts, unreadable) =
    (add_text row.text texts, row.unreadable || unreadable)

module _ (o : Digests) where
  unfoldable pub read_transcriptions : BenchmarkStore → Request → List String → List String × Bool
  unfolding find_transcription add_transcription
  read_transcriptions db req [] = ([], false)
  read_transcriptions db req (ref ∷ refs) =
      add_transcription (find_transcription db req (o.transcription_id ref))
        (read_transcriptions db req refs)

  -- `_load_transcription_text`
  unfoldable pub load_transcription_text :
      BenchmarkStore → Request → QuestionEvaluation → String × Bool
  unfolding read_transcriptions join_lines has_text
  load_transcription_text db req qe =
      let (texts, unreadable) = read_transcriptions db req qe.evidence.transcription_refs in
      (join_lines texts, unreadable || has_text qe.error_codes "UNREADABLE")

  unfoldable pub build_replay_fixture : QuestionEvaluation → String × Bool → ℤ → ReplayFixture
  unfolding strip is_empty normalize_error_codes
  build_replay_fixture qe (transcription_text, unreadable) expected_final_marks = record {
    question_version_id = qe.question_version_id;
    assessment_version_id = qe.evidence.assessment_version_id;
    rubric_version_id = qe.evidence.rubric_version_id;
    criterion_snapshot = qe.evidence.criterion_snapshot;
    transcription_text = transcription_text;
    blank_flag = is_empty (strip transcription_text);
    unreadable_flag = unreadable;
    expected_final_marks = expected_final_marks;
    expected_max_marks = qe.max_mark;
    expected_error_codes = normalize_error_codes qe.error_codes;
    max_mark = qe.max_mark;
    evidence_metadata = qe.evidence.evidence_metadata;
  }

  unfoldable pub new_case :
      BenchmarkStore → Request → ℕ → PublishedResult → QuestionEvaluation → ℤ → BenchmarkCase
  unfolding load_transcription_text build_replay_fixture normalize_error_codes
  new_case db req version_id published qe score = record {
    id = req.uuid4 0;
    tenant_id = req.tenant_id;
    dataset_version_id = version_id;
    published_result_id = published.id;
    evaluation_run_id = qe.evaluation_run_id;
    question_evaluation_id = qe.id;
    question_version_id = qe.question_version_id;
    rubric_version_id = qe.evidence.rubric_version_id;
    assessment_version_id = qe.evidence.assessment_version_id;
    expected_final_marks = score;
    expected_max_marks = qe.max_mark;
    expected_error_codes = normalize_error_codes qe.error_codes;
    source_ledger_hash = published.ledger_snapshot_hash;
    evidence_hash =
        o.evidence_hash published.id qe.id score qe.max_mark (normalize_error_codes qe.error_codes)
          published.ledger_snapshot_hash qe.evidence.criterion_snapshot;
    adjudicated_by = some req.user_id;
    adjudicated_at = req.now;
    replay_fixture = build_replay_fixture qe (load_transcription_text db req qe) score;
  }
