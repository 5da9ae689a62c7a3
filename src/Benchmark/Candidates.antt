-- ===== src/Benchmark/Candidates.antt =====
-- The candidates of a regression: ai/providers/benchmark.py.
use Prim.Native.String.{◌++◌ as text_append}
use eduvijna_paper_evaluatio.Prelude.{
  Bool, true, false, not, ◌&&◌, Option, none, some, List, [], ◌∷◌, ◌++◌, map, String, Result, ok,
  err, guard, ◌>>◌, str_eq, is_empty, insert_text, round_half_even, if◌then◌else◌,
}
use eduvijna_paper_evaluatio.Prelude.Int.{ℤ, pos, pos_part, ◌+ℤ◌, ltb_ℤ}
use eduvijna_paper_evaluatio.Publication.Snapshot.{is_empty_list}
use eduvijna_paper_evaluatio.Benchmark.Tables.{BenchmarkCode, Failure, ReplayFixture}

-- `AIExecutionMetadata`
pub record ExecutionMetadata : Type 0 where
  pub provider : String
  pub model : String
  pub model_version : String
  pub prompt_template_version : String

pub record BenchmarkCandidateOutput : Type 0 where
  pub marks : Option ℤ
  pub error_codes : List String
  pub missing_output : Bool
  pub execution_metadata : ExecutionMetadata

-- the fields of `RubricEvaluationResult` that are read
pub record CriterionProposal : Type 0 where
  pub proposed_marks : Option ℤ
  pub error_code : Option String

pub record RubricEvaluationResult : Type 0 where
  pub criterion_proposals : List CriterionProposal
  pub proposed_total : Option ℤ
  pub error_codes : List String

-- What a provider does with a fixture: a result, `ProviderUnavailable`, or another exception, such
-- as that of the validation of the criteria.
pub data Reply : Type 0 where
  result : RubricEvaluationResult → Reply
  unavailable : Reply
  raised : (message : String) → Reply

-- the evaluation provider that the settings select, a service
pub record EvaluationProvider : Type 0 where
  pub provider_name : String
  pub metadata : ExecutionMetadata
  pub evaluate_rubric : ReplayFixture → Reply

pub data FixedModel : Type 0 where
  pass regress invalid : FixedModel

pub data Executor : Type 0 where
  fixed : FixedModel → Executor
  adapter : EvaluationProvider → Executor

unfoldable pub model_name : FixedModel → String
model_name FixedModel.pass = "fixed-benchmark-pass"
model_name FixedModel.regress = "fixed-benchmark-regress"
model_name FixedModel.invalid = "fixed-benchmark-invalid"

-- the member of `CI_FIXTURE_MODELS` with a name
unfoldable pub fixture_model : String → Option FixedModel
unfolding model_name
fixture_model name =
    if str_eq name (model_name FixedModel.pass)
    then some FixedModel.pass
    else if str_eq name (model_name FixedModel.regress)
    then some FixedModel.regress
    else if str_eq name (model_name FixedModel.invalid)
    then some FixedModel.invalid
    else none

-- `FixedBenchmarkProvider.execution_metadata`
unfoldable pub fixed_metadata : FixedModel → ExecutionMetadata
unfolding model_name
fixed_metadata m = record {
  provider = "fixed";
  model = model_name m;
  model_version = "B15_V1";
  prompt_template_version = "fixed-benchmark-v1";
}

-- one mark
abbrev pub one_mark : ℤ
one_mark = pos 10_000

-- `delta`
unfoldable pub regress_delta : (gold_marks max_marks : ℤ) → ℤ
unfolding ◌+ℤ◌ round_half_even
regress_delta gold_marks max_marks =
    if ltb_ℤ max_marks (gold_marks +ℤ one_mark) && ltb_ℤ (pos 0) max_marks
    then pos (round_half_even (pos_part max_marks) 2)
    else one_mark

-- `flipped`
unfoldable pub flipped_codes : List String → List String
flipped_codes [] = "REGRESS_TAXONOMY_MISMATCH" ∷ []
flipped_codes (c ∷ cs) = map (λ (code : String). text_append "REGRESS_" code) (c ∷ cs)

-- `FixedBenchmarkProvider.evaluate_gold_case`; a fixture has both expected marks
unfoldable pub evaluate_gold_case :
    FixedModel → ReplayFixture → List String → BenchmarkCandidateOutput
unfolding fixed_metadata regress_delta flipped_codes ◌+ℤ◌
evaluate_gold_case FixedModel.pass fixture expected_codes = record {
  marks = some fixture.expected_final_marks;
  error_codes = expected_codes;
  missing_output = false;
  execution_metadata = fixed_metadata FixedModel.pass;
}
evaluate_gold_case FixedModel.regress fixture expected_codes = record {
  marks = some (
      fixture.expected_final_marks
      +ℤ regress_delta fixture.expected_final_marks fixture.expected_max_marks);
  error_codes = flipped_codes expected_codes;
  missing_output = false;
  execution_metadata = fixed_metadata FixedModel.regress;
}
evaluate_gold_case FixedModel.invalid fixture expected_codes = record {
  marks = some (fixture.expected_max_marks +ℤ one_mark);
  error_codes = expected_codes;
  missing_output = false;
  execution_metadata = fixed_metadata FixedModel.invalid;
}

-- the codes of the proposals that have one
unfoldable pub proposal_codes : List CriterionProposal → List String
unfolding is_empty
proposal_codes [] = []
proposal_codes (p ∷ ps) =
    let rest = proposal_codes ps in
    elim p.error_code [ some c ↦ if is_empty c then rest else c ∷ rest | none ↦ rest ]

-- `sorted(set(codes))`
unfoldable pub sorted_set : List String → List String
unfolding insert_text
sorted_set [] = []
sorted_set (c ∷ cs) = insert_text c (sorted_set cs)

-- the sum of the proposed marks, if there are any
unfoldable pub proposal_total : List CriterionProposal → Option ℤ
unfolding ◌+ℤ◌
proposal_total [] = none
proposal_total (p ∷ ps) =
    let rest = proposal_total ps in
    elim p.proposed_marks [
      | some m ↦ elim rest [ some total ↦ some (m +ℤ total) | none ↦ some m ]
      | none ↦ rest
    ]

unfoldable pub total_or : Option ℤ → Option ℤ → Option ℤ
total_or (some total) other = some total
total_or none other = other

unfoldable pub is_none {ℓ} : {A : Type ℓ} → Option A → Bool
is_none none = true
is_none (some a) = false

unfoldable pub rubric_result_to_candidate_output :
    RubricEvaluationResult → ExecutionMetadata → BenchmarkCandidateOutput
unfolding proposal_codes sorted_set proposal_total total_or is_none
rubric_result_to_candidate_output r metadata =
    let marks = total_or r.proposed_total (proposal_total r.criterion_proposals) in
    record {
      marks = marks;
      error_codes = sorted_set (r.error_codes ++ proposal_codes r.criterion_proposals);
      missing_output = is_none marks;
      execution_metadata = metadata;
    }

unfoldable pub read_reply : Reply → ExecutionMetadata → Result Failure BenchmarkCandidateOutput
unfolding rubric_result_to_candidate_output
read_reply (Reply.result r) metadata = ok (rubric_result_to_candidate_output r metadata)
read_reply Reply.unavailable metadata =
    err (Failure.benchmark_error BenchmarkCode.candidate_unconfigured)
read_reply (Reply.raised message) metadata = err (Failure.other_exception message)

-- `executor.evaluate_gold_case` of either executor
unfoldable pub execute :
    Executor → ReplayFixture → List String → Result Failure BenchmarkCandidateOutput
unfolding evaluate_gold_case read_reply is_empty_list
execute (Executor.fixed m) fixture expected_codes = ok (evaluate_gold_case m fixture expected_codes)
execute (Executor.adapter p) fixture expected_codes = do
  guard (not (is_empty_list fixture.criterion_snapshot))
      (Failure.benchmark_error BenchmarkCode.replay_invalid)
  read_reply (p.evaluate_rubric fixture) p.metadata
