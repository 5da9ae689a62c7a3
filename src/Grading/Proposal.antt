-- ===== src/Grading/Proposal.antt =====
-- What an answer of the evaluation provider makes of a row of the ledger: `validate_provider_result`
-- of evaluation.py, and the part of `_evaluate_one_leaf` from the provider's reply to the rows of
-- criteria. A mark is a number of ten-thousandths, and so is a confidence.

pub mod Valid
pub mod Settled
use eduvijna_paper_evaluatio.Prelude.{
  ℕ, ◌+◌, Bool, true, false, not, ◌&&◌, ◌||◌, ◌==◌, leb, Option, none, some, List, [], ◌∷◌, map,
  String, Result, ok, err, guard, require, ◌>>=◌, ◌>>◌, first, all, contains, has_text, meets,
  if◌then◌else◌,
}
use eduvijna_paper_evaluatio.Prelude.Int.{ℤ, pos, pos_part, neg_part, ◌+ℤ◌, ◌-ℤ◌, ltb_ℤ}
use eduvijna_paper_evaluatio.Grading.Ledger.{QeState, QuestionEvaluation}

-- `ALL_ERROR_CODES`
abbrev pub all_error_codes : List String
all_error_codes =
    "CONCEPT" ∷ "FORMULA" ∷ "METHOD" ∷ "CALCULATION" ∷ "ALGEBRA" ∷ "SIGN" ∷ "SUBSTITUTION"
    ∷ "NOTATION" ∷ "UNIT" ∷ "DIAGRAM" ∷ "INTERPRETATION" ∷ "INCOMPLETE" ∷ "LOGIC_REASONING"
    ∷ "PRESENTATION" ∷ "FINAL_ANSWER" ∷ "UNREADABLE" ∷ "OCR_TRANSCRIPTION" ∷ "QUESTION_MAPPING"
    ∷ "IDENTITY_MAPPING" ∷ "VALID_ALTERNATIVE" ∷ "RUBRIC_AMBIGUITY" ∷ "OTHER_REVIEW_REQUIRED" ∷ []

-- `REVIEW_BLOCKING_ERROR_CODES`
abbrev pub review_blocking_codes : List String
review_blocking_codes =
    "UNREADABLE" ∷ "OCR_TRANSCRIPTION" ∷ "QUESTION_MAPPING" ∷ "IDENTITY_MAPPING"
    ∷ "RUBRIC_AMBIGUITY" ∷ "OTHER_REVIEW_REQUIRED" ∷ []

pub data EcfPolicy : Type 0 where
  no_ecf allow_method_credit custom_review : EcfPolicy

-- the columns of `rubric_criteria` that are read
pub record ScoredCriterion : Type 0 where
  pub id : ℕ
  pub criterion_code : String
  pub description : String
  pub max_marks : ℤ
  pub ecf_policy : EcfPolicy

-- `CriterionProposal`
pub record Proposal : Type 0 where
  pub rubric_criterion_id : ℕ
  pub decision : String
  pub proposed_marks : Option ℤ
  pub error_code : Option String
  pub deduction_reason : Option String
  pub ecf_source_criterion_id : Option ℕ

-- `RubricEvaluationResult`
pub record ProviderResult : Type 0 where
  pub criterion_proposals : List Proposal
  pub proposed_total : Option ℤ
  pub evaluation_confidence : Option ℤ
  pub first_divergence_step : Option ℤ
  pub alternative_method_id : Option String
  pub alternative_method_label : Option String
  pub ecf_applied : Bool
  pub error_codes : List String
  pub deduction_reasons : List String

-- every rejection has this code
abbrev pub reject : String
reject = "OTHER_REVIEW_REQUIRED"

unfoldable pub is_known : String → Bool
unfolding has_text
is_known code = has_text all_error_codes code

unfoldable pub is_known_or_none : Option String → Bool
unfolding is_known
is_known_or_none none = true
is_known_or_none (some code) = is_known code

-- `0 <= x <= high`, of a number that is there
unfoldable pub is_within : ℤ → Option ℤ → Bool
is_within high none = true
is_within high (some x) = not (ltb_ℤ x (pos 0) || ltb_ℤ high x)

unfoldable pub has_no_ecf : ScoredCriterion → Bool
has_no_ecf c = elim c.ecf_policy [
  | EcfPolicy.no_ecf ↦ true
  | EcfPolicy.allow_method_credit ↦ false
  | EcfPolicy.custom_review ↦ false
]

unfoldable pub has_source : Proposal → Bool
has_source p = elim p.ecf_source_criterion_id [ some id ↦ true | none ↦ false ]

-- `by_id[id]`, identifiers being primary keys
unfoldable pub criterion_of : List ScoredCriterion → ℕ → Option ScoredCriterion
unfolding first
criterion_of criteria id = first (λ c. c.id == id) criteria

-- error carried forward where the rubric does not allow it
unfoldable pub breaks_ecf : List ScoredCriterion → Bool → ScoredCriterion → Proposal → Bool
unfolding has_no_ecf has_source all
breaks_ecf criteria ecf_applied c p =
    (has_source p || ecf_applied)
    && ((has_no_ecf c && has_source p) || (ecf_applied && all has_no_ecf criteria))

-- the body of `for prop in result.criterion_proposals`
unfoldable pub check_proposal :
    List ScoredCriterion → Bool → (seen : List ℕ) → Proposal → Result String (Unit {0})
unfolding criterion_of contains is_known_or_none is_within breaks_ecf
check_proposal criteria ecf_applied seen p = do
  c ← require (criterion_of criteria p.rubric_criterion_id) reject
  guard (not (contains seen p.rubric_criterion_id)) reject
  guard (is_known_or_none p.error_code) reject
  guard (is_within c.max_marks p.proposed_marks) reject
  guard (not (breaks_ecf criteria ecf_applied c p)) reject

-- `recomputed` and `any_null`
unfoldable pub add_marks : Option ℤ → ℤ × Bool → ℤ × Bool
unfolding ◌+ℤ◌
add_marks none (recomputed, any_null) = (recomputed, true)
add_marks (some marks) (recomputed, any_null) = (marks +ℤ recomputed, any_null)

unfoldable pub check_proposals :
    List ScoredCriterion → Bool → (seen : List ℕ) → List Proposal → Result String (ℤ × Bool)
unfolding check_proposal add_marks
check_proposals criteria ecf_applied seen [] = ok (pos 0, false)
check_proposals criteria ecf_applied seen (p ∷ ps) =
    let rest = check_proposals criteria ecf_applied (p.rubric_criterion_id ∷ seen) ps in
    check_proposal criteria ecf_applied seen p >>= λ u.
    rest >>= λ sums. ok (add_marks p.proposed_marks sums)

-- the total must be the provider's, to 0.0001
unfoldable pub is_close : ℤ → ℤ → Bool
unfolding ◌-ℤ◌
is_close a b = leb (pos_part (a -ℤ b) + neg_part (a -ℤ b)) 1

unfoldable pub conclude_total : ℤ → Option ℤ → ℤ × Bool → Result String (Option ℤ)
unfolding is_close
conclude_total max_mark proposed_total (recomputed, true) = ok none
conclude_total max_mark none (recomputed, false) = ok none
conclude_total max_mark (some proposed_total) (recomputed, false) = do
  guard (not (ltb_ℤ max_mark recomputed)) reject
  guard (is_close proposed_total recomputed) reject
  ok (some recomputed)

-- The total, or none where marks are missing; an error is a result that is not ok.
unfoldable pub validate_provider_result :
    ProviderResult → List ScoredCriterion → (max_mark : ℤ) → Result String (Option ℤ)
unfolding is_within is_known all check_proposals has_no_ecf conclude_total
validate_provider_result r criteria max_mark = do
  guard (is_within (pos 10_000) r.evaluation_confidence) reject
  guard (all is_known r.error_codes) reject
  sums ← check_proposals criteria r.ecf_applied [] r.criterion_proposals
  guard (not (r.ecf_applied && all has_no_ecf criteria)) reject
  conclude_total max_mark r.proposed_total sums

-- what the call of the provider comes to: a result, or an exception, which the metadata note
pub data Outcome : Type 0 where
  answered : ProviderResult → Outcome
  failed : (evidence_metadata : String) → Outcome

-- the row of the ledger where the outcome cannot be used
unfoldable pub unusable : QuestionEvaluation → QuestionEvaluation
unusable qe = record qe {
  proposed_ai_score = none;
  evidence = record qe.evidence { evaluation_confidence = none };
  error_codes = reject ∷ [];
  workflow_state = QeState.review_required;
}

unfoldable pub is_absent {ℓ} : {A : Type ℓ} → Option A → Bool
is_absent none = true
is_absent (some a) = false

unfoldable pub needs_review : ProviderResult → Option ℤ → Bool
unfolding is_absent meets
needs_review r recomputed =
    is_absent recomputed
    || (meets r.error_codes review_blocking_codes || is_absent r.evaluation_confidence)

unfoldable pub usable : QuestionEvaluation → ProviderResult → Option ℤ → QuestionEvaluation
unfolding needs_review
usable qe r recomputed = record qe {
  proposed_ai_score = recomputed;
  evidence = record qe.evidence {
    evaluation_confidence = r.evaluation_confidence;
    first_divergence_step = r.first_divergence_step;
    ecf_applied = r.ecf_applied;
    alternative_method_id = r.alternative_method_id;
    alternative_method_label = r.alternative_method_label;
    deduction_reasons = r.deduction_reasons;
  };
  error_codes = r.error_codes;
  workflow_state = if needs_review r recomputed then QeState.review_required else QeState.proposed;
}

-- the proposals that are written for an outcome that cannot be used
unfoldable pub unreadable_proposal : ScoredCriterion → Proposal
unreadable_proposal c = record {
  rubric_criterion_id = c.id;
  decision = "UNREADABLE";
  proposed_marks = none;
  error_code = some reject;
  deduction_reason = none;
  ecf_source_criterion_id = none;
}

unfoldable pub settle_validated :
    QuestionEvaluation
    → List ScoredCriterion
    → ProviderResult
    → Result String (Option ℤ)
    → QuestionEvaluation × List Proposal
unfolding unusable usable unreadable_proposal
settle_validated qe criteria r (err code) = (unusable qe, map unreadable_proposal criteria)
settle_validated qe criteria r (ok recomputed) = (usable qe r recomputed, r.criterion_proposals)

-- The row after the outcome, and the proposals that become rows of criteria.
unfoldable pub settle_outcome :
    QuestionEvaluation
    → List ScoredCriterion
    → (max_mark : ℤ) → Outcome
    → QuestionEvaluation × List Proposal
unfolding validate_provider_result settle_validated unusable unreadable_proposal
settle_outcome qe criteria max_mark (Outcome.answered r) =
    settle_validated qe criteria r (validate_provider_result r criteria max_mark)
settle_outcome qe criteria max_mark (Outcome.failed metadata) = (
  unusable (record qe { evidence = record qe.evidence { evidence_metadata = metadata } }),
  map unreadable_proposal criteria,
)
