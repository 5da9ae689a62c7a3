-- ===== src/Grading/ProposalSamples.antt =====
-- A provider's answer to a question of two criteria.
use eduvijna_paper_evaluatio.Prelude.{
  ◌≡◌, refl, false, none, some, List, [], ◌∷◌, String, ok, err, ℕ,
}
use eduvijna_paper_evaluatio.Prelude.Int.{pos}
use eduvijna_paper_evaluatio.Grading.Proposal.{
  EcfPolicy, ScoredCriterion, Proposal, ProviderResult, reject, validate_provider_result,
}
use eduvijna_paper_evaluatio.Grading.Proposal.Settled.{Settled}

abbrev criterion : ℕ → String → ScoredCriterion
criterion id code = record {
  id = id;
  criterion_code = code;
  description = code;
  max_marks = pos 10_000;
  ecf_policy = EcfPolicy.no_ecf;
}

abbrev rubric : List ScoredCriterion
rubric = criterion 200 "M" ∷ criterion 201 "A" ∷ []

abbrev award : ℕ → ℕ → Proposal
award id marks = record {
  rubric_criterion_id = id;
  decision = "AWARDED";
  proposed_marks = some (pos marks);
  error_code = none;
  deduction_reason = none;
  ecf_source_criterion_id = none;
}

abbrev answer : List Proposal → ProviderResult
answer proposals = record {
  criterion_proposals = proposals;
  proposed_total = some (pos 15_000);
  evaluation_confidence = some (pos 9_000);
  first_divergence_step = none;
  alternative_method_id = none;
  alternative_method_label = none;
  ecf_applied = false;
  error_codes = "SIGN" ∷ [];
  deduction_reasons = [];
}

whole :
    validate_provider_result (answer (award 200 10_000 ∷ award 201 5_000 ∷ [])) rubric (pos 20_000)
    ≡ ok (some (pos 15_000))
unfolding validate_provider_result
whole = refl

-- a criterion twice, and one above its maximum
repeated :
    validate_provider_result (answer (award 200 10_000 ∷ award 200 5_000 ∷ [])) rubric (pos 20_000)
    ≡ err reject
unfolding validate_provider_result
repeated = refl

above : validate_provider_result (answer (award 200 15_000 ∷ [])) rubric (pos 20_000) ≡ err reject
unfolding validate_provider_result
above = refl
