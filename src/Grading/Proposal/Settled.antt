-- ===== src/Grading/Proposal/Settled.antt =====
-- The row that an outcome of the provider leaves.
use eduvijna_paper_evaluatio.Prelude.{◌≡◌, ◌⊎◌, ◌↔◌, false, Option, some, none, List, ok, meets}
use eduvijna_paper_evaluatio.Prelude.Int.{ℤ}
use eduvijna_paper_evaluatio.Grading.Ledger.{QeState, QuestionEvaluation}
use eduvijna_paper_evaluatio.Grading.Proposal.{
  ScoredCriterion, ProviderResult, review_blocking_codes, validate_provider_result, Outcome,
}
use eduvijna_paper_evaluatio.Grading.Proposal.Valid.{Valid}

-- A valid result with a total, a confidence and no code that blocks.
pub record Accepted (criteria : List ScoredCriterion) (max_mark : ℤ) (outcome : Outcome)
    (score : Option ℤ) : Type 0 where
  pub result : ProviderResult
  pub total : ℤ
  pub confidence : ℤ
  pub is_answer : outcome ≡ Outcome.answered result
  pub validated : validate_provider_result result criteria max_mark ≡ ok (some total)
  pub valid : Valid result criteria max_mark total
  pub unblocked : meets result.error_codes review_blocking_codes ≡ false
  pub confident : result.evaluation_confidence ≡ some confidence
  pub score_is_total : score ≡ some total

-- The row has the final score that it had; it is PROPOSED or REVIEW_REQUIRED; and a score that it
-- proposes is the total of a valid result.
pub record Settled (qe : QuestionEvaluation) (criteria : List ScoredCriterion) (max_mark : ℤ)
    (outcome : Outcome) (row : QuestionEvaluation) : Type 0 where
  pub final : row.final_human_approved_score ≡ qe.final_human_approved_score
  pub maximum : row.max_mark ≡ qe.max_mark
  pub state :
      (row.workflow_state ≡ QeState.proposed) ⊎ (row.workflow_state ≡ QeState.review_required)
  pub proposed :
      (row.workflow_state ≡ QeState.proposed)
      ↔ Accepted criteria max_mark outcome row.proposed_ai_score
  pub scored :
      (row.proposed_ai_score ≡ none)
      ⊎ ((r : ProviderResult) × (t : ℤ) × (outcome ≡ Outcome.answered r)
          × Valid r criteria max_mark t
          × (row.proposed_ai_score ≡ some t))
