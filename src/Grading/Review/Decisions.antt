-- ===== src/Grading/Review/Decisions.antt =====
-- What the review keeps true of the ledger, whatever is reviewed in whatever order.
use eduvijna_paper_evaluatio.Grading.Review.Ownership.{
  IsGoverning, IsGovernance, governing_item, no_override, not_assigned, review_row_needs_ownership,
}
use eduvijna_paper_evaluatio.Grading.Work.{GradingWorkItem}
use eduvijna_paper_evaluatio.Grading.Access.{assert_question_evaluation_review_allowed, allowed_by}
use eduvijna_paper_evaluatio.Prelude.{
  sym, arith, ℕ, ◌≡◌, ◌∙◌, Option, none, some, ok, All, All-update, first-All, FirstOf, ◌≢◌,
  first-test, &&-eq-true, err, refl, ◌==◌,
}
use eduvijna_paper_evaluatio.Prelude.Int.{ℤ, pos, ◌≤ℤ◌}
use eduvijna_paper_evaluatio.Grading.Ledger.{QeState, QuestionEvaluation}
use eduvijna_paper_evaluatio.Grading.Store.{Store, Request, grading_assignment_forbidden}
use eduvijna_paper_evaluatio.Grading.Review.{
  is_escalated, Review, review, load_qe, enforce_grading_ownership,
}
use eduvijna_paper_evaluatio.Grading.Review.Recorded.{SameProposal, Decides, review-Recorded}

pub data ReviewStep (db after : Store) : Type 0 where
  reviewed :
      (req : Request) (qe_id : ℕ) (action : Review)
      → review db req qe_id action ≡ ok after
      → ReviewStep db after

pub data Reviews (db : Store) : Store → Type 0 where
  none_yet : Reviews db db
  then_one : {mid after : Store} → Reviews db mid → ReviewStep mid after → Reviews db after

-- A row counts a score exactly as its state says: none before a decision, the proposal itself
-- when accepted, a score from 0 to the maximum when overridden.
abbrev DecidedAs : QeState → ℤ → Option ℤ → Option ℤ → Type 0
DecidedAs QeState.accepted top proposed final = (s : ℤ) × (proposed ≡ some s) × (final ≡ some s)
DecidedAs QeState.overridden top proposed final =
    (s : ℤ) × (final ≡ some s) × (pos 0 ≤ℤ s) × (s ≤ℤ top)
DecidedAs QeState.escalated top proposed final = Unit
DecidedAs _ top proposed final = final ≡ none

abbrev pub IsDecided : QuestionEvaluation → Type 0
IsDecided qe =
    DecidedAs qe.workflow_state qe.max_mark qe.proposed_ai_score qe.final_human_approved_score

module _ {qe changed : QuestionEvaluation} where
  IsDecided-Decides :
      (action : Review)
      → IsDecided qe
      → SameProposal changed qe
      → Decides action qe changed
      → IsDecided changed
  IsDecided-Decides Review.accept h same (state, final, (s, proposal), fresh, calm) =
      rw state (s, same.proposed_ai_score ∙ proposal, final ∙ proposal)
  IsDecided-Decides (Review.override o) h same (state, final, low, high, calm) =
      rw state (o.score, final, low, rw same.max_mark high)
  IsDecided-Decides (Review.feedback text) h same (state, final) =
      rw (state, final, same.max_mark, same.proposed_ai_score) h
  IsDecided-Decides (Review.escalate reason) h same (state, final) = rw state tt

ledger_step :
    {db after : Store}
    → ReviewStep db after
    → All IsDecided db.question_evaluations
    → All IsDecided after.question_evaluations
unfolding load_qe
ledger_step {db} (reviewed req qe_id action h) decided =
    let (qe, found, r) = review-Recorded db req qe_id action _ h in
    rw r.written (
      All-update IsDecided _ db.question_evaluations
        (IsDecided-Decides action (first-All IsDecided _ db.question_evaluations found decided)
          r.same_proposal r.decides)
        decided)

-- If every row of the ledger counts a score as its state says - none while it is undecided, the
-- AI's proposal if it is accepted, one between 0 and the maximum if it is overridden - then every
-- row still does after any reviews by anyone in any order.
pub ledger_stays-IsDecided :
    {db after : Store}
    → Reviews db after
    → All IsDecided db.question_evaluations
    → All IsDecided after.question_evaluations
ledger_stays-IsDecided none_yet h = h
ledger_stays-IsDecided (then_one before last) h = ledger_step last (ledger_stays-IsDecided before h)

-- Every row with the identifier is escalated.
abbrev pub EscalatedAt : ℕ → QuestionEvaluation → Type 0
EscalatedAt k r = r.id ≡ k → r.workflow_state ≡ QeState.escalated

EscalatedAt-Decides :
    {qe changed : QuestionEvaluation} (k : ℕ) (action : Review)
    → EscalatedAt k qe
    → SameProposal changed qe
    → Decides action qe changed
    → EscalatedAt k changed
unfolding is_escalated
EscalatedAt-Decides k Review.accept h same (state, final, proposal, fresh, calm) e =
    ground (arith, h (sym same.id ∙ e))
EscalatedAt-Decides k (Review.override o) h same (state, final, low, high, calm) e =
    ground (arith, h (sym same.id ∙ e))
EscalatedAt-Decides k (Review.feedback text) h same (state, final) e = state ∙ h (sym same.id ∙ e)
EscalatedAt-Decides k (Review.escalate reason) h same (state, final) e = state

escalated_step :
    {db after : Store} (k : ℕ)
    → ReviewStep db after
    → All (EscalatedAt k) db.question_evaluations
    → All (EscalatedAt k) after.question_evaluations
unfolding load_qe
escalated_step {db} k (reviewed req qe_id action h) escalated =
    let (qe, found, r) = review-Recorded db req qe_id action _ h in
    rw r.written (
      All-update (EscalatedAt k) _ db.question_evaluations
        (EscalatedAt-Decides k action
          (first-All (EscalatedAt k) _ db.question_evaluations found escalated) r.same_proposal
          r.decides)
        escalated)

-- A question evaluation that is escalated is escalated for good: no sequence of reviews, by
-- whoever makes them, takes the rows with its identifier out of that state.
pub escalated_is_final :
    {db after : Store} (k : ℕ)
    → Reviews db after
    → All (EscalatedAt k) db.question_evaluations
    → All (EscalatedAt k) after.question_evaluations
escalated_is_final k none_yet h = h
escalated_is_final k (then_one before last) h =
    escalated_step k last (escalated_is_final k before h)

-- While a work item of the tenant that is not COMPLETED governs a question evaluation, the first
-- such item that the database returns, every kind of review of it by someone other than the item's
-- assignee is refused as forbidden, whatever else the request holds, unless the caller has both a
-- governance role - INSTITUTION_ADMIN, EXAM_CONTROLLER, HOD or ACADEMIC_COORDINATOR - and the
-- permission grading:manage.
pub review_needs_ownership :
    (db : Store) (req : Request) (qe_id : ℕ) (action : Review) {qe : QuestionEvaluation}
    {item : GradingWorkItem}
    → load_qe db req qe_id ≡ some qe
    → FirstOf (IsGoverning req qe.id) item db.work_items
    → item.assigned_evaluator_id ≢ req.user_id
    → ¬ IsGovernance req
    → review db req qe_id action ≡ err grading_assignment_forbidden
unfolding review load_qe enforce_grading_ownership assert_question_evaluation_review_allowed
    allowed_by
review_needs_ownership db req qe_id action {qe} {item} found governed other not_governance =
    let (same_id, tenant) =
      &&-eq-true (qe.id == qe_id) (qe.tenant_id == req.tenant_id)
        (first-test _ db.question_evaluations found) in
    rw found (
      review_row_needs_ownership db req action qe (
        rw
          (
            tenant,
            governing_item db req qe.id governed,
            not_assigned item.assigned_evaluator_id req.user_id other,
            no_override req not_governance,
          )
          refl))
