-- ===== src/Grading/Review/Recorded.antt =====
-- What a review that succeeds has checked and written.
use eduvijna_paper_evaluatio.Prelude.{
  Bool, false, strip, is_blank, map, select, ℕ, ◌≡◌, sym, refl, true, not, Option, some, List, [],
  ◌∷◌, ◌++◌, ok, guard, require, >>=-eq-ok, require-eq-ok, guard-eq-ok, ok-injective, ◌==◌, update,
  arith, String,
}
use eduvijna_paper_evaluatio.Prelude.Int.{ℤ, pos, ◌≤ℤ◌, ltb_ℤ}
use eduvijna_paper_evaluatio.Grading.Ledger.{
  is_reviewed, ActionType, QeState, QuestionEvaluation, CriterionEvaluation, ReviewAction,
  qe_before_snapshot,
}
use eduvijna_paper_evaluatio.Grading.Store.{Store, Request}
use eduvijna_paper_evaluatio.Grading.Access.{
  allowed_by, get_governing_work_item, assert_question_evaluation_review_allowed,
}
use eduvijna_paper_evaluatio.Grading.Criteria.{settle}
use eduvijna_paper_evaluatio.Grading.Review.{
  is_escalated, is_criterion_of, accept_marks, Code, Result, Review, Override, review, review_row,
  load_qe, enforce_grading_ownership, record_review, accept_question_evaluation,
  override_question_evaluation, feedback_question_evaluation, escalate_question_evaluation,
  accepted_row, overridden_row,
}

-- The columns that the AI evaluation wrote, and those that say what the row is about.
pub record SameProposal (a b : QuestionEvaluation) : Type 0 where
  pub id : a.id ≡ b.id
  pub tenant_id : a.tenant_id ≡ b.tenant_id
  pub evaluation_run_id : a.evaluation_run_id ≡ b.evaluation_run_id
  pub submission_id : a.submission_id ≡ b.submission_id
  pub question_version_id : a.question_version_id ≡ b.question_version_id
  pub evidence : a.evidence ≡ b.evidence
  pub max_mark : a.max_mark ≡ b.max_mark
  pub proposed_ai_score : a.proposed_ai_score ≡ b.proposed_ai_score

-- How a kind of review changes the decision on a row.
abbrev pub Decides : Review → QuestionEvaluation → QuestionEvaluation → Type 0
Decides Review.accept qe changed =
    (changed.workflow_state ≡ QeState.accepted)
    × (changed.final_human_approved_score ≡ qe.proposed_ai_score)
    × ((s : ℤ) × (qe.proposed_ai_score ≡ some s))
    × (is_reviewed qe.workflow_state ≡ false)
    × (is_escalated qe.workflow_state ≡ false)
Decides (Review.override o) qe changed =
    (changed.workflow_state ≡ QeState.overridden)
    × (changed.final_human_approved_score ≡ some o.score)
    × (pos 0 ≤ℤ o.score)
    × (o.score ≤ℤ qe.max_mark)
    × (is_escalated qe.workflow_state ≡ false)
Decides (Review.feedback text) qe changed =
    (changed.workflow_state ≡ qe.workflow_state)
    × (changed.final_human_approved_score ≡ qe.final_human_approved_score)
Decides (Review.escalate reason) qe changed =
    (changed.workflow_state ≡ QeState.escalated)
    × (changed.final_human_approved_score ≡ qe.final_human_approved_score)

at_least : (a b : ℤ) → not (ltb_ℤ a b) ≡ true → b ≤ℤ a
at_least a b h = ground arith

not-eq-true : {b : Bool} → not b ≡ true → b ≡ false
not-eq-true {b} h = ground arith

module _ (db : Store) (req : Request) where
  -- The row `changed` replaced `qe`, one action records both, and otherwise only criteria moved.
  pub record Recorded (action : Review) (qe : QuestionEvaluation) (after : Store) : Type 0 where
    pub changed : QuestionEvaluation
    pub criteria : List CriterionEvaluation
    pub logged : ReviewAction
    pub authorized : allowed_by req (get_governing_work_item db req qe.id) ≡ true
    pub in_tenant : (qe.tenant_id == req.tenant_id) ≡ true
    pub same_proposal : SameProposal changed qe
    pub decides : Decides action qe changed
    pub about : logged.question_evaluation_id ≡ qe.id
    pub by_actor : logged.actor_user_id ≡ req.user_id
    pub before : logged.before_snapshot ≡ qe_before_snapshot qe
    pub after_row : logged.after_snapshot ≡ qe_before_snapshot changed
    pub written : after ≡ record db {
      question_evaluations = update (λ r. r.id == qe.id) (λ r. changed) db.question_evaluations;
      criteria = criteria;
      review_actions = db.review_actions ++ logged ∷ [];
    }

  module _ (qe : QuestionEvaluation) where
    pub enforced :
        {u : Unit}
        → enforce_grading_ownership db req qe ≡ ok u
        → (allowed_by req (get_governing_work_item db req qe.id) ≡ true)
          × ((qe.tenant_id == req.tenant_id) ≡ true)
    unfolding enforce_grading_ownership assert_question_evaluation_review_allowed
    enforced h =
        let (u, tenant, h₁) = >>=-eq-ok (guard (qe.tenant_id == req.tenant_id) _) _ h in
        (guard-eq-ok _ _ h₁, guard-eq-ok _ _ tenant)

    -- A copy of the row in which a review's columns differ.
    same_columns :
        {final : Option ℤ} {codes : List String} {reviewed_by reviewed_at : Option ℕ}
        {feedback hash : Option String} {state : QeState} {version : ℕ}
        → SameProposal
            (record qe {
              final_human_approved_score = final;
              error_codes = codes;
              workflow_state = state;
              ledger_version = version;
              reviewed_by = reviewed_by;
              reviewed_at = reviewed_at;
              reviewer_feedback = feedback;
              approved_snapshot_hash = hash;
            })
            qe
    same_columns = record {
      id = refl;
      tenant_id = refl;
      evaluation_run_id = refl;
      submission_id = refl;
      question_version_id = refl;
      evidence = refl;
      max_mark = refl;
      proposed_ai_score = refl;
    }

    -- The end that the four operations share.
    recorded :
        (action : Review) (changed : QuestionEvaluation) (criteria : List CriterionEvaluation)
        (action_type : ActionType) (reason : Option String) (previous new : Option ℤ) {u : Unit {0}}
        {after : Store}
        → enforce_grading_ownership db req qe ≡ ok u
        → ◌≡◌ {A = Result Code Store}
            (ok (
              record_review req qe changed action_type reason previous new
                (record db { criteria = criteria })))
            (ok after)
        → SameProposal changed qe
        → Decides action qe changed
        → Recorded action qe after
    unfolding record_review
    recorded action changed criteria action_type reason previous new owned done same decides =
        let (authorized, in_tenant) = enforced owned in
        record {
          changed = changed;
          criteria = criteria;
          logged = _;
          authorized = authorized;
          in_tenant = in_tenant;
          same_proposal = same;
          decides = decides;
          about = refl;
          by_actor = refl;
          before = refl;
          after_row = refl;
          written = sym (ok-injective done);
        }

    accept-Recorded :
        (after : Store)
        → accept_question_evaluation db req qe ≡ ok after
        → Recorded Review.accept qe after
    unfolding accept_question_evaluation accepted_row
    accept-Recorded after h =
        let (u, owned, h₁) = >>=-eq-ok (enforce_grading_ownership db req qe) _ h in
        let (score, proposal, h₂) = >>=-eq-ok (require qe.proposed_ai_score _) _ h₁ in
        let (v, undecided, h₃) = >>=-eq-ok (guard (not (is_reviewed qe.workflow_state)) _) _ h₂ in
        let (w, calm, h₄) = >>=-eq-ok (guard (not (is_escalated qe.workflow_state)) _) _ h₃ in
        recorded Review.accept
          (accepted_row req (map accept_marks (select (is_criterion_of qe) db.criteria)) qe) _ _ _ _
          _ owned h₄ same_columns
          (
            refl,
            refl,
            (score, require-eq-ok _ _ proposal),
            not-eq-true (guard-eq-ok _ _ undecided),
            not-eq-true (guard-eq-ok _ _ calm),
          )

    override-Recorded :
        (o : Override) (after : Store)
        → override_question_evaluation db req qe o ≡ ok after
        → Recorded (Review.override o) qe after
    unfolding override_question_evaluation overridden_row
    override-Recorded o after h =
        let (u, owned, h₁) = >>=-eq-ok (enforce_grading_ownership db req qe) _ h in
        let (v, reason, h₂) = >>=-eq-ok (guard (not (is_blank o.reason)) _) _ h₁ in
        let (w, not_negative, h₃) = >>=-eq-ok (guard (not (ltb_ℤ o.score (pos 0))) _) _ h₂ in
        let (x, not_above, h₄) = >>=-eq-ok (guard (not (ltb_ℤ qe.max_mark o.score)) _) _ h₃ in
        let (y, calm, h₅) = >>=-eq-ok (guard (not (is_escalated qe.workflow_state)) _) _ h₄ in
        let (rows, settled, h₆) = >>=-eq-ok (settle o.score o.criterion_finals _) _ h₅ in
        recorded (Review.override o) (overridden_row req o qe) _ _ _ _ _ owned h₆ same_columns (
          refl,
          refl,
          at_least o.score (pos 0) (guard-eq-ok _ _ not_negative),
          at_least qe.max_mark o.score (guard-eq-ok _ _ not_above),
          not-eq-true (guard-eq-ok _ _ calm),
        )

    feedback-Recorded :
        (text : String) (after : Store)
        → feedback_question_evaluation db req qe text ≡ ok after
        → Recorded (Review.feedback text) qe after
    unfolding feedback_question_evaluation
    feedback-Recorded text after h =
        let (u, owned, h₁) = >>=-eq-ok (enforce_grading_ownership db req qe) _ h in
        let (v, given, h₂) = >>=-eq-ok (guard (not (is_blank text)) _) _ h₁ in
        recorded (Review.feedback text) (record qe { reviewer_feedback = some (strip text) })
          db.criteria _ _ _ _ owned h₂ same_columns (refl, refl)

    escalate-Recorded :
        (reason : String) (after : Store)
        → escalate_question_evaluation db req qe reason ≡ ok after
        → Recorded (Review.escalate reason) qe after
    unfolding escalate_question_evaluation
    escalate-Recorded reason after h =
        let (u, owned, h₁) = >>=-eq-ok (enforce_grading_ownership db req qe) _ h in
        let (v, given, h₂) = >>=-eq-ok (guard (not (is_blank reason)) _) _ h₁ in
        recorded (Review.escalate reason)
          (record qe {
            workflow_state = QeState.escalated;
            reviewer_feedback = some (strip reason);
            reviewed_by = some req.user_id;
            reviewed_at = some req.now;
          })
          db.criteria _ _ _ _ owned h₂ same_columns (refl, refl)

    review_row-Recorded :
        (action : Review) (after : Store)
        → review_row db req action qe ≡ ok after
        → Recorded action qe after
    unfolding review_row
    review_row-Recorded Review.accept = accept-Recorded
    review_row-Recorded (Review.override o) = override-Recorded o
    review_row-Recorded (Review.feedback text) = feedback-Recorded text
    review_row-Recorded (Review.escalate reason) = escalate-Recorded reason

  -- A review that succeeds found its row in the caller's tenant, and the caller was the assignee of
  -- the governing work item, or a governance actor, or there was no such item. It replaces the row
  -- by one with the same AI proposal, maximum and evidence: accepted at the proposed score,
  -- overridden at the given score, which lies between 0 and the maximum, escalated, or with the
  -- decision unchanged. It appends one review action of the caller with the snapshots of the row
  -- before and after, and changes nothing else but rows of criteria.
  pub review-Recorded :
      (qe_id : ℕ) (action : Review) (after : Store)
      → review db req qe_id action ≡ ok after
      → (qe : QuestionEvaluation) × (load_qe db req qe_id ≡ some qe) × Recorded action qe after
  unfolding review
  review-Recorded qe_id action after h =
      let (qe, found, h₁) = >>=-eq-ok (require (load_qe db req qe_id) _) _ h in
      (qe, require-eq-ok _ _ found, review_row-Recorded qe action after h₁)
