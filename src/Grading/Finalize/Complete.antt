-- ===== src/Grading/Finalize/Complete.antt =====
-- What a finalization that succeeds has checked and written.
use mathlib.Core.Path.{subst}
use eduvijna_paper_evaluatio.Prelude.{
  ◌≡◌, ap, ◌∙◌, refl, Bool, true, not, Option, none, some, List, [], ◌∷◌, ok, guard, require,
  >>=-eq-ok, require-eq-ok, guard-eq-ok, ok-injective, ◌==◌, ◌&&◌, first-test, first-Any, update,
  All, Any, here, Any-update, Any-append_right, Any-imp, arith, ==_refl,
}
use eduvijna_paper_evaluatio.Assessment.Marks.{QuestionVersion}
use eduvijna_paper_evaluatio.Grading.Ledger.{
  RunStatus, SubmissionState, EvaluationRun, QuestionEvaluation, Submission, is_reviewed,
}
use eduvijna_paper_evaluatio.Grading.Work.{ModerationPolicy, ModerationCase}
use eduvijna_paper_evaluatio.Grading.Store.{Store, Request}
use eduvijna_paper_evaluatio.Grading.Review.{is_escalated}
use eduvijna_paper_evaluatio.Grading.Pools.Allocation.{evaluations_of}
use eduvijna_paper_evaluatio.Grading.Moderation.{
  active_moderation_policy, ensure_case, ensure_moderation_case_for_run, is_actionable, open_case,
  reopened, lowest, stages_of, new_case, save_case,
}
use eduvijna_paper_evaluatio.Grading.Moderation.Decide.{save_run, save_submission}
use eduvijna_paper_evaluatio.Grading.Finalize.{
  is_evaluation_review, latest_run, leaf_questions, by_qv, check_question, check_questions,
  send_to_moderation, approve, conclude, finalize_evaluation,
}

-- The ledger row that counts for the question is accepted or overridden.
pub record IsSettled (qes : List QuestionEvaluation) (leaf : QuestionVersion) : Type 0 where
  pub row : QuestionEvaluation
  pub found : by_qv leaf.id qes ≡ some row
  pub reviewed : is_reviewed row.workflow_state ≡ true

check_question-IsSettled :
    (qes : List QuestionEvaluation) (leaf : QuestionVersion)
    → check_question qes leaf ≡ ok tt
    → IsSettled qes leaf
unfolding check_question
check_question-IsSettled qes leaf h =
    let (qe, found, h₁) = >>=-eq-ok (require (by_qv leaf.id qes) _) _ h in
    let (u, calm, h₂) = >>=-eq-ok (guard (not (is_escalated qe.workflow_state)) _) _ h₁ in
    record {
      row = qe;
      found = require-eq-ok _ _ found;
      reviewed = guard-eq-ok (is_reviewed qe.workflow_state) _ h₂;
    }

check_questions-All :
    (qes : List QuestionEvaluation) (leaves : List QuestionVersion)
    → check_questions qes leaves ≡ ok tt
    → All (IsSettled qes) leaves
unfolding check_questions
check_questions-All qes [] h = tt
check_questions-All qes (leaf ∷ rest) h =
    let (u, first', h₁) = >>=-eq-ok (check_question qes leaf) _ h in
    (check_question-IsSettled qes leaf first', check_questions-All qes rest h₁)

-- An open case of the run.
abbrev pub is_open_case : Request → EvaluationRun → ModerationCase → Bool
is_open_case req run c =
    c.tenant_id == req.tenant_id && (c.evaluation_run_id == run.id && is_actionable c.status)

reopened-open :
    (req : Request) (run : EvaluationRun) (c : ModerationCase)
    → is_open_case req run c ≡ true
    → is_open_case req run (reopened c) ≡ true
unfolding reopened is_actionable
reopened-open req run c h = ground arith

reopened-same_id : (c : ModerationCase) → (c.id == (reopened c).id) ≡ true
unfolding reopened
reopened-same_id c = ground (arith, ==_refl c.id)

module _ (db : Store) (req : Request) (policy : ModerationPolicy) (submission : Submission)
    (run : EvaluationRun) where
  -- There is an open case of the run, and no more than cases and the audit changed.
  abbrev Opened : Store → Type 0
  Opened after =
      Any (λ c. is_open_case req run c ≡ true) after.cases
      × (after.submissions ≡ db.submissions)
      × (after.runs ≡ db.runs)
      × (after.question_evaluations ≡ db.question_evaluations)

  ensure_case-Opened :
      (found : Option ModerationCase) (after : Store)
      → open_case db req run ≡ found
      → ensure_case db req policy submission run found ≡ ok after
      → Opened after
  unfolding ensure_case open_case new_case save_case is_actionable
  ensure_case-Opened (some c) after e h =
      let is_open = first-test (is_open_case req run) db.cases e in
      subst Opened (ok-injective h) (
        Any-imp (λ x same. ap (λ y. is_open_case req run y) same ∙ reopened-open req run c is_open)
            (Any-update (λ x. x.id == (reopened c).id) (reopened c) db.cases (reopened-same_id c)
              (first-Any (is_open_case req run) db.cases e)),
        refl,
        refl,
        refl,
      )
  ensure_case-Opened none after e h =
      let (stage, found, h₁) = >>=-eq-ok (require (lowest (stages_of db req policy.id)) _) _ h in
      subst Opened (ok-injective h₁) (
        Any-append_right db.cases (here (rw (==_refl req.tenant_id, ==_refl run.id) refl)),
        refl,
        refl,
        refl,
      )

  ensure_moderation_case_for_run-Opened :
      (after : Store)
      → ensure_moderation_case_for_run db req policy submission run ≡ ok after
      → Opened after
  unfolding ensure_moderation_case_for_run
  ensure_moderation_case_for_run-Opened after h =
      ensure_case-Opened (open_case db req run) after refl h

module _ (db : Store) (req : Request) (submission : Submission) (run : EvaluationRun) where
  -- How the submission and its run leave a finalization, with or without a moderation policy.
  pub Concludes : Option ModerationPolicy → Store → Type 0
  Concludes none after =
      (after.submissions
        ≡ update (λ s. s.id == submission.id)
            (λ s. record submission { workflow_state = SubmissionState.approved }) db.submissions)
      × (after.runs
          ≡ update (λ r. r.id == run.id)
              (λ r. record run { status = RunStatus.completed; finished_at = some req.now })
              db.runs)
      × (after.cases ≡ db.cases)
  Concludes (some policy) after =
      (after.submissions
        ≡ update (λ s. s.id == submission.id)
            (λ s. record submission { workflow_state = SubmissionState.moderation_review })
            db.submissions)
      × (after.runs
          ≡ update (λ r. r.id == run.id) (λ r. record run { status = RunStatus.review_required })
              db.runs)
      × Any (λ c. is_open_case req run c ≡ true) after.cases

  conclude-Concludes :
      (policy : Option ModerationPolicy) (after : Store)
      → conclude db req submission run policy ≡ ok after
      → Concludes policy after × (after.question_evaluations ≡ db.question_evaluations)
  unfolding conclude approve send_to_moderation save_submission save_run Concludes
  conclude-Concludes none after h =
      subst (λ (s : Store). Concludes none s × (s.question_evaluations ≡ db.question_evaluations))
        (ok-injective h) ((refl, refl, refl), refl)
  conclude-Concludes (some policy) after h =
      let sent = record submission { workflow_state = SubmissionState.moderation_review } in
      let under_review = record run { status = RunStatus.review_required } in
      let (saved, ensured, h₁) =
        >>=-eq-ok
          (ensure_moderation_case_for_run (save_run under_review (save_submission sent db)) req
            policy sent under_review)
          _ h in
      let (opened, submissions, runs, ledger) =
        ensure_moderation_case_for_run-Opened (save_run under_review (save_submission sent db)) req
          policy sent under_review saved ensured in
      subst
        (λ (s : Store).
          Concludes (some policy) s × (s.question_evaluations ≡ db.question_evaluations))
        (ok-injective h₁) ((submissions, runs, opened), ledger)

module _ (db : Store) (req : Request) (submission : Submission) where
  pub record Finalized (after : Store) : Type 0 where
    pub in_review : is_evaluation_review submission.workflow_state ≡ true
    pub run : EvaluationRun
    pub is_latest : latest_run db req submission ≡ some run
    pub settled :
        All
          (IsSettled (evaluations_of db req run.id))
          (leaf_questions db req submission.assessment_version_id)
    pub concluded :
        Concludes db req submission run
          (active_moderation_policy db req submission.assessment_version_id)
          after
    pub ledger_kept : after.question_evaluations ≡ db.question_evaluations

  -- A finalization that succeeds started in EVALUATION_REVIEW, with every scorable leaf of the
  -- assessment version ACCEPTED or OVERRIDDEN in the submission's latest run. Without an active
  -- moderation policy the submission is then APPROVED and the run COMPLETED; with one they wait in
  -- MODERATION_REVIEW and REVIEW_REQUIRED and the run has an open moderation case. The ledger
  -- stays as it was.
  pub finalize_evaluation-Finalized :
      (after : Store) → finalize_evaluation db req submission ≡ ok after → Finalized after
  unfolding finalize_evaluation
  finalize_evaluation-Finalized after h =
      let (u, in_review, h₁) =
        >>=-eq-ok (guard (is_evaluation_review submission.workflow_state) _) _ h in
      let (run, found, h₂) = >>=-eq-ok (require (latest_run db req submission) _) _ h₁ in
      let leaves = leaf_questions db req submission.assessment_version_id in
      let qes = evaluations_of db req run.id in
      let (v, checked, h₃) = >>=-eq-ok (check_questions qes leaves) _ h₂ in
      let (concluded, ledger) =
        conclude-Concludes db req submission run
          (active_moderation_policy db req submission.assessment_version_id) after h₃ in
      record {
        in_review = guard-eq-ok _ _ in_review;
        run = run;
        is_latest = require-eq-ok _ _ found;
        settled = check_questions-All qes leaves checked;
        concluded = concluded;
        ledger_kept = ledger;
      }
