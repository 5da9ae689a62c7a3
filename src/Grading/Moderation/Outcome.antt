-- ===== src/Grading/Moderation/Outcome.antt =====
-- What a moderation decision that succeeds has checked and written.
use eduvijna_paper_evaluatio.Grading.Moderation.Admission.{
  Admitted, actionable_states, at_stage, entitled_role, separated, reason_given, IsRow,
}
use mathlib.Core.Path.{subst}
use eduvijna_paper_evaluatio.Prelude.{
  inl, inr, ◌≡◌, Bool, true, false, Option, some, [], ◌∷◌, ◌++◌, ◌==◌, ◌&&◌, update, arith, String,
  ◌⊎◌, ok, guard, require, >>=-eq-ok, require-eq-ok, guard-eq-ok, ok-injective, Option-cases, refl,
  ◌||◌, not, ℕ, first_keyed,
}
use eduvijna_paper_evaluatio.Grading.Ledger.{RunStatus, SubmissionState, EvaluationRun, Submission}
use eduvijna_paper_evaluatio.Grading.Work.{CaseStatus, Decision, ModerationStage, ModerationCase}
use eduvijna_paper_evaluatio.Grading.Store.{Store, Request}
use eduvijna_paper_evaluatio.Grading.Moderation.{is_actionable}
use eduvijna_paper_evaluatio.Grading.Moderation.Decide.{
  is_approve, lacks_reason, current_stage, next_stage, may_decide, reviewed_run, load_submission,
  case_run, action_of, load_case, return_case, reject_case, approve_case, approve_finally,
  approve_stage, apply, decide_moderation,
}
use eduvijna_paper_evaluatio.Grading.Moderation.Stages.{
  IsNext, IsLast, next_stage-IsNext, next_stage-IsLast,
}

module _ (db : Store) (req : Request) (case : ModerationCase) where
  -- How a decision leaves the case, its submission and its run.
  abbrev pub Moves :
      Decision → Submission → EvaluationRun → ModerationCase → Submission → EvaluationRun → Type 0
  Moves Decision.return submission run new_case new_submission new_run =
      (new_case ≡ record case { status = CaseStatus.returned })
      × (new_submission ≡ record submission { workflow_state = SubmissionState.evaluation_review })
      × (new_run ≡ run)
  Moves Decision.reject submission run new_case new_submission new_run =
      (new_case ≡ record case { status = CaseStatus.rejected })
      × (new_submission ≡ record submission { workflow_state = SubmissionState.failed })
      × (new_run ≡ record run { status = RunStatus.failed })
  Moves Decision.approve submission run new_case new_submission new_run =
      (IsLast db req case
        × (new_case ≡ record case { status = CaseStatus.approved })
        × (new_submission ≡ record submission { workflow_state = SubmissionState.approved })
        × (new_run ≡ record run { status = RunStatus.completed; finished_at = some req.now }))
      ⊎ ((next : ModerationStage) × IsNext db req case next
          × (new_case
              ≡ record case { current_stage_order = next.stage_order; status = CaseStatus.pending })
          × (new_submission ≡ submission)
          × (new_run ≡ run))

  -- What a decision writes.
  pub record Applied (decision : Decision) (reason : Option String) (after : Store) : Type 0 where
    pub submission : Submission
    pub run : EvaluationRun
    pub submission_found :
        IsRow req
          (λ (s : Submission). s.id)
          (λ (s : Submission). s.tenant_id)
          case.submission_id
          submission
          db.submissions
    pub run_found :
        IsRow req
          (λ (r : EvaluationRun). r.id)
          (λ (r : EvaluationRun). r.tenant_id)
          case.evaluation_run_id
          run
          db.runs
    pub new_case : ModerationCase
    pub new_submission : Submission
    pub new_run : EvaluationRun
    pub moves : Moves decision submission run new_case new_submission new_run
    pub logged :
        after.moderation_actions
        ≡ db.moderation_actions
          ++ record {
            id = req.uuid4 0;
            tenant_id = req.tenant_id;
            case_id = case.id;
            stage_order = case.current_stage_order;
            actor_user_id = req.user_id;
            decision = decision;
            reason = reason;
          }
            ∷ []
    pub case_saved : after.cases ≡ update (λ c. c.id == case.id) (λ c. new_case) db.cases
    pub submission_saved :
        (new_submission ≡ submission × (after.submissions ≡ db.submissions))
        ⊎ (after.submissions
            ≡ update (λ s. s.id == submission.id) (λ s. new_submission) db.submissions)
    pub run_saved :
        (new_run ≡ run × (after.runs ≡ db.runs))
        ⊎ (after.runs ≡ update (λ r. r.id == run.id) (λ r. new_run) db.runs)
    pub ledger_kept : after.question_evaluations ≡ db.question_evaluations

  module _ (reason : Option String) (submission : Submission) (run : EvaluationRun)
      (submission_found : IsRow req
        (λ (s : Submission). s.id)
        (λ (s : Submission). s.tenant_id)
        case.submission_id
        submission
        db.submissions)
      (run_found : IsRow req
        (λ (r : EvaluationRun). r.id)
        (λ (r : EvaluationRun). r.tenant_id)
        case.evaluation_run_id
        run
        db.runs) where
    unfoldable with_action : Decision → Store
    with_action decision = record db {
      moderation_actions = db.moderation_actions ++ action_of req reason case decision ∷ [];
    }

    approve_case-Applied : Applied Decision.approve reason (
        approve_case req reason case
          (next_stage db req case)
          submission
          run
          (with_action Decision.approve))
    unfolding approve_case approve_finally approve_stage with_action action_of
    approve_case-Applied = elim (Option-cases (next_stage db req case)) [
      | inl none' ↦ rw none' (record {
        submission = submission;
        run = run;
        submission_found = submission_found;
        run_found = run_found;
        new_case = _;
        new_submission = _;
        new_run = _;
        moves = inl (next_stage-IsLast db req case none', refl, refl, refl);
        logged = refl;
        case_saved = refl;
        submission_saved = inr refl;
        run_saved = inr refl;
        ledger_kept = refl;
      })
      | inr (next, found) ↦ rw found (record {
        submission = submission;
        run = run;
        submission_found = submission_found;
        run_found = run_found;
        new_case = _;
        new_submission = submission;
        new_run = run;
        moves = inr (next, next_stage-IsNext db req case found, refl, refl, refl);
        logged = refl;
        case_saved = refl;
        submission_saved = inl (refl, refl);
        run_saved = inl (refl, refl);
        ledger_kept = refl;
      })
    ]

    apply-Applied :
        (decision : Decision)
        → Applied decision reason (
            apply req reason case decision
              (next_stage db req case)
              submission
              run
              (with_action decision))
    unfolding apply return_case reject_case with_action action_of
    apply-Applied Decision.approve = approve_case-Applied
    apply-Applied Decision.return = record {
      submission = submission;
      run = run;
      submission_found = submission_found;
      run_found = run_found;
      new_case = _;
      new_submission = _;
      new_run = run;
      moves = (refl, refl, refl);
      logged = refl;
      case_saved = refl;
      submission_saved = inr refl;
      run_saved = inl (refl, refl);
      ledger_kept = refl;
    }
    apply-Applied Decision.reject = record {
      submission = submission;
      run = run;
      submission_found = submission_found;
      run_found = run_found;
      new_case = _;
      new_submission = _;
      new_run = _;
      moves = (refl, refl, refl);
      logged = refl;
      case_saved = refl;
      submission_saved = inr refl;
      run_saved = inr refl;
      ledger_kept = refl;
    }

not-eq-true : {b : Bool} → not b ≡ true → b ≡ false
not-eq-true {b} h = ground arith

-- A decision that succeeds found a PENDING, IN_PROGRESS or RETURNED case in the caller's tenant and
-- the stage it is at, for which the caller has the role, or is INSTITUTION_ADMIN; an approval comes
-- from someone with no review action on a question of the run, and the other decisions give a
-- reason that is not blank. It appends the moderation action. RETURN sends the submission back to
-- EVALUATION_REVIEW and REJECT fails the submission and the run; an approval moves the case to the
-- next stage in the order, none between skipped, and approves case, submission and run exactly
-- when no later stage is left. The ledger is not touched.
pub decide_moderation-Applied :
    (db after : Store) (req : Request) (case_id : ℕ) (decision : Decision) (reason : Option String)
    → decide_moderation db req case_id (some decision) reason ≡ ok after
    → (case : ModerationCase) × IsRow req
        (λ (c : ModerationCase). c.id)
        (λ (c : ModerationCase). c.tenant_id)
        case_id
        case
        db.cases
      × Admitted db req case decision reason
      × Applied db req case decision reason after
unfolding decide_moderation load_case load_submission case_run with_action
decide_moderation-Applied db after req case_id decision reason h =
    let (u, reasoned, h₁) =
      >>=-eq-ok (guard (is_approve decision || not (lacks_reason reason)) _) _ h in
    let (case, found, h₂) = >>=-eq-ok (require (load_case db req case_id) _) _ h₁ in
    let (v, actionable, h₃) = >>=-eq-ok (guard (is_actionable case.status) _) _ h₂ in
    let (stage, at, h₄) = >>=-eq-ok (require (current_stage db req case) _) _ h₃ in
    let (w, entitled, h₅) = >>=-eq-ok (guard (may_decide req stage) _) _ h₄ in
    let (x, separate, h₆) =
      >>=-eq-ok (guard (not (reviewed_run db req case && is_approve decision)) _) _ h₅ in
    let (submission, submission_found, h₇) =
      >>=-eq-ok (require (load_submission db req case.submission_id) _) _ h₆ in
    let (run, run_found, h₈) =
      >>=-eq-ok (require (case_run db req case.evaluation_run_id) _) _ h₇ in
    let (in_table, tenant, policy, order) = at_stage db req case stage (require-eq-ok _ _ at) in
    (
      case,
      first_keyed (λ (c : ModerationCase). c.id) (λ (c : ModerationCase). c.tenant_id) case_id
          req.tenant_id db.cases (require-eq-ok _ _ found),
      record {
        actionable = actionable_states db req case case.status (guard-eq-ok _ _ actionable);
        stage = stage;
        stage_in_table = in_table;
        stage_tenant = tenant;
        stage_policy = policy;
        stage_order = order;
        entitled = entitled_role db req case stage (guard-eq-ok _ _ entitled);
        separate = separated db req case decision (not-eq-true (guard-eq-ok _ _ separate));
        reasoned = reason_given reason decision (guard-eq-ok _ _ reasoned);
      },
      subst (λ s. Applied db req case decision reason s) (ok-injective h₈)
          (apply-Applied db req case reason submission run
            (first_keyed (λ (s : Submission). s.id) (λ (s : Submission). s.tenant_id)
              case.submission_id req.tenant_id db.submissions (require-eq-ok _ _ submission_found))
            (first_keyed (λ (r : EvaluationRun). r.id) (λ (r : EvaluationRun). r.tenant_id)
              case.evaluation_run_id req.tenant_id db.runs (require-eq-ok _ _ run_found))
            decision),
    )
