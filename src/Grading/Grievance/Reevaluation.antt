-- ===== src/Grading/Grievance/Reevaluation.antt =====
-- What an accepted grievance starts, and how a grievance blocks another.
use mathlib.Core.Path.{subst}
use eduvijna_paper_evaluatio.Grading.Moderation.Decide.{load_submission, save_submission}
use eduvijna_paper_evaluatio.Prelude.{
  ℕ, ◌≡◌, ◌≤◌, ◌<◌, ap, sym, ◌∙◌, refl, suc, true, Option, none, some, List, [], ◌∷◌, ◌++◌, ok,
  guard, require, >>=-eq-ok, require-eq-ok, guard-eq-ok, ok-injective, ◌==◌, ◌&&◌, update, All,
  All-imp, arith, String, select-All, Any, Selected, select-Selected, ==_iff, ==_refl, first_keyed,
  first, ◌⊎◌, inl, inr, Any-update,
}
use eduvijna_paper_evaluatio.Grading.Ledger.{
  QeState, RunStatus, RunKind, EvaluationRun, QuestionEvaluation, Submission,
}
use eduvijna_paper_evaluatio.Grading.Work.{GrievanceStatus, GrievanceCase}
use eduvijna_paper_evaluatio.Grading.Store.{Store, Request, audit}
use eduvijna_paper_evaluatio.Grading.Pools.Allocation.{load_run, evaluations_of}
use eduvijna_paper_evaluatio.Grading.Grievance.{
  get_grievance, is_undecided, runs_of, max_number, new_run, copy_of, copies, accept_grievance,
  reopen_submission, begin_reevaluation, accepted_case, with_reevaluation, save_grievance,
}

max_number-bounds : (runs : List EvaluationRun) → All (λ r. r.run_number ≤ max_number runs) runs
unfolding max_number
max_number-bounds [] = tt
max_number-bounds (r ∷ rs) =
    (ground arith, All-imp (λ s h. ground (arith, h)) rs (max_number-bounds rs))

-- Row by row, a fresh copy: the AI's findings of the old row, and nothing of its review.
pub data Copies (run_id : ℕ) : List QuestionEvaluation → List QuestionEvaluation → Type 0 where
  no_more : Copies run_id [] []
  one_more :
      {old new : QuestionEvaluation} {olds news : List QuestionEvaluation}
      → new.evaluation_run_id ≡ run_id
      → new.question_version_id ≡ old.question_version_id
      → new.evidence ≡ old.evidence
      → new.max_mark ≡ old.max_mark
      → new.proposed_ai_score ≡ old.proposed_ai_score
      → new.supersedes_ledger_id ≡ some old.id
      → new.workflow_state ≡ QeState.review_required
      → new.final_human_approved_score ≡ none
      → new.reviewed_by ≡ none
      → Copies run_id olds news
      → Copies run_id (old ∷ olds) (new ∷ news)

copies-Copies :
    (req : Request) (run_id index : ℕ) (olds : List QuestionEvaluation)
    → Copies run_id olds (copies req run_id index olds)
unfolding copies copy_of
copies-Copies req run_id index [] = no_more
copies-Copies req run_id index (old ∷ olds) =
    one_more refl refl refl refl refl refl refl refl refl
      (copies-Copies req run_id (suc index) olds)

reopen_submission-runs :
    (s : Option Submission) (db : Store) → (reopen_submission s db).runs ≡ db.runs
unfolding reopen_submission save_submission
reopen_submission-runs none db = refl
reopen_submission-runs (some s) db = refl

reopen_submission-ledger :
    (s : Option Submission) (db : Store)
    → (reopen_submission s db).question_evaluations ≡ db.question_evaluations
unfolding reopen_submission save_submission
reopen_submission-ledger none db = refl
reopen_submission-ledger (some s) db = refl

reopen_submission-grievances :
    (s : Option Submission) (db : Store) → (reopen_submission s db).grievances ≡ db.grievances
unfolding reopen_submission save_submission
reopen_submission-grievances none db = refl
reopen_submission-grievances (some s) db = refl

-- A row of the ledger that belongs to the run in the tenant.
pub record IsOfRun (req : Request) (run_id : ℕ) (q : QuestionEvaluation) : Type 0 where
  pub tenant : q.tenant_id ≡ req.tenant_id
  pub run : q.evaluation_run_id ≡ run_id

evaluations_of-Selected :
    (db : Store) (req : Request) (run_id : ℕ)
    → Selected (IsOfRun req run_id) db.question_evaluations (evaluations_of db req run_id)
unfolding evaluations_of
evaluations_of-Selected db req run_id =
    select-Selected (IsOfRun req run_id) _
      (λ q h. record {
        tenant = ground (arith, ==_iff q.tenant_id req.tenant_id);
        run = ground (arith, ==_iff q.evaluation_run_id run_id);
      })
      (λ q h of. ground (
        arith,
        ==_iff q.tenant_id req.tenant_id,
        ==_iff q.evaluation_run_id run_id,
        of.tenant,
        of.run,
      ))
      db.question_evaluations

undecided_states :
    (s : GrievanceStatus)
    → is_undecided s ≡ true
    → (s ≡ GrievanceStatus.submitted) ⊎ (s ≡ GrievanceStatus.under_review)
unfolding is_undecided
undecided_states GrievanceStatus.submitted h = inl refl
undecided_states GrievanceStatus.under_review h = inr refl
undecided_states GrievanceStatus.accepted h = cc
undecided_states GrievanceStatus.rejected h = cc
undecided_states GrievanceStatus.re_evaluating h = cc
undecided_states GrievanceStatus.resolved h = cc
undecided_states GrievanceStatus.closed h = cc

new_run-newest :
    (db : Store) (req : Request) (case : GrievanceCase) (original : EvaluationRun)
    → All
        (λ r.
          (r.tenant_id == req.tenant_id && r.submission_id == case.submission_id) ≡ true
          → r.run_number < (new_run db req case original).run_number)
        db.runs
unfolding new_run runs_of
new_run-newest db req case original =
    select-All _ _ db.runs
      (All-imp (λ r h. omega (arith, h)) _ (max_number-bounds (runs_of db req case.submission_id)))

module _ (db : Store) (req : Request) (case : GrievanceCase) (original : EvaluationRun) where
  new_run-kind : (new_run db req case original).run_kind ≡ RunKind.re_evaluation
  unfolding new_run
  new_run-kind = refl

  new_run-supersedes : (new_run db req case original).supersedes_run_id ≡ some original.id
  unfolding new_run
  new_run-supersedes = refl

  new_run-status : (new_run db req case original).status ≡ RunStatus.review_required
  unfolding new_run
  new_run-status = refl

  module _ (reason : Option String) where
    begin-runs :
        (begin_reevaluation db req case original reason).runs
        ≡ update
            (λ r. r.id == original.id)
            (λ r. record original { status = RunStatus.superseded })
            db.runs
          ++ new_run db req case original ∷ []
    unfolding begin_reevaluation audit
    begin-runs = reopen_submission-runs (load_submission db req case.submission_id) _

    begin-grievances :
        (begin_reevaluation db req case original reason).grievances
        ≡ update
            (λ g. g.id == case.id)
            (λ g. accepted_case db req case original reason)
            db.grievances
    unfolding begin_reevaluation audit save_grievance with_reevaluation
    begin-grievances = reopen_submission-grievances (load_submission db req case.submission_id) _

    begin-ledger :
        (begin_reevaluation db req case original reason).question_evaluations
        ≡ db.question_evaluations
          ++ copies req (new_run db req case original).id 1 (evaluations_of db req original.id)
    unfolding begin_reevaluation audit
    begin-ledger = reopen_submission-ledger (load_submission db req case.submission_id) _

module _ (db : Store) (req : Request) (grievance_id : ℕ) where
  pub record Reevaluated (reason : Option String) (after : Store) (decided : GrievanceCase)
      : Type 0 where
    pub case : GrievanceCase
    pub in_table : Any (λ g. g ≡ case) db.grievances
    pub same_id : case.id ≡ grievance_id
    pub same_tenant : case.tenant_id ≡ req.tenant_id
    pub undecided :
        (case.status ≡ GrievanceStatus.submitted) ⊎ (case.status ≡ GrievanceStatus.under_review)
    pub original : EvaluationRun
    pub original_in_table : Any (λ r. r ≡ original) db.runs
    pub original_id : original.id ≡ case.original_evaluation_run_id
    pub run : EvaluationRun
    pub is_reevaluation : run.run_kind ≡ RunKind.re_evaluation
    pub supersedes : run.supersedes_run_id ≡ some original.id
    pub to_review : run.status ≡ RunStatus.review_required
    pub newest :
        All
          (λ r.
            (r.tenant_id == req.tenant_id && r.submission_id == case.submission_id) ≡ true
            → r.run_number < run.run_number)
          db.runs
    pub runs_after :
        after.runs
        ≡ update
            (λ r. r.id == original.id)
            (λ r. record original { status = RunStatus.superseded })
            db.runs
          ++ run ∷ []
    pub olds : List QuestionEvaluation
    pub of_original : Selected (IsOfRun req original.id) db.question_evaluations olds
    pub fresh : List QuestionEvaluation
    pub copied : Copies run.id olds fresh
    pub ledger_after : after.question_evaluations ≡ db.question_evaluations ++ fresh
    pub row : decided ≡ record case {
      status = GrievanceStatus.re_evaluating;
      decision_by = some req.user_id;
      decision_at = some req.now;
      decision_reason = reason;
      reevaluation_run_id = some run.id;
    }
    pub grievances_after :
        after.grievances ≡ update (λ g. g.id == case.id) (λ g. decided) db.grievances
    pub is_stored : Any (λ g. g ≡ decided) after.grievances

  -- Accepting a grievance needs it SUBMITTED or UNDER_REVIEW. It adds a re-evaluation run whose
  -- number exceeds that of every run of the submission, marks the original run SUPERSEDED, keeps
  -- every ledger row and adds for each row of the original run a copy with the same AI proposal
  -- and evidence, in REVIEW_REQUIRED, without final score or reviewer. The row of the grievance,
  -- and no other of its table, becomes RE_EVALUATING, with the caller as its decider, and names
  -- the new run.
  pub accept_grievance-Reevaluated :
      (reason : Option String) (after : Store) (decided : GrievanceCase)
      → accept_grievance db req grievance_id reason ≡ ok (after, decided)
      → Reevaluated reason after decided
  unfolding accept_grievance get_grievance load_run accepted_case
  accept_grievance-Reevaluated reason after decided h =
      let (case, found, h₁) =
        >>=-eq-ok
          (require (first (λ g. g.id == grievance_id && g.tenant_id == req.tenant_id) db.grievances)
            _)
          _ h in
      let (u, undecided, h₂) = >>=-eq-ok (guard (is_undecided case.status) _) _ h₁ in
      let (original, original_found, h₃) =
        >>=-eq-ok (require (load_run db req case.original_evaluation_run_id) _) _ h₂ in
      let (in_table, same_id, same_tenant) =
        first_keyed (λ (g : GrievanceCase). g.id) (λ (g : GrievanceCase). g.tenant_id) grievance_id
          req.tenant_id db.grievances (require-eq-ok _ _ found) in
      let (original_in_table, original_id, original_tenant) =
        first_keyed (λ (r : EvaluationRun). r.id) (λ (r : EvaluationRun). r.tenant_id)
          case.original_evaluation_run_id req.tenant_id db.runs
          (require-eq-ok _ _ original_found) in
      let e = ok-injective h₃ in
      let run = new_run db req case original in
      let row : decided ≡ accepted_case db req case original reason =
        sym (ap (λ (p : Store × GrievanceCase). p.1) e) in
      let grievances_after : after.grievances
          ≡ update (λ g. g.id == case.id) (λ g. decided) db.grievances =
        sym (ap (λ (p : Store × GrievanceCase). p.0.grievances) e)
        ∙ (begin-grievances db req case original reason
            ∙ ap (λ (n : GrievanceCase). update (λ g. g.id == case.id) (λ g. n) db.grievances)
                (sym row)) in
      record {
        case = case;
        in_table = in_table;
        same_id = same_id;
        same_tenant = same_tenant;
        undecided = undecided_states case.status (guard-eq-ok _ _ undecided);
        original = original;
        original_in_table = original_in_table;
        original_id = original_id;
        run = run;
        is_reevaluation = new_run-kind db req case original;
        supersedes = new_run-supersedes db req case original;
        to_review = new_run-status db req case original;
        newest = new_run-newest db req case original;
        runs_after =
            sym (ap (λ (p : Store × GrievanceCase). p.0.runs) e)
            ∙ begin-runs db req case original reason;
        olds = evaluations_of db req original.id;
        of_original = evaluations_of-Selected db req original.id;
        fresh = copies req run.id 1 (evaluations_of db req original.id);
        copied = copies-Copies req run.id 1 (evaluations_of db req original.id);
        ledger_after =
            sym (ap (λ (p : Store × GrievanceCase). p.0.question_evaluations) e)
            ∙ begin-ledger db req case original reason;
        row = row;
        grievances_after = grievances_after;
        is_stored =
            subst (λ (gs : List GrievanceCase). Any (λ g. g ≡ decided) gs) (sym grievances_after)
              (Any-update (λ g. g.id == case.id) decided db.grievances (==_refl case.id) in_table);
      }
