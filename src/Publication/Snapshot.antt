-- ===== src/Publication/Snapshot.antt =====
-- The snapshot of the approved ledger, and its totals.
pub mod Totals
pub mod Approved
use eduvijna_paper_evaluatio.Prelude.{
  Bool, true, false, not, Option, none, some, List, [], ◌∷◌, map, Result, ok, guard, require, ◌>>=◌,
  ◌>>◌, ◌==◌, ◌&&◌, ◌||◌, select, str_lt, if◌then◌else◌,
}
use eduvijna_paper_evaluatio.Prelude.Int.{ℤ, pos, ◌+ℤ◌, ltb_ℤ}
use eduvijna_paper_evaluatio.Grading.Ledger.{
  RunStatus, SubmissionState, EvaluationRun, QuestionEvaluation, CriterionEvaluation, Submission,
  is_reviewed,
}
use eduvijna_paper_evaluatio.Grading.Store.{Store, Request}
use eduvijna_paper_evaluatio.Grading.Finalize.{newest_run}
use eduvijna_paper_evaluatio.Grading.Pools.Allocation.{evaluations_of}
use eduvijna_paper_evaluatio.Publication.Tables.{
  PublicationCode, CriterionSnapshot, QuestionSnapshot, Canonical,
}

unfoldable pub is_approved : SubmissionState → Bool
is_approved SubmissionState.approved = true
is_approved _ = false

unfoldable pub is_published_state : SubmissionState → Bool
is_published_state SubmissionState.published = true
is_published_state _ = false

unfoldable pub is_completed : RunStatus → Bool
is_completed RunStatus.completed = true
is_completed _ = false

-- `order_by(criterion_code.asc())`: codes compare as texts
unfoldable pub insert_by_code :
    CriterionEvaluation → List CriterionEvaluation → List CriterionEvaluation
insert_by_code c [] = c ∷ []
insert_by_code c (d ∷ ds) =
    let rest = insert_by_code c ds in
    if str_lt d.criterion_code c.criterion_code then d ∷ rest else c ∷ d ∷ ds

unfoldable pub sort_by_code : List CriterionEvaluation → List CriterionEvaluation
unfolding insert_by_code
sort_by_code [] = []
sort_by_code (c ∷ cs) = insert_by_code c (sort_by_code cs)

unfoldable pub criteria_of : Store → QuestionEvaluation → List CriterionEvaluation
unfolding sort_by_code select
criteria_of db qe = sort_by_code (select (λ c. c.question_evaluation_id == qe.id) db.criteria)

unfoldable pub criterion_snapshot : CriterionEvaluation → CriterionSnapshot
criterion_snapshot c = record {
  rubric_criterion_id = c.rubric_criterion_id;
  criterion_code = c.criterion_code;
  final_marks = c.final_marks;
  max_marks = c.max_marks;
  decision = c.decision;
}

-- the body of `for qe in qes`
unfoldable pub question_snapshot :
    Store → QuestionEvaluation → Result PublicationCode QuestionSnapshot
unfolding is_reviewed criterion_snapshot criteria_of
question_snapshot db qe = do
  guard (is_reviewed qe.workflow_state) PublicationCode.ledger_incomplete
  score ← require qe.final_human_approved_score PublicationCode.final_score_missing
  ok (record {
    question_evaluation_id = qe.id;
    question_version_id = qe.question_version_id;
    workflow_state = qe.workflow_state;
    final_human_approved_score = score;
    max_mark = qe.max_mark;
    criteria = map criterion_snapshot (criteria_of db qe);
  })

unfoldable pub question_snapshots :
    Store → List QuestionEvaluation → Result PublicationCode (List QuestionSnapshot)
unfolding question_snapshot
question_snapshots db [] = ok []
question_snapshots db (qe ∷ qes) =
    let others = question_snapshots db qes in
    question_snapshot db qe >>= λ q. others >>= λ qs. ok (q ∷ qs)

unfoldable pub completed_run : Store → Request → Submission → Option EvaluationRun
unfolding newest_run select is_completed
completed_run db req submission = newest_run (
    select
      (λ r.
        r.tenant_id == req.tenant_id && (r.submission_id == submission.id && is_completed r.status))
      db.runs)

-- what the function returns, but for the criteria, which are in the snapshot too
pub record Loaded : Type 0 where
  pub run : EvaluationRun
  pub qes : List QuestionEvaluation
  pub canonical : Canonical

-- `not qes`
unfoldable pub is_empty_list {ℓ} : {A : Type ℓ} → List A → Bool
is_empty_list [] = true
is_empty_list (x ∷ xs) = false

unfoldable pub load_approved_ledger_snapshot :
    Store → Request → Submission → Result PublicationCode Loaded
unfolding is_approved is_published_state completed_run evaluations_of question_snapshots
    is_empty_list
load_approved_ledger_snapshot db req submission = do
  guard (is_approved submission.workflow_state || is_published_state submission.workflow_state)
      PublicationCode.invalid_workflow_state
  run ← require (completed_run db req submission) PublicationCode.evaluation_run_missing
  let qes = evaluations_of db req run.id
  guard (not (is_empty_list qes)) PublicationCode.ledger_empty
  questions ← question_snapshots db qes
  ok (record {
    run = run;
    qes = qes;
    canonical = record {
      evaluation_run_id = run.id;
      submission_id = submission.id;
      assessment_version_id = submission.assessment_version_id;
      questions = questions;
    };
  })

unfoldable pub sum_ℤ {ℓ} : {A : Type ℓ} → (A → ℤ) → List A → ℤ
unfolding ◌+ℤ◌
sum_ℤ f [] = pos 0
sum_ℤ f (x ∷ xs) = f x +ℤ sum_ℤ f xs

-- `qe.final_human_approved_score or Decimal("0")`
unfoldable pub score_or_zero : QuestionEvaluation → ℤ
score_or_zero qe = elim qe.final_human_approved_score [ some score ↦ score | none ↦ pos 0 ]

unfoldable pub same_ℤ : ℤ → ℤ → Bool
same_ℤ a b = not (ltb_ℤ a b || ltb_ℤ b a)

-- `total < 0 or (max_total > 0 and total > max_total)`
unfoldable pub out_of_range : (total max_total : ℤ) → Bool
out_of_range total max_total =
    ltb_ℤ total (pos 0) || (ltb_ℤ (pos 0) max_total && ltb_ℤ max_total total)

unfoldable pub reconcile_totals : List QuestionEvaluation → Result PublicationCode (ℤ × ℤ)
unfolding sum_ℤ score_or_zero same_ℤ out_of_range
reconcile_totals qes = do
  let total = sum_ℤ score_or_zero qes
  let max_total = sum_ℤ (λ qe. qe.max_mark) qes
  let leaf_sum = sum_ℤ score_or_zero qes
  guard (same_ℤ leaf_sum total) PublicationCode.total_mismatch
  guard (not (out_of_range total max_total)) PublicationCode.total_out_of_range
  ok (total, max_total)
