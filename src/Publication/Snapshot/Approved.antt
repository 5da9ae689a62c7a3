-- ===== src/Publication/Snapshot/Approved.antt =====
-- What a snapshot that was taken says of the ledger.
use eduvijna_paper_evaluatio.Prelude.{
  ◌≡◌, refl, sym, ap, ◌∙◌, true, not, ◌||◌, some, List, [], ◌∷◌, ok, guard, require, >>=-eq-ok,
  ok-injective, guard-eq-ok, require-eq-ok, All,
}
use eduvijna_paper_evaluatio.Prelude.Int.{ℤ, ◌+ℤ◌}
use eduvijna_paper_evaluatio.Grading.Ledger.{QuestionEvaluation, Submission, is_reviewed}
use eduvijna_paper_evaluatio.Grading.Pools.Allocation.{evaluations_of}
use eduvijna_paper_evaluatio.Grading.Store.{Store, Request}
use eduvijna_paper_evaluatio.Publication.Tables.{QuestionSnapshot}
use eduvijna_paper_evaluatio.Publication.Snapshot.{
  sum_ℤ, score_or_zero, question_snapshot, question_snapshots, Loaded, is_approved,
  is_published_state, is_empty_list, completed_run, load_approved_ledger_snapshot,
}
use eduvijna_paper_evaluatio.Publication.Snapshot.Totals.{total_of, max_total_of}

-- The row is accepted or overridden, and has a final score.
pub record IsApproved (qe : QuestionEvaluation) : Type 0 where
  pub reviewed : is_reviewed qe.workflow_state ≡ true
  pub score : ℤ
  pub final : qe.final_human_approved_score ≡ some score

final_sum : List QuestionSnapshot → ℤ
final_sum qs = sum_ℤ (λ (q : QuestionSnapshot). q.final_human_approved_score) qs

max_sum : List QuestionSnapshot → ℤ
max_sum qs = sum_ℤ (λ (q : QuestionSnapshot). q.max_mark) qs

record Pictured (qes : List QuestionEvaluation) (qs : List QuestionSnapshot) : Type 0 where
  approved : All IsApproved qes
  total : final_sum qs ≡ total_of qes
  max : max_sum qs ≡ max_total_of qes

question_snapshot-IsApproved :
    (db : Store) (qe : QuestionEvaluation) {q : QuestionSnapshot}
    → question_snapshot db qe ≡ ok q
    → IsApproved qe × (q.final_human_approved_score ≡ score_or_zero qe) × (q.max_mark ≡ qe.max_mark)
unfolding question_snapshot score_or_zero
question_snapshot-IsApproved db qe h =
    let (u, reviewed, h₁) = >>=-eq-ok (guard (is_reviewed qe.workflow_state) _) _ h in
    let (score, final, h₂) = >>=-eq-ok (require qe.final_human_approved_score _) _ h₁ in
    let has_score = require-eq-ok _ _ final in
    let made = ok-injective h₂ in
    (
      record { reviewed = guard-eq-ok _ _ reviewed; score = score; final = has_score },
      ap (λ (x : QuestionSnapshot). x.final_human_approved_score) (sym made) ∙ rw has_score refl,
      ap (λ (x : QuestionSnapshot). x.max_mark) (sym made),
    )

question_snapshots-Pictured :
    (db : Store) (qes : List QuestionEvaluation) (qs : List QuestionSnapshot)
    → question_snapshots db qes ≡ ok qs
    → Pictured qes qs
unfolding question_snapshots sum_ℤ final_sum max_sum
question_snapshots-Pictured db [] qs h =
    let e = ok-injective h in
    record { approved = tt; total = ap final_sum (sym e); max = ap max_sum (sym e) }
question_snapshots-Pictured db (qe ∷ qes) qs h =
    let (q, one, h₁) = >>=-eq-ok (question_snapshot db qe) _ h in
    let (rest, others, h₂) = >>=-eq-ok (question_snapshots db qes) _ h₁ in
    let (approved, final, max) = question_snapshot-IsApproved db qe one in
    let r = question_snapshots-Pictured db qes rest others in
    let e = ok-injective h₂ in
    record {
      approved = (approved, r.approved);
      total =
          ap final_sum (sym e)
          ∙ (ap (λ x. x +ℤ final_sum rest) final ∙ ap (λ x. score_or_zero qe +ℤ x) r.total);
      max =
          ap max_sum (sym e) ∙ (ap (λ x. x +ℤ max_sum rest) max ∙ ap (λ x. qe.max_mark +ℤ x) r.max);
    }

module _ (db : Store) (req : Request) (submission : Submission) where
  pub record Snapshotted (loaded : Loaded) : Type 0 where
    pub released :
        (is_approved submission.workflow_state || is_published_state submission.workflow_state)
        ≡ true
    pub latest : completed_run db req submission ≡ some loaded.run
    pub whole : loaded.qes ≡ evaluations_of db req loaded.run.id
    pub approved : All IsApproved loaded.qes
    pub total :
        sum_ℤ (λ (q : QuestionSnapshot). q.final_human_approved_score) loaded.canonical.questions
        ≡ total_of loaded.qes
    pub max :
        sum_ℤ (λ (q : QuestionSnapshot). q.max_mark) loaded.canonical.questions
        ≡ max_total_of loaded.qes
    pub run : loaded.canonical.evaluation_run_id ≡ loaded.run.id
    pub script : loaded.canonical.submission_id ≡ submission.id

  -- A snapshot that is taken is of the newest COMPLETED run of the submission and of all its
  -- ledger rows, each of which is accepted or overridden with a final score, and its questions
  -- sum up to the totals of the ledger.
  pub load_approved_ledger_snapshot-Snapshotted :
      (loaded : Loaded)
      → load_approved_ledger_snapshot db req submission ≡ ok loaded
      → Snapshotted loaded
  unfolding load_approved_ledger_snapshot final_sum max_sum
  load_approved_ledger_snapshot-Snapshotted loaded h =
      let (u, released, h₁) =
        >>=-eq-ok
          (guard
            (is_approved submission.workflow_state || is_published_state submission.workflow_state)
            _)
          _ h in
      let (run, latest, h₂) = >>=-eq-ok (require (completed_run db req submission) _) _ h₁ in
      let qes = evaluations_of db req run.id in
      let (v, some', h₃) = >>=-eq-ok (guard (not (is_empty_list qes)) _) _ h₂ in
      let (questions, taken, h₄) = >>=-eq-ok (question_snapshots db qes) _ h₃ in
      let p = question_snapshots-Pictured db qes questions taken in
      mathlib.Core.Path.subst Snapshotted (ok-injective h₄) (record {
        released = guard-eq-ok _ _ released;
        latest = require-eq-ok _ _ latest;
        whole = refl;
        approved = p.approved;
        total = p.total;
        max = p.max;
        run = refl;
        script = refl;
      })
