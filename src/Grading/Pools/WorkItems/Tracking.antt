-- ===== src/Grading/Pools/WorkItems/Tracking.antt =====
-- What a pool's progress counts, and what a submitted work item rests on.
use mathlib.Core.Path.{subst}
use eduvijna_paper_evaluatio.Prelude.{
  require-eq-ok, inr, inl, Any, ◌⊎◌, ℕ, ◌+◌, ◌≡◌, ap, sym, ◌∙◌, refl, true, Option, none, some,
  List, [], ◌∷◌, ok, guard, >>=-eq-ok, guard-eq-ok, ok-injective, ◌==◌, length, select, arith,
  update, first, first_keyed, require, ==_iff, ==_refl, Any-update, ◌&&◌,
}
use eduvijna_paper_evaluatio.Grading.Ledger.{QeState, QuestionEvaluation, is_reviewed}
use eduvijna_paper_evaluatio.Grading.Work.{WorkStatus, GradingWorkItem}
use eduvijna_paper_evaluatio.Grading.Store.{Store, Request, audit}
use eduvijna_paper_evaluatio.Grading.Pools.{get_pool}
use eduvijna_paper_evaluatio.Grading.Pools.WorkItems.{
  save_work, get_work, can_submit, has_decision, evaluation_of, submit_work_item, count_in,
  same_status, items_of_pool, Progress, pool_progress,
}

counts_all :
    (items : List GradingWorkItem)
    → count_in WorkStatus.queued items
        + count_in WorkStatus.in_progress items
        + count_in WorkStatus.submitted items
        + count_in WorkStatus.returned items
        + count_in WorkStatus.completed items
      ≡ length items
unfolding count_in same_status select
counts_all [] = omega arith
counts_all (i ∷ items) = ground (arith, counts_all items)

-- The total that a pool reports is the number of its work items in the caller's tenant: the five
-- counts miss none and count none twice.
pub pool_progress_total :
    (db : Store) (req : Request) (pool_id : ℕ) (p : Progress)
    → pool_progress db req pool_id ≡ ok p
    → p.total ≡ length (items_of_pool db req pool_id)
unfolding pool_progress
pool_progress_total db req pool_id p h =
    let (pool, found, h₁) = >>=-eq-ok (get_pool db req pool_id) _ h in
    sym (ap (λ (q : Progress). q.total) (ok-injective h₁))
    ∙ counts_all (items_of_pool db req pool_id)

-- A work item of the tenant that its assignee submitted, as it was and as it is in the table.
pub record Submitted (db after : Store) (req : Request) (id : ℕ) (submitted : GradingWorkItem)
    : Type 0 where
  pub item : GradingWorkItem
  pub in_table : Any (λ i. i ≡ item) db.work_items
  pub same_id : item.id ≡ id
  pub same_tenant : item.tenant_id ≡ req.tenant_id
  pub by_assignee : item.assigned_evaluator_id ≡ req.user_id
  pub was_open :
      (item.status ≡ WorkStatus.queued)
      ⊎ ((item.status ≡ WorkStatus.in_progress) ⊎ (item.status ≡ WorkStatus.returned))
  pub evaluation : QuestionEvaluation
  pub in_ledger : Any (λ q. q ≡ evaluation) db.question_evaluations
  pub evaluation_id : evaluation.id ≡ item.question_evaluation_id
  pub evaluation_tenant : evaluation.tenant_id ≡ req.tenant_id
  pub decided :
      (evaluation.workflow_state ≡ QeState.accepted)
      ⊎ (evaluation.workflow_state ≡ QeState.overridden)
  pub written :
      submitted ≡ record item { status = WorkStatus.submitted; submitted_at = some req.now }
  pub replaced : after.work_items ≡ update (λ i. i.id == item.id) (λ i. submitted) db.work_items
  pub is_stored : Any (λ i. i ≡ submitted) after.work_items
  pub ledger_kept : after.question_evaluations ≡ db.question_evaluations

decision_of :
    (o : Option QuestionEvaluation)
    → has_decision o ≡ true
    → (qe : QuestionEvaluation) × (o ≡ some qe) × (is_reviewed qe.workflow_state ≡ true)
unfolding has_decision
decision_of none h = cc
decision_of (some qe) h = (qe, refl, h)

pub reviewed_states :
    (s : QeState) → is_reviewed s ≡ true → (s ≡ QeState.accepted) ⊎ (s ≡ QeState.overridden)
unfolding is_reviewed
reviewed_states QeState.accepted h = inl refl
reviewed_states QeState.overridden h = inr refl
reviewed_states QeState.pending h = cc
reviewed_states QeState.proposed h = cc
reviewed_states QeState.review_required h = cc
reviewed_states QeState.escalated h = cc

open_states :
    (s : WorkStatus)
    → can_submit s ≡ true
    → (s ≡ WorkStatus.queued) ⊎ ((s ≡ WorkStatus.in_progress) ⊎ (s ≡ WorkStatus.returned))
unfolding can_submit
open_states WorkStatus.queued h = inl refl
open_states WorkStatus.in_progress h = inr (inl refl)
open_states WorkStatus.returned h = inr (inr refl)
open_states WorkStatus.submitted h = cc
open_states WorkStatus.completed h = cc

-- Only the assignee submits a work item of the tenant, only once it is queued, started or returned,
-- and only when the question evaluation behind it, in the same tenant, is ACCEPTED or OVERRIDDEN.
-- The item is then SUBMITTED, at the time of the request, in the table of work items, where nothing
-- else changes, and the ledger is as before.
pub submit_work_item-Submitted :
    (db after : Store) (req : Request) (id : ℕ) (submitted : GradingWorkItem)
    → submit_work_item db req id ≡ ok (after, submitted)
    → Submitted db after req id submitted
unfolding submit_work_item get_work evaluation_of save_work audit
submit_work_item-Submitted db after req id submitted h =
    let (item, found, h₁) =
      >>=-eq-ok (require (first (λ i. i.id == id && i.tenant_id == req.tenant_id) db.work_items) _)
        _ h in
    let (u, mine, h₂) = >>=-eq-ok (guard (item.assigned_evaluator_id == req.user_id) _) _ h₁ in
    let (v, open', h₃) = >>=-eq-ok (guard (can_submit item.status) _) _ h₂ in
    let (w, decided, h₄) = >>=-eq-ok (guard (has_decision (evaluation_of db req item)) _) _ h₃ in
    let (qe, evaluated, reviewed) =
      decision_of (evaluation_of db req item) (guard-eq-ok _ _ decided) in
    let (in_table, same_id, same_tenant) =
      first_keyed (λ (i : GradingWorkItem). i.id) (λ (i : GradingWorkItem). i.tenant_id) id
        req.tenant_id db.work_items (require-eq-ok _ _ found) in
    let (in_ledger, evaluation_id, evaluation_tenant) =
      first_keyed (λ (q : QuestionEvaluation). q.id) (λ (q : QuestionEvaluation). q.tenant_id)
        item.question_evaluation_id req.tenant_id db.question_evaluations evaluated in
    let e = ok-injective h₄ in
    let written = sym (ap (λ (p : Store × GradingWorkItem). p.1) e) in
    let replaced : after.work_items ≡ update (λ i. i.id == item.id) (λ i. submitted) db.work_items =
      sym (ap (λ (p : Store × GradingWorkItem). p.0.work_items) e)
      ∙ ap (λ (n : GradingWorkItem). update (λ i. i.id == item.id) (λ i. n) db.work_items)
          (sym written) in
    record {
      item = item;
      in_table = in_table;
      same_id = same_id;
      same_tenant = same_tenant;
      by_assignee = (==_iff _ _).0 (guard-eq-ok _ _ mine);
      was_open = open_states item.status (guard-eq-ok _ _ open');
      evaluation = qe;
      in_ledger = in_ledger;
      evaluation_id = evaluation_id;
      evaluation_tenant = evaluation_tenant;
      decided = reviewed_states qe.workflow_state reviewed;
      written = written;
      replaced = replaced;
      is_stored =
          subst (λ (is : List GradingWorkItem). Any (λ i. i ≡ submitted) is) (sym replaced)
            (Any-update (λ i. i.id == item.id) submitted db.work_items (==_refl item.id) in_table);
      ledger_kept = sym (ap (λ (p : Store × GradingWorkItem). p.0.question_evaluations) e);
    }
