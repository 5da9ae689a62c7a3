-- ===== src/Grading/Pools/WorkItems.antt =====
-- Work items on their way from the queue to submission, and the progress of a pool.
pub mod Tracking
use eduvijna_paper_evaluatio.Prelude.{
  ℕ, ◌+◌, suc, Bool, true, false, not, Option, none, some, List, [], ◌∷◌, String, Result, ok, err,
  guard, require, ◌>>=◌, ◌>>◌, ◌==◌, ◌&&◌, ◌||◌, first, update, select, length, if◌then◌else◌,
}
use eduvijna_paper_evaluatio.Grading.Ledger.{QuestionEvaluation, is_reviewed}
use eduvijna_paper_evaluatio.Grading.Work.{WorkStatus, GradingWorkItem}
use eduvijna_paper_evaluatio.Grading.Store.{
  Store, Request, Code, Payload, audit, not_found, forbidden, invalid_work_state, review_incomplete,
}
use eduvijna_paper_evaluatio.Grading.Pools.{get_pool}

unfoldable pub get_work : Store → Request → ℕ → Result Code GradingWorkItem
unfolding first
get_work db req id =
    require (first (λ i. i.id == id && i.tenant_id == req.tenant_id) db.work_items) not_found

unfoldable pub save_work : GradingWorkItem → Store → Store
unfolding update
save_work item db = record db {
  work_items = update (λ i. i.id == item.id) (λ i. item) db.work_items;
}

-- `{"QUEUED", "RETURNED"}`
unfoldable pub can_start : WorkStatus → Bool
can_start WorkStatus.queued = true
can_start WorkStatus.returned = true
can_start _ = false

-- `{"IN_PROGRESS", "QUEUED", "RETURNED"}`
unfoldable pub can_submit : WorkStatus → Bool
can_submit WorkStatus.in_progress = true
can_submit WorkStatus.queued = true
can_submit WorkStatus.returned = true
can_submit _ = false

unfoldable pub is_queued_for : Request → ℕ → GradingWorkItem → Bool
is_queued_for req user_id i =
    i.tenant_id == req.tenant_id
    && (i.assigned_evaluator_id == user_id
        && (elim i.status [ WorkStatus.completed ↦ false | _ ↦ true ]))

-- The queue is in the order of creation, which is the order of the table.
unfoldable pub my_grading_queue : Store → Request → ℕ → List GradingWorkItem
unfolding select is_queued_for
my_grading_queue db req user_id = select (is_queued_for req user_id) db.work_items

unfoldable pub start_work_item : Store → Request → ℕ → Result Code (Store × GradingWorkItem)
unfolding get_work can_start save_work
start_work_item db req id = do
  item ← get_work db req id
  guard (item.assigned_evaluator_id == req.user_id) forbidden
  guard (can_start item.status) invalid_work_state
  let started = record item { status = WorkStatus.in_progress; started_at = some req.now }
  ok (save_work started db, started)

-- `qe is None or qe.workflow_state not in {"ACCEPTED", "OVERRIDDEN"}`, negated
unfoldable pub has_decision : Option QuestionEvaluation → Bool
unfolding is_reviewed
has_decision none = false
has_decision (some qe) = is_reviewed qe.workflow_state

unfoldable pub evaluation_of : Store → Request → GradingWorkItem → Option QuestionEvaluation
unfolding first
evaluation_of db req item =
    first (λ q. q.id == item.question_evaluation_id && q.tenant_id == req.tenant_id)
      db.question_evaluations

unfoldable pub submit_work_item : Store → Request → ℕ → Result Code (Store × GradingWorkItem)
unfolding get_work can_submit evaluation_of has_decision save_work audit
submit_work_item db req id = do
  item ← get_work db req id
  guard (item.assigned_evaluator_id == req.user_id) forbidden
  guard (can_submit item.status) invalid_work_state
  guard (has_decision (evaluation_of db req item)) review_incomplete
  let submitted = record item { status = WorkStatus.submitted; submitted_at = some req.now }
  ok (
    audit req "GradingWorkItem" item.id "grading_work_submitted" (Payload.work submitted)
        (save_work submitted db),
    submitted,
  )

unfoldable pub same_status : WorkStatus → WorkStatus → Bool
same_status WorkStatus.queued WorkStatus.queued = true
same_status WorkStatus.in_progress WorkStatus.in_progress = true
same_status WorkStatus.submitted WorkStatus.submitted = true
same_status WorkStatus.returned WorkStatus.returned = true
same_status WorkStatus.completed WorkStatus.completed = true
same_status _ _ = false

unfoldable pub items_of_pool : Store → Request → ℕ → List GradingWorkItem
unfolding select
items_of_pool db req pool_id =
    select (λ i. i.tenant_id == req.tenant_id && i.pool_id == pool_id) db.work_items

-- `func.count()` of a group
unfoldable pub count_in : WorkStatus → List GradingWorkItem → ℕ
unfolding select same_status
count_in status items = length (select (λ i. same_status i.status status) items)

-- A group of `by_evaluator` is in the answer if its count is not 0.
pub record Progress : Type 0 where
  pub counts : WorkStatus → ℕ
  pub total : ℕ
  pub by_evaluator : ℕ → WorkStatus → ℕ

unfoldable pub pool_progress : Store → Request → ℕ → Result Code Progress
unfolding get_pool items_of_pool count_in select
pool_progress db req pool_id = do
  pool ← get_pool db req pool_id
  let items = items_of_pool db req pool_id
  ok (record {
    counts = λ status. count_in status items;
    total =
        count_in WorkStatus.queued items
        + count_in WorkStatus.in_progress items
        + count_in WorkStatus.submitted items
        + count_in WorkStatus.returned items
        + count_in WorkStatus.completed items;
    by_evaluator =
        λ user_id status. count_in status (select (λ i. i.assigned_evaluator_id == user_id) items);
  })
