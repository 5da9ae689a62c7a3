-- ===== src/Grading/Pools/Allocation.antt =====
-- `allocate_work` and `assign_work_manual`.
pub mod Coverage
pub mod Outcome
use eduvijna_paper_evaluatio.Prelude.{
  ℕ, ◌%◌, zero, suc, Bool, true, false, not, Option, none, some, List, [], ◌∷◌, ◌++◌, map, String,
  Result, ok, err, guard, require, ◌>>=◌, ◌>>◌, ◌==◌, ◌&&◌, first, select, length, sort_by,
  if◌then◌else◌,
}
use eduvijna_paper_evaluatio.Grading.Ledger.{EvaluationRun, QuestionEvaluation}
use eduvijna_paper_evaluatio.Grading.Work.{
  PoolStatus, AllocationStrategy, GradingPool, GradingPoolMember, GradingWorkItem,
}
use eduvijna_paper_evaluatio.Grading.Store.{
  Store, Request, Code, Payload, audit, not_found, pool_not_active, assessment_mismatch, not_member,
  already_assigned,
}
use eduvijna_paper_evaluatio.Grading.Pools.{
  get_pool, is_active, active_members, some_member, active_item, new_item, is_member,
}

-- `members[index]`, an index in range
unfoldable pub member_at : List GradingPoolMember → ℕ → Option GradingPoolMember
member_at [] index = none
member_at (m ∷ ms) zero = some m
member_at (m ∷ ms) (suc index) = member_at ms index

unfoldable pub evaluator_at : List GradingPoolMember → ℕ → ℕ
unfolding member_at
evaluator_at members index = elim (member_at members index) [ some m ↦ m.user_id | none ↦ 0 ]

module _ (req : Request) (pool : GradingPool) (run : EvaluationRun)
    (members : List GradingPoolMember) where
  -- the item of the round that `rr_index` counts
  unfoldable pub next_item : QuestionEvaluation → ℕ → GradingWorkItem
  unfolding new_item evaluator_at
  next_item qe rr_index =
      new_item req pool (req.uuid4 rr_index) run.submission_id run.id qe.id
        (evaluator_at members (rr_index % length members))

  -- The loop over the sorted evaluations: the items it adds to those of the table. Each query
  -- flushes the items that were added before it.
  unfoldable pub round : List QuestionEvaluation → List GradingWorkItem → ℕ → List GradingWorkItem
  unfolding active_item next_item
  round [] items rr_index = []
  round (qe ∷ qes) items rr_index =
      let skipped = round qes items rr_index in
      let added =
        next_item qe rr_index ∷ round qes (items ++ next_item qe rr_index ∷ []) (suc rr_index) in
      elim (active_item req items qe.id) [
        | some active ↦ skipped
        | none ↦ elim pool.allocation_strategy [
          | AllocationStrategy.manual ↦ skipped
          | AllocationStrategy.round_robin ↦ added
        ]
      ]

unfoldable pub load_run : Store → Request → ℕ → Option EvaluationRun
unfolding first
load_run db req run_id = first (λ r. r.id == run_id && r.tenant_id == req.tenant_id) db.runs

unfoldable pub evaluations_of : Store → Request → ℕ → List QuestionEvaluation
unfolding select
evaluations_of db req run_id =
    select (λ q. q.tenant_id == req.tenant_id && q.evaluation_run_id == run_id)
      db.question_evaluations

unfoldable pub allocate_work :
    Store → Request → (pool_id evaluation_run_id : ℕ) → Result Code (Store × List GradingWorkItem)
unfolding get_pool is_active load_run active_members some_member sort_by evaluations_of round audit
allocate_work db req pool_id evaluation_run_id = do
  pool ← get_pool db req pool_id
  guard (is_active pool.status) pool_not_active
  run ← require (load_run db req evaluation_run_id) not_found
  guard (run.assessment_version_id == pool.assessment_version_id) assessment_mismatch
  some_member (sort_by (λ m. m.user_id) (active_members db req pool_id))
  let created =
      round req pool run (sort_by (λ m. m.user_id) (active_members db req pool_id))
        (sort_by (λ q. q.id) (evaluations_of db req run.id)) db.work_items 0
  ok (
    audit req "GradingPool" pool.id "grading_work_allocated"
        (Payload.allocated (length created) run.id)
        (record db { work_items = db.work_items ++ created }),
    created,
  )

-- `if active is not None: raise`
unfoldable pub require_none : Option GradingWorkItem → Result Code Unit
require_none none = ok tt
require_none (some item) = err already_assigned

unfoldable pub assign_work_manual :
    Store
    → Request
    → (pool_id question_evaluation_id evaluator_user_id : ℕ) → Result Code (Store × GradingWorkItem)
unfolding get_pool is_active first is_member active_item require_none new_item audit
assign_work_manual db req pool_id question_evaluation_id evaluator_user_id = do
  pool ← get_pool db req pool_id
  guard (is_active pool.status) pool_not_active
  member ←
      require (first (λ m. is_member req pool_id evaluator_user_id m && m.is_active) db.members)
        not_member
  qe ←
      require
        (first (λ q. q.id == question_evaluation_id && q.tenant_id == req.tenant_id)
          db.question_evaluations)
        not_found
  require_none (active_item req db.work_items qe.id)
  let item =
      new_item req pool (req.uuid4 0) qe.submission_id qe.evaluation_run_id qe.id evaluator_user_id
  ok (
    audit req "GradingWorkItem" item.id "grading_work_assigned" (Payload.work item)
        (record db { work_items = db.work_items ++ item ∷ [] }),
    item,
  )
