-- ===== src/Grading/Pools.antt =====
-- The grading pools of enterprise_ops.py: members, allocation and work items. The value that an
-- operation returns is the row, whose columns `_serialize_pool` and `_serialize_work` copy.
pub mod Allocation
pub mod WorkItems
use eduvijna_paper_evaluatio.Prelude.{
  ℕ, Bool, true, false, not, Option, none, some, List, [], ◌∷◌, ◌++◌, map, String, Result, ok, err,
  guard, require, ◌>>=◌, ◌>>◌, ◌==◌, ◌&&◌, first, update, select, meets,
}
use eduvijna_paper_evaluatio.Grading.Work.{
  PoolStatus, AllocationStrategy, WorkStatus, GradingPool, GradingPoolMember, GradingWorkItem,
}
use eduvijna_paper_evaluatio.Grading.Store.{
  invalid_allocation, Store, Request, Code, User, UserRole, Payload, audit, not_found, pool_closed,
  invalid_member_role, invalid_pool_state, pool_empty,
}

abbrev pub allowed_grading_member_roles : List String
allowed_grading_member_roles = "EVALUATOR" ∷ "TEACHER" ∷ "INSTITUTION_ADMIN" ∷ []

unfoldable pub is_draft : PoolStatus → Bool
is_draft PoolStatus.draft = true
is_draft _ = false

unfoldable pub is_active : PoolStatus → Bool
is_active PoolStatus.active = true
is_active _ = false

unfoldable pub is_closed : PoolStatus → Bool
is_closed PoolStatus.closed = true
is_closed _ = false

-- `ACTIVE_WORK_STATUSES`
unfoldable pub is_active_work : WorkStatus → Bool
is_active_work WorkStatus.queued = true
is_active_work WorkStatus.in_progress = true
is_active_work WorkStatus.submitted = true
is_active_work _ = false

unfoldable pub get_pool : Store → Request → ℕ → Result Code GradingPool
unfolding first
get_pool db req pool_id =
    require (first (λ p. p.id == pool_id && p.tenant_id == req.tenant_id) db.pools) not_found

unfoldable pub save_pool : GradingPool → Store → Store
unfolding update
save_pool pool db = record db { pools = update (λ p. p.id == pool.id) (λ p. pool) db.pools }

unfoldable pub new_pool :
    Request → (assessment_id version_id : ℕ) → AllocationStrategy → GradingPool
new_pool req assessment_id version_id strategy = record {
  id = req.uuid4 0;
  tenant_id = req.tenant_id;
  assessment_id = assessment_id;
  assessment_version_id = version_id;
  status = PoolStatus.draft;
  allocation_strategy = strategy;
  created_by = some req.user_id;
  activated_by = none;
  activated_at = none;
  closed_by = none;
  closed_at = none;
}

-- `none` is a strategy that is neither of the two
unfoldable pub create_grading_pool :
    Store
    → Request
    → (assessment_id version_id : ℕ) → Option AllocationStrategy
    → Result Code (Store × GradingPool)
unfolding new_pool audit
create_grading_pool db req assessment_id version_id strategy = do
  strategy ← require strategy invalid_allocation
  let pool = new_pool req assessment_id version_id strategy
  ok (
    audit req "GradingPool" pool.id "grading_pool_created" (Payload.pool pool)
        (record db { pools = db.pools ++ pool ∷ [] }),
    pool,
  )

-- `_user_roles`
unfoldable pub user_roles : Store → Request → ℕ → List String
unfolding select
user_roles db req user_id =
    map (λ (r : UserRole). r.code)
      (select (λ r. r.tenant_id == req.tenant_id && r.user_id == user_id) db.user_roles)

unfoldable pub is_member : Request → (pool_id user_id : ℕ) → GradingPoolMember → Bool
is_member req pool_id user_id m =
    m.tenant_id == req.tenant_id && (m.pool_id == pool_id && m.user_id == user_id)

-- the row of `add_pool_member`, changed or new, and the table with it
unfoldable pub enrol :
    Store
    → Request
    → (pool_id user_id : ℕ) → Option ℕ
    → Option GradingPoolMember
    → List GradingPoolMember × GradingPoolMember
unfolding update
enrol db req pool_id user_id capacity (some existing) =
    let member = record existing { is_active = true; capacity = capacity } in
    (update (λ m. m.id == existing.id) (λ m. member) db.members, member)
enrol db req pool_id user_id capacity none =
    let member : GradingPoolMember = record {
      id = req.uuid4 0;
      tenant_id = req.tenant_id;
      pool_id = pool_id;
      user_id = user_id;
      is_active = true;
      capacity = capacity;
    } in
    (db.members ++ member ∷ [], member)

unfoldable pub add_pool_member :
    Store → Request → (pool_id user_id : ℕ) → Option ℕ → Result Code (Store × GradingPoolMember)
unfolding get_pool is_closed first user_roles meets is_member enrol audit
add_pool_member db req pool_id user_id capacity = do
  pool ← get_pool db req pool_id
  guard (not (is_closed pool.status)) pool_closed
  user ←
      require (first (λ (u : User). u.id == user_id && u.tenant_id == req.tenant_id) db.users)
        not_found
  guard (meets (user_roles db req user_id) allowed_grading_member_roles) invalid_member_role
  let (members, member) =
      enrol db req pool_id user_id capacity (first (is_member req pool_id user_id) db.members)
  ok (
    audit req "GradingPoolMember" member.id "grading_pool_member_added"
        (Payload.member pool_id user_id capacity) (record db { members = members }),
    member,
  )

unfoldable pub active_members : Store → Request → ℕ → List GradingPoolMember
unfolding select
active_members db req pool_id =
    select (λ m. m.tenant_id == req.tenant_id && (m.pool_id == pool_id && m.is_active)) db.members

-- `if not members`
unfoldable pub some_member : List GradingPoolMember → Result Code Unit
some_member [] = err pool_empty
some_member (m ∷ ms) = ok tt

unfoldable pub activate_pool : Store → Request → ℕ → Result Code (Store × GradingPool)
unfolding get_pool is_draft active_members some_member save_pool audit
activate_pool db req pool_id = do
  pool ← get_pool db req pool_id
  guard (is_draft pool.status) invalid_pool_state
  some_member (active_members db req pool_id)
  let activated = record pool {
    status = PoolStatus.active;
    activated_by = some req.user_id;
    activated_at = some req.now;
  }
  ok (
    audit req "GradingPool" pool.id "grading_pool_activated" (Payload.pool activated)
        (save_pool activated db),
    activated,
  )

unfoldable pub close_pool : Store → Request → ℕ → Result Code (Store × GradingPool)
unfolding get_pool save_pool audit
close_pool db req pool_id = do
  pool ← get_pool db req pool_id
  let closed = record pool {
    status = PoolStatus.closed;
    closed_by = some req.user_id;
    closed_at = some req.now;
  }
  ok (
    audit req "GradingPool" pool.id "grading_pool_closed" (Payload.pool closed)
        (save_pool closed db),
    closed,
  )

-- the query for an active work item of a question evaluation
unfoldable pub active_item : Request → List GradingWorkItem → ℕ → Option GradingWorkItem
unfolding first is_active_work
active_item req work_items qe_id =
    first
      (λ i.
        i.tenant_id == req.tenant_id
        && (i.question_evaluation_id == qe_id && is_active_work i.status))
      work_items

unfoldable pub new_item :
    Request
    → GradingPool
    → (id submission_id evaluation_run_id qe_id evaluator : ℕ) → GradingWorkItem
new_item req pool id submission_id evaluation_run_id qe_id evaluator = record {
  id = id;
  tenant_id = req.tenant_id;
  pool_id = pool.id;
  submission_id = submission_id;
  evaluation_run_id = evaluation_run_id;
  question_evaluation_id = qe_id;
  assigned_evaluator_id = evaluator;
  status = WorkStatus.queued;
  assigned_by = some req.user_id;
  assigned_at = some req.now;
  started_at = none;
  submitted_at = none;
}
