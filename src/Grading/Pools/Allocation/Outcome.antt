-- ===== src/Grading/Pools/Allocation/Outcome.antt =====
-- What a request to allocate a run's evaluations has checked and written.
use mathlib.Core.Path.{subst}
use eduvijna_paper_evaluatio.Prelude.{
  &&-eq-true, first-test, ==_iff, ℕ, ◌≡◌, ◌<◌, ap, sym, ◌∙◌, refl, zero, true, some, List, [], ◌∷◌,
  ◌++◌, ok, guard, require, >>=-eq-ok, require-eq-ok, guard-eq-ok, ok-injective, ◌==◌, length,
  sort_by, All, All-imp, All-sort_by, sort_by-All, Any-sort_by, arith,
}
use eduvijna_paper_evaluatio.Grading.Ledger.{EvaluationRun, QuestionEvaluation}
use eduvijna_paper_evaluatio.Grading.Work.{
  AllocationStrategy, GradingPool, GradingPoolMember, GradingWorkItem,
}
use eduvijna_paper_evaluatio.Grading.Store.{audit, Store, Request}
use eduvijna_paper_evaluatio.Grading.Pools.{get_pool, is_active, active_members, some_member}
use eduvijna_paper_evaluatio.Grading.Pools.Allocation.{
  round, evaluations_of, load_run, allocate_work,
}
use eduvijna_paper_evaluatio.Grading.Pools.Allocation.Coverage.{
  Assigned, Added, round-covers, round-Added, round_of_Assigned,
}

append_nil {ℓ} : {A : Type ℓ} (xs : List A) → xs ++ [] ≡ xs
append_nil [] = refl
append_nil (x ∷ xs) = ap (λ l. x ∷ l) (append_nil xs)

some_member-length : (ms : List GradingPoolMember) → some_member ms ≡ ok tt → zero < length ms
unfolding some_member
some_member-length [] h = cc
some_member-length (m ∷ ms) h = omega arith

module _ (db : Store) (req : Request) (pool_id run_id : ℕ) where
  -- The items that the allocation added, and what they cover.
  pub record Allocated (after : Store) (created : List GradingWorkItem) : Type 0 where
    pub pool : GradingPool
    pub run : EvaluationRun
    pub pool_found : get_pool db req pool_id ≡ ok pool
    pub pool_active : is_active pool.status ≡ true
    pub run_found : load_run db req run_id ≡ some run
    pub same_version : (run.assessment_version_id == pool.assessment_version_id) ≡ true
    pub added : All (Added req pool run (active_members db req pool_id) db.work_items) created
    pub covered :
        pool.allocation_strategy ≡ AllocationStrategy.round_robin
        → All (Assigned req after.work_items) (evaluations_of db req run.id)
    pub written :
        after
        ≡ record db { work_items = db.work_items ++ created; audit_events = after.audit_events }

  Added-sort_by :
      (pool : GradingPool) (run : EvaluationRun) {item : GradingWorkItem}
      → Added req pool run
          (sort_by (λ m. m.user_id) (active_members db req pool_id))
          db.work_items
          item
      → Added req pool run (active_members db req pool_id) db.work_items item
  Added-sort_by pool run a = record {
    status = a.status;
    pool_id = a.pool_id;
    run_id = a.run_id;
    unassigned = a.unassigned;
    assigned_by = a.assigned_by;
    to_member = Any-sort_by (λ m. m.user_id) _ (active_members db req pool_id) a.to_member;
  }

  -- An allocation that succeeds found an ACTIVE pool and a run of the pool's assessment version in
  -- the caller's tenant. Each item it adds is QUEUED, assigned to an active member of the pool, and
  -- for an evaluation that had no active item before. With the round-robin strategy every
  -- evaluation of the run has an active item afterwards. No other table changes but the audit.
  pub allocate_work-Allocated :
      (after : Store) (created : List GradingWorkItem)
      → allocate_work db req pool_id run_id ≡ ok (after, created)
      → Allocated after created
  unfolding allocate_work audit
  allocate_work-Allocated after created h =
      let (pool, pool_found, h₁) = >>=-eq-ok (get_pool db req pool_id) _ h in
      let (u, pool_active, h₂) = >>=-eq-ok (guard (is_active pool.status) _) _ h₁ in
      let (run, run_found, h₃) = >>=-eq-ok (require (load_run db req run_id) _) _ h₂ in
      let (v, same, h₄) =
        >>=-eq-ok (guard (run.assessment_version_id == pool.assessment_version_id) _) _ h₃ in
      let members =
        sort_by (λ (m : GradingPoolMember). m.user_id) (active_members db req pool_id) in
      let (w, some', h₅) = >>=-eq-ok (some_member members) _ h₄ in
      let qes = sort_by (λ (q : QuestionEvaluation). q.id) (evaluations_of db req run.id) in
      let made = round req pool run members qes db.work_items 0 in
      subst (λ p. Allocated p.0 p.1) (ok-injective h₅)
        (record {
          pool = pool;
          run = run;
          pool_found = pool_found;
          pool_active = guard-eq-ok _ _ pool_active;
          run_found = require-eq-ok _ _ run_found;
          same_version = guard-eq-ok _ _ same;
          added =
              All-imp (λ item a. Added-sort_by pool run a) made
                (subst
                  (λ l.
                    All (Added req pool run members db.work_items)
                      (round req pool run members qes l 0))
                  (append_nil db.work_items)
                  (round-Added req pool run members (some_member-length members some') qes
                    db.work_items [] 0));
          covered = λ by_rounds.
              sort_by-All (λ (q : QuestionEvaluation). q.id) _ (evaluations_of db req run.id)
                (round-covers req pool run members qes db.work_items 0 by_rounds);
          written = refl;
        })

load_run-id :
    (db : Store) (req : Request) (run_id : ℕ) {run : EvaluationRun}
    → load_run db req run_id ≡ some run
    → run.id ≡ run_id
unfolding load_run
load_run-id db req run_id {run} found =
    (==_iff run.id run_id).0
      (&&-eq-true (run.id == run_id) (run.tenant_id == req.tenant_id)
        (first-test _ db.runs found)).0

module _ (db : Store) (req : Request) (user_id now : ℕ) (uuid4 : ℕ → ℕ) where
  -- a request of the same tenant
  abbrev pub later : Request
  later = record req { user_id = user_id; now = now; uuid4 = uuid4 }

  still_covered :
      (pool_id run_id : ℕ) {pool : GradingPool} {run : EvaluationRun} (mid : Store)
      (created : List GradingWorkItem)
      → get_pool db req pool_id ≡ ok pool
      → pool.allocation_strategy ≡ AllocationStrategy.round_robin
      → Allocated db req pool_id run_id mid created
      → load_run mid later run_id ≡ some run
      → All (Assigned later mid.work_items) (evaluations_of mid later run.id)
  unfolding evaluations_of
  still_covered pool_id run_id {pool} {run} mid created pool_found by_rounds a found =
      let same_pool : a.pool ≡ pool = ok-injective (sym a.pool_found ∙ pool_found) in
      let same_run : run.id ≡ a.run.id =
        load_run-id mid later run_id found ∙ sym (load_run-id db req run_id a.run_found) in
      let same_rows = ap (λ (d : Store). d.question_evaluations) a.written in
      rw (same_rows, same_run)
        (a.covered (ap (λ (p : GradingPool). p.allocation_strategy) same_pool ∙ by_rounds))

  -- Allocating a run's evaluations from a round-robin pool again, by whoever asks later in the
  -- same tenant, adds nothing: every evaluation has its active item already.
  pub allocate_work_twice :
      (pool_id run_id : ℕ) {pool : GradingPool} (mid after : Store)
      (created more : List GradingWorkItem)
      → get_pool db req pool_id ≡ ok pool
      → pool.allocation_strategy ≡ AllocationStrategy.round_robin
      → allocate_work db req pool_id run_id ≡ ok (mid, created)
      → allocate_work mid later pool_id run_id ≡ ok (after, more)
      → more ≡ []
  unfolding allocate_work
  allocate_work_twice pool_id run_id mid after created more pool_found by_rounds h k =
      let a = allocate_work-Allocated db req pool_id run_id mid created h in
      let (pool', pool_found', h₁) = >>=-eq-ok (get_pool mid later pool_id) _ k in
      let (u, pool_active, h₂) = >>=-eq-ok (guard (is_active pool'.status) _) _ h₁ in
      let (run, run_found, h₃) = >>=-eq-ok (require (load_run mid later run_id) _) _ h₂ in
      let (v, same, h₄) =
        >>=-eq-ok (guard (run.assessment_version_id == pool'.assessment_version_id) _) _ h₃ in
      let members =
        sort_by (λ (m : GradingPoolMember). m.user_id) (active_members mid later pool_id) in
      let (w, some', h₅) = >>=-eq-ok (some_member members) _ h₄ in
      let covered =
        still_covered pool_id run_id mid created pool_found by_rounds a
          (require-eq-ok _ _ run_found) in
      sym (ap (λ p. p.1) (ok-injective h₅))
      ∙ round_of_Assigned later pool' run members
          (sort_by (λ (q : QuestionEvaluation). q.id) (evaluations_of mid later run.id))
          mid.work_items 0
          (All-sort_by (λ (q : QuestionEvaluation). q.id) _ (evaluations_of mid later run.id)
            covered)
