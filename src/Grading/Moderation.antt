-- ===== src/Grading/Moderation.antt =====
-- The moderation policies of enterprise_ops.py, and the case that an evaluation run is given.
pub mod Decide
pub mod Stages
pub mod Admission
pub mod Outcome
pub mod Policies
use eduvijna_paper_evaluatio.Prelude.{
  ℕ, suc, Bool, true, false, not, Option, none, some, List, [], ◌∷◌, ◌++◌, map, String, Result, ok,
  err, guard, require, ◌>>=◌, ◌>>◌, ◌==◌, ◌&&◌, first, update, select, has_text, is_empty, sort_by,
  if◌then◌else◌,
}
use eduvijna_paper_evaluatio.Grading.Ledger.{EvaluationRun, Submission}
use eduvijna_paper_evaluatio.Grading.Work.{
  PolicyStatus, CaseStatus, ModerationPolicy, ModerationStage, ModerationCase,
}
use eduvijna_paper_evaluatio.Grading.Store.{
  Store, Request, Code, Payload, audit, not_found, moderation_policy_empty, invalid_stage_role,
  invalid_policy_state, policy_active_exists,
}

abbrev pub moderation_roles : List String
moderation_roles =
    "MODERATOR" ∷ "HOD" ∷ "ACADEMIC_COORDINATOR" ∷ "EXAM_CONTROLLER" ∷ "INSTITUTION_ADMIN" ∷ []

unfoldable pub is_draft_policy : PolicyStatus → Bool
is_draft_policy PolicyStatus.draft = true
is_draft_policy _ = false

unfoldable pub is_active_policy : PolicyStatus → Bool
is_active_policy PolicyStatus.active = true
is_active_policy _ = false

-- the query of `active_moderation_policy`
unfoldable pub governs : Request → ℕ → ModerationPolicy → Bool
unfolding is_active_policy
governs req version_id p =
    p.tenant_id == req.tenant_id
    && (p.assessment_version_id == version_id && is_active_policy p.status)

unfoldable pub active_moderation_policy : Store → Request → ℕ → Option ModerationPolicy
unfolding first governs
active_moderation_policy db req version_id = first (governs req version_id) db.policies

unfoldable pub stages_of : Store → Request → ℕ → List ModerationStage
unfolding select
stages_of db req policy_id =
    select (λ s. s.tenant_id == req.tenant_id && s.policy_id == policy_id) db.stages

-- `order_by(stage_order.asc()).limit(1)`
unfoldable pub lowest : List ModerationStage → Option ModerationStage
unfolding sort_by first
lowest stages = first (λ s. true) (sort_by (λ s. s.stage_order) stages)

unfoldable pub get_policy : Store → Request → ℕ → Result Code ModerationPolicy
unfolding first
get_policy db req id =
    require (first (λ p. p.id == id && p.tenant_id == req.tenant_id) db.policies) not_found

unfoldable pub save_policy : ModerationPolicy → Store → Store
unfolding update
save_policy policy db = record db {
  policies = update (λ p. p.id == policy.id) (λ p. policy) db.policies;
}

-- a stage of the request: its order, if it gives one, its role and its label
pub record StageIn : Type 0 where
  pub stage_order : Option ℕ
  pub required_role : String
  pub label : Option String

unfoldable pub order_or : Option ℕ → ℕ → ℕ
order_or (some order) index = order
order_or none index = index

-- `str(stage.get("label") or f"Stage {idx}")`, where `stage_name` is the text for the index
unfoldable pub label_or : Option String → String → String
unfolding is_empty
label_or none stage_name = stage_name
label_or (some label) stage_name = if is_empty label then stage_name else label

module _ (req : Request) (stage_name : ℕ → String) where
  unfoldable pub new_stages :
      (policy_id index : ℕ) → List StageIn → Result Code (List ModerationStage)
  unfolding has_text order_or label_or
  new_stages policy_id index [] = ok []
  new_stages policy_id index (s ∷ ss) = do
    guard (has_text moderation_roles s.required_role) invalid_stage_role
    rest ← new_stages policy_id (suc index) ss
    ok (
        record {
          id = req.uuid4 index;
          tenant_id = req.tenant_id;
          policy_id = policy_id;
          stage_order = order_or s.stage_order index;
          required_role = s.required_role;
          label = label_or s.label (stage_name index);
        }
        ∷ rest)

  unfoldable pub new_policy : (assessment_id version_id : ℕ) → ModerationPolicy
  new_policy assessment_id version_id = record {
    id = req.uuid4 0;
    tenant_id = req.tenant_id;
    assessment_id = assessment_id;
    assessment_version_id = version_id;
    status = PolicyStatus.draft;
    created_by = some req.user_id;
    activated_by = none;
    activated_at = none;
    retired_by = none;
    retired_at = none;
  }

  unfoldable pub create_moderation_policy :
      Store → (assessment_id version_id : ℕ) → List StageIn → Result Code (Store × ModerationPolicy)
  unfolding new_stages new_policy audit
  create_moderation_policy db assessment_id version_id [] = err moderation_policy_empty
  create_moderation_policy db assessment_id version_id (s ∷ ss) = do
    let policy = new_policy assessment_id version_id
    stages ← new_stages policy.id 1 (s ∷ ss)
    ok (
      audit req "ModerationPolicy" policy.id "moderation_policy_created" (Payload.policy policy)
          (record db { policies = db.policies ++ policy ∷ []; stages = db.stages ++ stages }),
      policy,
    )

-- `if other is not None: raise`
unfoldable pub no_other : Option ModerationPolicy → Result Code Unit
no_other none = ok tt
no_other (some other) = err policy_active_exists

-- `if not stages: raise`
unfoldable pub some_stage : List ModerationStage → Result Code Unit
some_stage [] = err moderation_policy_empty
some_stage (s ∷ ss) = ok tt

unfoldable pub activated_policy : Request → ModerationPolicy → ModerationPolicy
activated_policy req policy = record policy {
  status = PolicyStatus.active;
  activated_by = some req.user_id;
  activated_at = some req.now;
}

unfoldable pub activate_moderation_policy :
    Store → Request → ℕ → Result Code (Store × ModerationPolicy)
unfolding get_policy is_draft_policy active_moderation_policy no_other stages_of some_stage
    activated_policy save_policy audit
activate_moderation_policy db req policy_id = do
  policy ← get_policy db req policy_id
  guard (is_draft_policy policy.status) invalid_policy_state
  no_other (active_moderation_policy db req policy.assessment_version_id)
  some_stage (stages_of db req policy.id)
  ok (
    audit req "ModerationPolicy" policy.id "moderation_policy_activated"
        (Payload.policy (activated_policy req policy))
        (save_policy (activated_policy req policy) db),
    activated_policy req policy,
  )

unfoldable pub retired_policy : Request → ModerationPolicy → ModerationPolicy
retired_policy req policy = record policy {
  status = PolicyStatus.retired;
  retired_by = some req.user_id;
  retired_at = some req.now;
}

unfoldable pub retire_moderation_policy :
    Store → Request → ℕ → Result Code (Store × ModerationPolicy)
unfolding get_policy is_active_policy retired_policy save_policy audit
retire_moderation_policy db req policy_id = do
  policy ← get_policy db req policy_id
  guard (is_active_policy policy.status) invalid_policy_state
  ok (
    audit req "ModerationPolicy" policy.id "moderation_policy_retired"
        (Payload.policy (retired_policy req policy)) (save_policy (retired_policy req policy) db),
    retired_policy req policy,
  )

-- `status.in_(["PENDING", "IN_PROGRESS", "RETURNED"])`
unfoldable pub is_actionable : CaseStatus → Bool
is_actionable CaseStatus.pending = true
is_actionable CaseStatus.in_progress = true
is_actionable CaseStatus.returned = true
is_actionable _ = false

unfoldable pub save_case : ModerationCase → Store → Store
unfolding update
save_case case db = record db { cases = update (λ c. c.id == case.id) (λ c. case) db.cases }

-- a RETURNED case is pending again, at stage 1; a case that is under way stays as it is
unfoldable pub reopened : ModerationCase → ModerationCase
reopened case = elim case.status [
  | CaseStatus.returned ↦ record case { status = CaseStatus.pending; current_stage_order = 1 }
  | _ ↦ case
]

unfoldable pub open_case : Store → Request → EvaluationRun → Option ModerationCase
unfolding first is_actionable
open_case db req run =
    first
      (λ c.
        c.tenant_id == req.tenant_id && (c.evaluation_run_id == run.id && is_actionable c.status))
      db.cases

unfoldable pub new_case :
    Request → ModerationPolicy → Submission → EvaluationRun → ModerationStage → ModerationCase
new_case req policy submission run stage = record {
  id = req.uuid4 0;
  tenant_id = req.tenant_id;
  policy_id = policy.id;
  submission_id = submission.id;
  evaluation_run_id = run.id;
  current_stage_order = stage.stage_order;
  status = CaseStatus.pending;
}

module _ (db : Store) (req : Request) (policy : ModerationPolicy) (submission : Submission)
    (run : EvaluationRun) where
  -- what follows `if existing is not None`
  unfoldable pub ensure_case : Option ModerationCase → Result Code Store
  unfolding save_case reopened lowest stages_of new_case audit
  ensure_case (some existing) = ok (save_case (reopened existing) db)
  ensure_case none = do
    stage ← require (lowest (stages_of db req policy.id)) moderation_policy_empty
    let case = new_case req policy submission run stage
    ok (
        audit req "ModerationCase" case.id "moderation_case_created" (Payload.case case)
          (record db { cases = db.cases ++ case ∷ [] }))

  unfoldable pub ensure_moderation_case_for_run : Result Code Store
  unfolding open_case ensure_case
  ensure_moderation_case_for_run = ensure_case (open_case db req run)
