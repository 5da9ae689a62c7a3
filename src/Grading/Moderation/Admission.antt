-- ===== src/Grading/Moderation/Admission.antt =====
-- Who may make which moderation decision, apart from the tests of `decide_moderation`.
use eduvijna_paper_evaluatio.Prelude.{
  ℕ, ◌≡◌, ◌≢◌, ◌⊎◌, refl, ap, true, false, not, ◌&&◌, ◌||◌, ◌==◌, ==_iff, ||-eq-true, Bool-cases,
  inl, inr, Option, none, some, List, map, String, select, first-All, All, All-imp, All-select,
  select_members, Any, here, there, any_false→All, contains, has_text, has_text→Any, strip,
  is_empty, arith,
}
use eduvijna_paper_evaluatio.Grading.Ledger.{QuestionEvaluation, ReviewAction}
use eduvijna_paper_evaluatio.Grading.Work.{CaseStatus, Decision, ModerationStage, ModerationCase}
use eduvijna_paper_evaluatio.Grading.Store.{Store, Request}
use eduvijna_paper_evaluatio.Grading.Moderation.{is_actionable}
use eduvijna_paper_evaluatio.Grading.Moderation.Decide.{
  is_approve, lacks_reason, stages_where, current_stage, may_decide, evaluation_ids, reviewed_run,
}

-- A row of the caller's tenant with the identifier.
abbrev pub IsRow : {A : Type 0} → Request → (A → ℕ) → (A → ℕ) → ℕ → A → List A → Type 0
IsRow req key tenant id x rows = Any (λ y. y ≡ x) rows × (key x ≡ id) × (tenant x ≡ req.tenant_id)

module _ (db : Store) (req : Request) (case : ModerationCase) where
  -- A review action of the caller on a question of the case's run.
  pub record IsOwnReview (a : ReviewAction) : Type 0 where
    pub tenant : a.tenant_id ≡ req.tenant_id
    pub actor : a.actor_user_id ≡ req.user_id
    pub evaluation :
        Any
          (λ (q : QuestionEvaluation).
            (q.tenant_id ≡ req.tenant_id)
            × (q.evaluation_run_id ≡ case.evaluation_run_id)
            × (q.id ≡ a.question_evaluation_id))
          db.question_evaluations

  -- An approval is by someone who reviewed no question of the run.
  abbrev pub IsSeparate : Decision → Type 0
  IsSeparate Decision.approve = All (λ a. ¬ IsOwnReview a) db.review_actions
  IsSeparate Decision.return = Unit
  IsSeparate Decision.reject = Unit

-- The other decisions give a reason that is not blank.
abbrev pub IsReasoned : Option String → Decision → Type 0
IsReasoned reason Decision.approve = Unit
IsReasoned reason _ = (text : String) × (reason ≡ some text) × (strip text ≢ "")

module _ (db : Store) (req : Request) (case : ModerationCase) where
  -- What a decision needs.
  pub record Admitted (decision : Decision) (reason : Option String) : Type 0 where
    pub actionable :
        (case.status ≡ CaseStatus.pending)
        ⊎ ((case.status ≡ CaseStatus.in_progress) ⊎ (case.status ≡ CaseStatus.returned))
    pub stage : ModerationStage
    pub stage_in_table : Any (λ s. s ≡ stage) db.stages
    pub stage_tenant : stage.tenant_id ≡ req.tenant_id
    pub stage_policy : stage.policy_id ≡ case.policy_id
    pub stage_order : stage.stage_order ≡ case.current_stage_order
    pub entitled :
        Any (λ r. r ≡ stage.required_role) req.roles ⊎ Any (λ r. r ≡ "INSTITUTION_ADMIN") req.roles
    pub separate : IsSeparate db req case decision
    pub reasoned : IsReasoned reason decision

  pub actionable_states :
      (s : CaseStatus)
      → is_actionable s ≡ true
      → (s ≡ CaseStatus.pending) ⊎ ((s ≡ CaseStatus.in_progress) ⊎ (s ≡ CaseStatus.returned))
  unfolding is_actionable
  actionable_states CaseStatus.pending h = inl refl
  actionable_states CaseStatus.in_progress h = inr (inl refl)
  actionable_states CaseStatus.returned h = inr (inr refl)
  actionable_states CaseStatus.approved h = cc
  actionable_states CaseStatus.rejected h = cc

  pub at_stage :
      (s : ModerationStage)
      → current_stage db req case ≡ some s
      → Any (λ t. t ≡ s) db.stages
        × (s.tenant_id ≡ req.tenant_id)
        × (s.policy_id ≡ case.policy_id)
        × (s.stage_order ≡ case.current_stage_order)
  unfolding current_stage stages_where
  at_stage s h =
      let test = λ (s : ModerationStage).
        s.tenant_id == req.tenant_id
        && (s.policy_id == case.policy_id && s.stage_order == case.current_stage_order) in
      let hit : test s ≡ true =
        first-All (λ s. test s ≡ true) (λ (s : ModerationStage). true) _ h
          (All-select test db.stages) in
      (
        first-All (λ s. Any (λ t. t ≡ s) db.stages) (λ (s : ModerationStage). true) _ h
            (select_members test db.stages),
        ground (arith, ==_iff s.tenant_id req.tenant_id),
        ground (arith, ==_iff s.policy_id case.policy_id),
        ground (arith, ==_iff s.stage_order case.current_stage_order),
      )

  pub entitled_role :
      (stage : ModerationStage)
      → may_decide req stage ≡ true
      → Any (λ r. r ≡ stage.required_role) req.roles ⊎ Any (λ r. r ≡ "INSTITUTION_ADMIN") req.roles
  unfolding may_decide
  entitled_role stage h =
      elim (||-eq-true (has_text req.roles stage.required_role)
        (has_text req.roles "INSTITUTION_ADMIN") h) [
          | inl role ↦ inl (has_text→Any req.roles stage.required_role role)
          | inr admin ↦ inr (has_text→Any req.roles "INSTITUTION_ADMIN" admin)
        ]

  listed :
      (id : ℕ) {qs : List QuestionEvaluation}
      → Any
          (λ (q : QuestionEvaluation).
            (q.tenant_id ≡ req.tenant_id)
            × (q.evaluation_run_id ≡ case.evaluation_run_id)
            × (q.id ≡ id))
          qs
      → contains
          (map
            (λ (q : QuestionEvaluation). q.id)
            (select
              (λ q. q.tenant_id == req.tenant_id && q.evaluation_run_id == case.evaluation_run_id)
              qs))
          id
        ≡ true
  unfolding contains select
  listed id (here {x = q} (tenant, run, same)) =
      rw
        (
          (==_iff q.tenant_id req.tenant_id).1 tenant,
          (==_iff q.evaluation_run_id case.evaluation_run_id).1 run,
        )
        (ground (arith, ==_iff q.id id))
  listed id (there {x = q} rest) =
      elim (Bool-cases
        (q.tenant_id == req.tenant_id && q.evaluation_run_id == case.evaluation_run_id)) [
          | inl yes' ↦ rw yes' (ground (arith, listed id rest))
          | inr no' ↦ rw no' (listed id rest)
        ]

  not_own :
      (a : ReviewAction)
      → (a.tenant_id == req.tenant_id
          && (a.actor_user_id == req.user_id
              && contains (evaluation_ids db req case) a.question_evaluation_id))
        ≡ false
      → ¬ IsOwnReview db req case a
  unfolding evaluation_ids
  not_own a h own = ground (
    arith,
    (==_iff a.tenant_id req.tenant_id).1 own.tenant,
    (==_iff a.actor_user_id req.user_id).1 own.actor,
    listed a.question_evaluation_id own.evaluation,
  )

  pub separated :
      (decision : Decision)
      → (reviewed_run db req case && is_approve decision) ≡ false
      → IsSeparate db req case decision
  unfolding reviewed_run is_approve
  separated Decision.approve h =
      All-imp not_own db.review_actions (any_false→All _ db.review_actions (ground arith))
  separated Decision.return h = tt
  separated Decision.reject h = tt

non_blank :
    (reason : Option String)
    → lacks_reason reason ≡ false
    → (text : String) × (reason ≡ some text) × (strip text ≢ "")
unfolding lacks_reason is_empty
non_blank none h = cc
non_blank (some text) h = (text, refl, λ e. cc (ap is_empty e, h))

pub reason_given :
    (reason : Option String) (decision : Decision)
    → (is_approve decision || not (lacks_reason reason)) ≡ true
    → IsReasoned reason decision
unfolding is_approve
reason_given reason Decision.approve h = tt
reason_given reason Decision.return h = non_blank reason (ground arith)
reason_given reason Decision.reject h = non_blank reason (ground arith)
