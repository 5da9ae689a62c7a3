-- ===== src/Grading/Moderation/Policies.antt =====
-- How many policies are active for an assessment version.
use mathlib.Core.Path.{subst}
use eduvijna_paper_evaluatio.Prelude.{
  ℕ, ◌≡◌, ◌⊎◌, ap, sym, refl, true, false, Option, none, some, List, [], ◌∷◌, ok, guard, require,
  >>=-eq-ok, guard-eq-ok, require-eq-ok, ok-injective, ◌==◌, ◌&&◌, ==_iff, ==_refl, first,
  first-none, first_keyed, update, select, All, All-imp, Any, Any-update, here, there, inl, inr,
  Bool-cases, arith,
}
use eduvijna_paper_evaluatio.Grading.Work.{PolicyStatus, ModerationPolicy, ModerationStage}
use eduvijna_paper_evaluatio.Grading.Store.{Store, Request, audit}
use eduvijna_paper_evaluatio.Grading.Moderation.{
  governs, is_draft_policy, is_active_policy, active_moderation_policy, get_policy, save_policy,
  no_other, some_stage, stages_of, activated_policy, activate_moderation_policy,
}

-- A policy that is ACTIVE for the assessment version in the tenant.
pub record IsActive (req : Request) (version_id : ℕ) (p : ModerationPolicy) : Type 0 where
  pub tenant : p.tenant_id ≡ req.tenant_id
  pub version : p.assessment_version_id ≡ version_id
  pub active : p.status ≡ PolicyStatus.active

-- A stage of the policy in the tenant.
pub record IsStage (req : Request) (policy_id : ℕ) (s : ModerationStage) : Type 0 where
  pub tenant : s.tenant_id ≡ req.tenant_id
  pub policy : s.policy_id ≡ policy_id

-- The active policies of an assessment version are all one row.
abbrev pub OneActive : Request → ℕ → ModerationPolicy → List ModerationPolicy → Type 0
OneActive req version_id the_one policies =
    All (λ p. ¬ IsActive req version_id p ⊎ (p ≡ the_one)) policies

update-OneActive :
    (req : Request) (version_id : ℕ) (new : ModerationPolicy) (policies : List ModerationPolicy)
    → All (λ p. ¬ IsActive req version_id p) policies
    → OneActive req version_id new (update (λ p. p.id == new.id) (λ p. new) policies)
unfolding update
update-OneActive req version_id new [] h = tt
update-OneActive req version_id new (p ∷ ps) (h, hs) = elim (Bool-cases (p.id == new.id)) [
  | inl yes' ↦ rw yes' (inr refl, update-OneActive req version_id new ps hs)
  | inr no' ↦ rw no' (inl h, update-OneActive req version_id new ps hs)
]

inactive :
    (req : Request) (version_id : ℕ) (p : ModerationPolicy)
    → governs req version_id p ≡ false
    → ¬ IsActive req version_id p
unfolding governs is_active_policy
inactive req version_id p h a = ground (
  arith,
  ==_iff p.tenant_id req.tenant_id,
  ==_iff p.assessment_version_id version_id,
  a.tenant,
  a.version,
  ap is_active_policy a.active,
)

nothing_active :
    (db : Store) (req : Request) (version_id : ℕ)
    → active_moderation_policy db req version_id ≡ none
    → All (λ p. ¬ IsActive req version_id p) db.policies
unfolding active_moderation_policy
nothing_active db req version_id h =
    All-imp (inactive req version_id) db.policies
      (first-none (governs req version_id) db.policies h)

no_other-none : (o : Option ModerationPolicy) → no_other o ≡ ok tt → o ≡ none
unfolding no_other
no_other-none none h = refl
no_other-none (some p) h = cc

draft_status : (s : PolicyStatus) → is_draft_policy s ≡ true → s ≡ PolicyStatus.draft
unfolding is_draft_policy
draft_status PolicyStatus.draft h = refl
draft_status PolicyStatus.active h = cc
draft_status PolicyStatus.retired h = cc

-- The first of the selected stages is a stage of the policy.
staged :
    (req : Request) (policy_id : ℕ) (stages : List ModerationStage)
    → some_stage (select (λ s. s.tenant_id == req.tenant_id && s.policy_id == policy_id) stages)
      ≡ ok tt
    → Any (IsStage req policy_id) stages
unfolding some_stage select
staged req policy_id [] h = cc
staged req policy_id (s ∷ ss) h =
    elim (Bool-cases (s.tenant_id == req.tenant_id && s.policy_id == policy_id)) [
      | inl yes' ↦ here (record {
        tenant = ground (arith, ==_iff s.tenant_id req.tenant_id);
        policy = ground (arith, ==_iff s.policy_id policy_id);
      })
      | inr no' ↦ there (staged req policy_id ss (rw no' at h))
    ]

module _ (db after : Store) (req : Request) (policy_id : ℕ) (activated : ModerationPolicy) where
  -- A policy that was activated, as it was and as it is in the table.
  pub record Activated : Type 0 where
    pub policy : ModerationPolicy
    pub in_table : Any (λ p. p ≡ policy) db.policies
    pub same_id : policy.id ≡ policy_id
    pub same_tenant : policy.tenant_id ≡ req.tenant_id
    pub was_draft : policy.status ≡ PolicyStatus.draft
    pub none_active : All (λ p. ¬ IsActive req policy.assessment_version_id p) db.policies
    pub has_stage : Any (IsStage req policy_id) db.stages
    pub row : activated ≡ record policy {
      status = PolicyStatus.active;
      activated_by = some req.user_id;
      activated_at = some req.now;
    }
    pub is_active : IsActive req policy.assessment_version_id activated
    pub is_stored : Any (λ p. p ≡ activated) after.policies
    pub one_active : OneActive req policy.assessment_version_id activated after.policies

  -- Activating a policy needs a DRAFT of the tenant with a stage, and no policy of the tenant that
  -- is ACTIVE for its assessment version. Afterwards the policy is in the table, ACTIVE for the
  -- version, and every policy that is ACTIVE for the version in the tenant is the activated one.
  pub activate_moderation_policy-OneActive :
      activate_moderation_policy db req policy_id ≡ ok (after, activated) → Activated
  unfolding activate_moderation_policy get_policy stages_of activated_policy save_policy audit
  activate_moderation_policy-OneActive h =
      let (policy, found, h₁) =
        >>=-eq-ok
          (require (first (λ p. p.id == policy_id && p.tenant_id == req.tenant_id) db.policies) _) _
          h in
      let (u, draft, h₂) = >>=-eq-ok (guard (is_draft_policy policy.status) _) _ h₁ in
      let (v, alone, h₃) =
        >>=-eq-ok (no_other (active_moderation_policy db req policy.assessment_version_id)) _ h₂ in
      let (w, some_one, h₄) = >>=-eq-ok (some_stage (stages_of db req policy.id)) _ h₃ in
      let (in_table, same_id, same_tenant) =
        first_keyed (λ (p : ModerationPolicy). p.id) (λ (p : ModerationPolicy). p.tenant_id)
          policy_id req.tenant_id db.policies (require-eq-ok _ _ found) in
      let idle = nothing_active db req policy.assessment_version_id (no_other-none _ alone) in
      let e = ok-injective h₄ in
      record {
        policy = policy;
        in_table = in_table;
        same_id = same_id;
        same_tenant = same_tenant;
        was_draft = draft_status policy.status (guard-eq-ok _ _ draft);
        none_active = idle;
        has_stage =
            subst (λ (n : ℕ). Any (IsStage req n) db.stages) same_id
              (staged req policy.id db.stages some_one);
        row = sym (ap (λ (p : Store × ModerationPolicy). p.1) e);
        is_active =
            subst (λ (p : Store × ModerationPolicy). IsActive req policy.assessment_version_id p.1)
              e (record { tenant = same_tenant; version = refl; active = refl });
        is_stored =
            subst (λ (p : Store × ModerationPolicy). Any (λ q. q ≡ p.1) p.0.policies) e
              (Any-update (λ p. p.id == policy.id) _ db.policies (==_refl policy.id) in_table);
        one_active =
            subst
              (λ (p : Store × ModerationPolicy).
                OneActive req policy.assessment_version_id p.1 p.0.policies)
              e
              (update-OneActive req policy.assessment_version_id (activated_policy req policy)
                db.policies idle);
      }
