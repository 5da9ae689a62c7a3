-- ===== src/Grading/Moderation/Stages.antt =====
-- The stage that follows a case's current one.
use eduvijna_paper_evaluatio.Prelude.{
  All-select, select-All, Bool-cases, inl, inr, ◌≡◌, ◌≤◌, ◌<◌, Bool, true, false, none, some, ◌==◌,
  ◌&&◌, ltb, ltb→lt, first-none, select, sort_by, All, All-imp, All-sort_by, sort_by-All,
  first-sort_by, first-All, arith,
}
use eduvijna_paper_evaluatio.Grading.Work.{ModerationStage, ModerationCase}
use eduvijna_paper_evaluatio.Grading.Store.{Store, Request}
use eduvijna_paper_evaluatio.Grading.Moderation.{lowest}
use eduvijna_paper_evaluatio.Grading.Moderation.Decide.{stages_where, next_stage}

true_not_false : ¬ (◌≡◌ {A = Bool} true false)
true_not_false e = cc

module _ (db : Store) (req : Request) (case : ModerationCase) where
  abbrev pub is_stage_of : ModerationStage → Bool
  is_stage_of s = s.tenant_id == req.tenant_id && s.policy_id == case.policy_id

  -- `next` comes after the current stage, and no stage of the policy lies between the two.
  pub record IsNext (next : ModerationStage) : Type 0 where
    pub later : case.current_stage_order < next.stage_order
    pub none_between :
        All
          (λ s.
            is_stage_of s ≡ true
            → case.current_stage_order < s.stage_order
            → next.stage_order ≤ s.stage_order)
          db.stages

  -- No stage of the policy comes after the current one.
  abbrev pub IsLast : Type 0
  IsLast = All (λ s. is_stage_of s ≡ true → s.stage_order ≤ case.current_stage_order) db.stages

  abbrev above : ModerationStage → Bool
  above s =
      s.tenant_id == req.tenant_id
      && (s.policy_id == case.policy_id && ltb case.current_stage_order s.stage_order)

  above_of :
      (s : ModerationStage)
      → is_stage_of s ≡ true
      → case.current_stage_order < s.stage_order
      → above s ≡ true
  above_of s stage_of lt = ground arith

  pub next_stage-IsNext :
      {next : ModerationStage} → next_stage db req case ≡ some next → IsNext next
  unfolding next_stage stages_where lowest
  next_stage-IsNext {next} h =
      let order = λ (s : ModerationStage). s.stage_order in
      let is_above : above next ≡ true =
        first-All (λ s. above s ≡ true) (λ s. true) (sort_by order (select above db.stages)) h
          (All-sort_by order (λ s. above s ≡ true) (select above db.stages)
            (All-select above db.stages)) in
      let least = first-sort_by order (select above db.stages) h in
      record {
        later = ground arith;
        none_between =
            All-imp (λ s k stage_of lt. k (above_of s stage_of lt)) db.stages
              (select-All above (λ s. next.stage_order ≤ s.stage_order) db.stages least);
      }

  not_above :
      (s : ModerationStage)
      → is_stage_of s ≡ true
      → (above s ≡ true → true ≡ false)
      → s.stage_order ≤ case.current_stage_order
  not_above s stage_of k = elim (Bool-cases (ltb case.current_stage_order s.stage_order)) [
    | inl yes' ↦ absurd (true_not_false (k (above_of s stage_of (ltb→lt _ _ yes'))))
    | inr no' ↦ ground arith
  ]

  pub next_stage-IsLast : next_stage db req case ≡ none → IsLast
  unfolding next_stage stages_where lowest
  next_stage-IsLast h =
      let order = λ (s : ModerationStage). s.stage_order in
      let nothing =
        sort_by-All order (λ s. true ≡ false) (select above db.stages)
          (first-none _ (sort_by order (select above db.stages)) h) in
      All-imp (λ s k stage_of. not_above s stage_of k) db.stages
        (select-All above (λ s. true ≡ false) db.stages nothing)
