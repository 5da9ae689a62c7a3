-- ===== src/Grading/Pools/Allocation/Coverage.antt =====
-- What an allocation leaves to be assigned.
use native.Mathlib.Nat.{mod-lt}
use eduvijna_paper_evaluatio.Prelude.{
  ◌%◌, ◌⊎◌, first, ◌⊎◌, there, ◌<◌, arith, length, zero, suc, sym, ◌∙◌, refl, ap, here, ℕ, ◌≡◌, inl,
  inr, Bool, true, none, some, List, [], ◌∷◌, ◌++◌, ◌==◌, ◌&&◌, ==_refl, All, Any, here,
  first_of_Any, first_hit, Any-append_left, Any-append_right, Option-cases,
}
use eduvijna_paper_evaluatio.Grading.Ledger.{EvaluationRun, QuestionEvaluation}
use eduvijna_paper_evaluatio.Grading.Work.{
  AllocationStrategy, WorkStatus, GradingPool, GradingPoolMember, GradingWorkItem,
}
use eduvijna_paper_evaluatio.Grading.Store.{Request}
use eduvijna_paper_evaluatio.Grading.Pools.{first, active_item, is_active_work, new_item}
use eduvijna_paper_evaluatio.Grading.Pools.Allocation.{member_at, evaluator_at, next_item, round}

-- Some item of the table that is queued, in progress or submitted is for the evaluation.
abbrev pub is_active_for : Request → ℕ → GradingWorkItem → Bool
is_active_for req qe_id i =
    i.tenant_id == req.tenant_id && (i.question_evaluation_id == qe_id && is_active_work i.status)

abbrev pub Assigned : Request → List GradingWorkItem → QuestionEvaluation → Type 0
Assigned req items qe = Any (λ i. is_active_for req qe.id i ≡ true) items

strategy-cases :
    (s : AllocationStrategy)
    → (s ≡ AllocationStrategy.manual) ⊎ (s ≡ AllocationStrategy.round_robin)
strategy-cases AllocationStrategy.manual = inl refl
strategy-cases AllocationStrategy.round_robin = inr refl

append_assoc {ℓ} : {A : Type ℓ} (xs ys zs : List A) → (xs ++ ys) ++ zs ≡ xs ++ (ys ++ zs)
append_assoc [] ys zs = refl
append_assoc (x ∷ xs) ys zs = ap (λ l. x ∷ l) (append_assoc xs ys zs)

module _ (req : Request) (pool : GradingPool) (run : EvaluationRun)
    (members : List GradingPoolMember) where
  next_item-Assigned :
      (qe : QuestionEvaluation) (rr_index : ℕ)
      → is_active_for req qe.id (next_item req pool run members qe rr_index) ≡ true
  unfolding next_item new_item is_active_work
  next_item-Assigned qe rr_index = rw (==_refl req.tenant_id, ==_refl qe.id) refl

  active_item-Assigned :
      (items : List GradingWorkItem) (qe : QuestionEvaluation) {i : GradingWorkItem}
      → active_item req items qe.id ≡ some i
      → Assigned req items qe
  unfolding active_item
  active_item-Assigned items qe = first_hit (is_active_for req qe.id) items

  Assigned-active_item :
      {items : List GradingWorkItem} (qe : QuestionEvaluation)
      → Assigned req items qe
      → (i : GradingWorkItem) × (active_item req items qe.id ≡ some i)
  unfolding active_item
  Assigned-active_item qe = first_of_Any (is_active_for req qe.id)

  -- the three ways through the body of the loop
  module _ (qe : QuestionEvaluation) (qes : List QuestionEvaluation) (items : List GradingWorkItem)
      (rr_index : ℕ) where
    round_skips :
        {i : GradingWorkItem}
        → active_item req items qe.id ≡ some i
        → round req pool run members (qe ∷ qes) items rr_index
          ≡ round req pool run members qes items rr_index
    unfolding round
    round_skips found = rw (round, found) refl

    round_manual :
        active_item req items qe.id ≡ none
        → pool.allocation_strategy ≡ AllocationStrategy.manual
        → round req pool run members (qe ∷ qes) items rr_index
          ≡ round req pool run members qes items rr_index
    unfolding round
    round_manual free h = rw (round, free, h) refl

    round_adds :
        active_item req items qe.id ≡ none
        → pool.allocation_strategy ≡ AllocationStrategy.round_robin
        → round req pool run members (qe ∷ qes) items rr_index
          ≡ next_item req pool run members qe rr_index
            ∷ round req pool run members qes
                (items ++ next_item req pool run members qe rr_index ∷ [])
                (suc rr_index)
    unfolding round
    round_adds free h = rw (round, free, h) refl

  -- The round leaves no evaluation without an item.
  pub round-covers :
      (qes : List QuestionEvaluation) (items : List GradingWorkItem) (rr_index : ℕ)
      → pool.allocation_strategy ≡ AllocationStrategy.round_robin
      → All (Assigned req (items ++ round req pool run members qes items rr_index)) qes
  round-covers [] items rr_index h = tt
  round-covers (qe ∷ qes) items rr_index h = elim (Option-cases (active_item req items qe.id)) [
    | inl free ↦
        let item = next_item req pool run members qe rr_index in
        let more = round req pool run members qes (items ++ item ∷ []) (suc rr_index) in
        mathlib.Core.Path.subst (λ l. All (Assigned req l) (qe ∷ qes))
          (append_assoc items (item ∷ []) more
            ∙ ap (λ l. items ++ l) (sym (round_adds qe qes items rr_index free h)))
          (
            Any-append_left more (Any-append_right items (here (next_item-Assigned qe rr_index))),
            round-covers qes (items ++ item ∷ []) (suc rr_index) h,
          )
    | inr (i, found) ↦
        mathlib.Core.Path.subst (λ l. All (Assigned req (items ++ l)) (qe ∷ qes))
          (sym (round_skips qe qes items rr_index found))
          (
            Any-append_left (round req pool run members qes items rr_index)
                (active_item-Assigned items qe found),
            round-covers qes items rr_index h,
          )
  ]

  -- With every evaluation assigned a round adds nothing.
  pub round_of_Assigned :
      (qes : List QuestionEvaluation) (items : List GradingWorkItem) (rr_index : ℕ)
      → All (Assigned req items) qes
      → round req pool run members qes items rr_index ≡ []
  unfolding round
  round_of_Assigned [] items rr_index h = refl
  round_of_Assigned (qe ∷ qes) items rr_index (a, rest) =
      let (i, found) = Assigned-active_item qe a in
      round_skips qe qes items rr_index found ∙ round_of_Assigned qes items rr_index rest

  -- What is true of an item that the round adds.
  pub record Added (items : List GradingWorkItem) (item : GradingWorkItem) : Type 0 where
    pub status : item.status ≡ WorkStatus.queued
    pub pool_id : item.pool_id ≡ pool.id
    pub run_id : item.evaluation_run_id ≡ run.id
    pub unassigned : active_item req items item.question_evaluation_id ≡ none
    pub assigned_by : item.assigned_by ≡ some req.user_id
    pub to_member : Any (λ m. m.user_id ≡ item.assigned_evaluator_id) members

  evaluator_at-member :
      (ms : List GradingPoolMember) (index : ℕ)
      → index < length ms
      → Any (λ m. m.user_id ≡ evaluator_at ms index) ms
  unfolding evaluator_at member_at
  evaluator_at-member [] index h = absurd (omega (arith, h))
  evaluator_at-member (m ∷ ms) zero h = here refl
  evaluator_at-member (m ∷ ms) (suc index) h =
      there (evaluator_at-member ms index (omega (arith, h)))

  -- Later queries see the added items too: what is unassigned then was unassigned before.
  unassigned_before :
      (items more : List GradingWorkItem) (k : ℕ)
      → active_item req (items ++ more) k ≡ none
      → active_item req items k ≡ none
  unfolding active_item first
  unassigned_before [] more k h = refl
  unassigned_before (i ∷ items) more k h = ground (arith, unassigned_before items more k)

  next_item-Added :
      (qe : QuestionEvaluation) (items : List GradingWorkItem) (rr_index : ℕ)
      → zero < length members
      → active_item req items qe.id ≡ none
      → Added items (next_item req pool run members qe rr_index)
  unfolding next_item new_item
  next_item-Added qe items rr_index some' free = record {
    status = refl;
    pool_id = refl;
    run_id = refl;
    unassigned = free;
    assigned_by = refl;
    to_member = evaluator_at-member members (rr_index % length members) (mod-lt rr_index some');
  }

  pub round-Added :
      zero < length members
      → (qes : List QuestionEvaluation) (items more : List GradingWorkItem) (rr_index : ℕ)
      → All (Added items) (round req pool run members qes (items ++ more) rr_index)
  unfolding round
  round-Added some' [] items more rr_index = tt
  round-Added some' (qe ∷ qes) items more rr_index =
      let item = next_item req pool run members qe rr_index in
      let later =
        mathlib.Core.Path.subst
          (λ l. All (Added items) (round req pool run members qes l (suc rr_index)))
          (sym (append_assoc items more (item ∷ [])))
          (round-Added some' qes items (more ++ item ∷ []) (suc rr_index)) in
      elim (Option-cases (active_item req (items ++ more) qe.id)) [
        | inr (i, found) ↦
            rw (round_skips qe qes (items ++ more) rr_index found)
              (round-Added some' qes items more rr_index)
        | inl free ↦ elim (strategy-cases pool.allocation_strategy) [
          | inl manual ↦
              rw (round_manual qe qes (items ++ more) rr_index free manual)
                (round-Added some' qes items more rr_index)
          | inr by_rounds ↦ rw (round_adds qe qes (items ++ more) rr_index free by_rounds) (
            next_item-Added qe items rr_index some' (unassigned_before items more qe.id free),
            later,
          )
        ]
      ]
