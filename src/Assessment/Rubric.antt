-- ===== src/Assessment/Rubric.antt =====
-- rubric_reconciliation.py. Marks are hundredths, as in `Marks`.
pub mod Envelope
use eduvijna_paper_evaluatio.Prelude.{
  ℕ, Bool, true, false, not, ◌&&◌, List, [], ◌∷◌, ◌==◌, leb, if◌then◌else◌, select, any, all,
  sum_of, String,
}

pub data ScoringMode : Type 0 where
  additive deductive all_or_nothing : ScoringMode

pub record RubricCriterion : Type 0 where
  pub id : ℕ
  pub tenant_id : ℕ
  pub rubric_version_id : ℕ
  pub criterion_code : String
  pub max_marks : ℕ
  pub scoring_mode : ScoringMode

unfoldable pub is_mode : ScoringMode → ScoringMode → Bool
is_mode additive additive = true
is_mode deductive deductive = true
is_mode all_or_nothing all_or_nothing = true
is_mode _ _ = false

module _ (criteria : List RubricCriterion) where
  -- `m in {c.scoring_mode for c in criteria}`
  unfoldable pub has : ScoringMode → Bool
  unfolding any is_mode
  has m = any (λ c. is_mode m c.scoring_mode) criteria

  -- `sum(c.max_marks for c in criteria if c.scoring_mode == m)`
  unfoldable pub total_of : ScoringMode → ℕ
  unfolding sum_of select is_mode
  total_of m = sum_of (λ c. c.max_marks) (select (λ c. is_mode m c.scoring_mode) criteria)

  -- `all(c.max_marks == question_max_marks for c in all_or_nothing)`
  unfoldable pub all_full : ℕ → Bool
  unfolding all select is_mode
  all_full question_max_marks =
      all (λ c. c.max_marks == question_max_marks)
        (select (λ c. is_mode all_or_nothing c.scoring_mode) criteria)

-- the chain of `if modes == {…}`, over which modes occur
unfoldable pub reconcile_modes :
    (a d n : Bool) (awards deductions question_max : ℕ) → Bool → Bool × ℕ
reconcile_modes true false false awards deductions question_max full =
    (awards == question_max, awards)
reconcile_modes false true false awards deductions question_max full =
    (deductions == question_max, deductions)
reconcile_modes false false true awards deductions question_max full =
    (full, if full then question_max else 0)
reconcile_modes true true false awards deductions question_max full =
    (awards == question_max && leb deductions question_max, awards)
reconcile_modes _ _ _ awards deductions question_max full = (false, awards)

unfoldable pub reconcile_rubric : List RubricCriterion → ℕ → Bool × ℕ
unfolding has total_of all_full reconcile_modes
reconcile_rubric [] question_max_marks = (false, 0)
reconcile_rubric (c ∷ cs) question_max_marks =
    let criteria = c ∷ cs in
    reconcile_modes (has criteria additive) (has criteria deductive) (has criteria all_or_nothing)
      (total_of criteria additive) (total_of criteria deductive) question_max_marks
      (all_full criteria question_max_marks)
