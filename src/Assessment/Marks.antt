-- ===== src/Assessment/Marks.antt =====
-- mark_reconciliation.py. Marks are `Numeric(10, 2)` and, by the API's `Money`, not negative: they
-- are natural numbers of hundredths. `id`s are UUIDs, read as numbers.
pub mod Containers
use eduvijna_paper_evaluatio.Prelude.{
  ℕ, Bool, true, false, not, ◌&&◌, Option, none, some, List, [], ◌∷◌, String, ◌==◌, select, sum_of,
  contains,
}

pub data QuestionMode : Type 0 where
  leaf_scorable container_derived : QuestionMode

pub record QuestionVersion : Type 0 where
  pub id : ℕ
  pub tenant_id : ℕ
  pub assessment_version_id : ℕ
  pub parent_question_version_id : Option ℕ
  pub display_label : String
  pub max_marks : ℕ
  pub scoring_mode : QuestionMode

unfoldable pub is_leaf_scorable : QuestionMode → Bool
is_leaf_scorable leaf_scorable = true
is_leaf_scorable container_derived = false

-- the set comprehension over the questions that have a parent
unfoldable pub cons_parent : Option ℕ → List ℕ → List ℕ
cons_parent none ids = ids
cons_parent (some p) ids = p ∷ ids

unfoldable pub parent_ids : List QuestionVersion → List ℕ
unfolding cons_parent
parent_ids [] = []
parent_ids (q ∷ qs) = cons_parent q.parent_question_version_id (parent_ids qs)

unfoldable pub is_leaf : List ℕ → QuestionVersion → Bool
unfolding is_leaf_scorable contains
is_leaf parents q = not (contains parents q.id) && is_leaf_scorable q.scoring_mode

-- the leaves of readiness.py, evaluation.py and of the sum below
unfoldable pub leaves : List QuestionVersion → List QuestionVersion
unfolding parent_ids is_leaf select
leaves questions = select (is_leaf (parent_ids questions)) questions

unfoldable pub reconcile_marks : List QuestionVersion → ℕ → Bool × ℕ
unfolding leaves sum_of
reconcile_marks questions assessment_max_marks =
    let leaf_total = sum_of (λ q. q.max_marks) (leaves questions) in
    (leaf_total == assessment_max_marks, leaf_total)
