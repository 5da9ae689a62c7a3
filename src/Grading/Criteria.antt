-- ===== src/Grading/Criteria.antt =====
-- How an override settles the marks of a question's criteria.
pub mod Split
use eduvijna_paper_evaluatio.Prelude.{
  ℕ, ◌*◌, suc, Bool, true, false, not, ◌&&◌, Option, none, some, List, [], ◌∷◌, Result, ok, err,
  guard, require, ◌>>=◌, ◌>>◌, ◌==◌, first, update, if◌then◌else◌, round_half_even,
}
use eduvijna_paper_evaluatio.Prelude.Int.{
  ℤ, pos, negsuc, pos_part, neg_part, ◌+ℤ◌, ◌-ℤ◌, ltb_ℤ, sub_ℕ,
}
use eduvijna_paper_evaluatio.Grading.Ledger.{CriterionEvaluation}
use eduvijna_paper_evaluatio.Grading.Store.{
  Code, foreign_criterion, criterion_over_max, criterion_total_mismatch,
}

-- `by_id.get(cid)`: of two rows with one key the dictionary keeps the later
unfoldable pub by_id : ℕ → List CriterionEvaluation → Option CriterionEvaluation
by_id cid [] = none
by_id cid (c ∷ cs) = elim (by_id cid cs) [
  | some later ↦ some later
  | none ↦ if c.rubric_criterion_id == cid then some c else none
]

-- the loop over `criterion_finals`: the rows it leaves, and the total of its marks
unfoldable pub give_finals :
    List (ℕ × ℤ) → List CriterionEvaluation → ℤ → Result Code (List CriterionEvaluation × ℤ)
unfolding by_id update ◌+ℤ◌
give_finals [] criteria total = ok (criteria, total)
give_finals ((cid, marks) ∷ items) criteria total = do
  row ← require (by_id cid criteria) foreign_criterion
  guard (not (ltb_ℤ row.max_marks marks)) criterion_over_max
  give_finals items
      (update (λ c. c.id == row.id) (λ c. record c { final_marks = some marks }) criteria)
      (total +ℤ marks)

-- `c.proposed_marks or Decimal("0")`
unfoldable pub or_zero : Option ℤ → ℤ
or_zero none = pos 0
or_zero (some m) = m

unfoldable pub prop_total : List CriterionEvaluation → ℤ
unfolding ◌+ℤ◌ or_zero
prop_total [] = pos 0
prop_total (c ∷ cs) = or_zero c.proposed_marks +ℤ prop_total cs

-- `(score * proposed / prop_total).quantize(Decimal("0.0001"))`; where it is computed the score is
-- not negative and the total is positive
unfoldable pub share : ℤ → ℤ → ℤ → ℤ
unfolding round_half_even
share score (pos p) total = pos (round_half_even (pos_part score * p) (pos_part total))
share score (negsuc p) total = sub_ℕ 0 (round_half_even (pos_part score * suc p) (pos_part total))

unfoldable pub min_ℤ : ℤ → ℤ → ℤ
min_ℤ a b = if ltb_ℤ b a then b else a

-- the loop of the proportional fallback: the last criterion gets what remains
unfoldable pub split : ℤ → ℤ → ℤ → List CriterionEvaluation → List CriterionEvaluation
unfolding min_ℤ share or_zero ◌-ℤ◌
split score total remaining [] = []
split score total remaining (c ∷ []) = record c { final_marks = some remaining } ∷ []
split score total remaining (c ∷ d ∷ cs) =
    let given = min_ℤ (share score (or_zero c.proposed_marks) total) c.max_marks in
    record c { final_marks = some given } ∷ split score total (remaining -ℤ given) (d ∷ cs)

-- `elif len(criteria) == 1`
unfoldable pub give_only : ℤ → List CriterionEvaluation → List CriterionEvaluation
give_only score (c ∷ []) = record c { final_marks = some score } ∷ []
give_only score criteria = criteria

unfoldable pub settle_by_score : ℤ → List CriterionEvaluation → List CriterionEvaluation
unfolding prop_total split give_only
settle_by_score score criteria =
    if ltb_ℤ (pos 0) (prop_total criteria)
    then split score (prop_total criteria) score criteria
    else give_only score criteria

unfoldable pub settle :
    ℤ → List (ℕ × ℤ) → List CriterionEvaluation → Result Code (List CriterionEvaluation)
unfolding give_finals settle_by_score
settle score [] criteria = ok (settle_by_score score criteria)
settle score (item ∷ items) criteria = do
  (rows, total) ← give_finals (item ∷ items) criteria (pos 0)
  guard (not (ltb_ℤ total score)) criterion_total_mismatch
  guard (not (ltb_ℤ score total)) criterion_total_mismatch
  ok rows

-- the changed rows take their places in the table
unfoldable pub written : List CriterionEvaluation → CriterionEvaluation → CriterionEvaluation
unfolding first
written rows c = elim (first (λ r. r.id == c.id) rows) [ some r ↦ r | none ↦ c ]

unfoldable pub write_back :
    List CriterionEvaluation → List CriterionEvaluation → List CriterionEvaluation
unfolding written
write_back rows [] = []
write_back rows (c ∷ cs) = written rows c ∷ write_back rows cs
