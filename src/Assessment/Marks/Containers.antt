-- ===== src/Assessment/Marks/Containers.antt =====
-- The marks of a question that is not a scorable leaf do not count.
use eduvijna_paper_evaluatio.Prelude.{
  ℕ, ◌≡◌, refl, ap, false, List, [], ◌∷◌, ◌++◌, arith, ◌==◌, select, sum_of,
}
use eduvijna_paper_evaluatio.Assessment.Marks.{
  QuestionVersion, parent_ids, is_leaf, reconcile_marks,
}

abbrev pub re_mark : ℕ → QuestionVersion → QuestionVersion
re_mark m q = record q { max_marks = m }

abbrev total : List ℕ → List QuestionVersion → ℕ
total parents qs = sum_of (λ q. q.max_marks) (select (is_leaf parents) qs)

parent_ids-re_mark :
    (before : List QuestionVersion) (q : QuestionVersion) (after : List QuestionVersion) (m : ℕ)
    → parent_ids (before ++ re_mark m q ∷ after) ≡ parent_ids (before ++ q ∷ after)
unfolding parent_ids
parent_ids-re_mark [] q after m = refl
parent_ids-re_mark (p ∷ before) q after m = rw (parent_ids-re_mark before q after m)

total-re_mark :
    (parents : List ℕ) (before : List QuestionVersion) (q : QuestionVersion)
    (after : List QuestionVersion) (m : ℕ)
    → is_leaf parents q ≡ false
    → total parents (before ++ re_mark m q ∷ after) ≡ total parents (before ++ q ∷ after)
unfolding select sum_of is_leaf
total-re_mark parents [] q after m h = ground arith
total-re_mark parents (p ∷ before) q after m h =
    ground (arith, total-re_mark parents before q after m h)

-- Whatever marks a container or a question with children carries, before or after an edit, the
-- verdict of the reconciliation and the total that it reports stay the same.
pub reconcile_marks_ignores_containers :
    (before : List QuestionVersion) (q : QuestionVersion) (after : List QuestionVersion) (m max : ℕ)
    → is_leaf (parent_ids (before ++ q ∷ after)) q ≡ false
    → reconcile_marks (before ++ re_mark m q ∷ after) max
      ≡ reconcile_marks (before ++ q ∷ after) max
unfolding reconcile_marks
reconcile_marks_ignores_containers before q after m max h = rw parent_ids-re_mark (
    ap (λ (t : ℕ). (t == max, t))
      (total-re_mark (parent_ids (before ++ q ∷ after)) before q after m h))
