-- ===== src/Grading/Criteria/Split.antt =====
-- What an override's marks add up to, and what it leaves of the rows.
use eduvijna_paper_evaluatio.Prelude.{
  guard-eq-ok, ◌≢◌, ℕ, true, ◌≡◌, ap, sym, ◌∙◌, refl, Bool, not, none, some, List, [], ◌∷◌, map, ok,
  guard, require, >>=-eq-ok, ok-injective, ◌==◌, update, arith,
}
use eduvijna_paper_evaluatio.Prelude.Int.{
  ℤ, pos, ◌+ℤ◌, ◌-ℤ◌, ltb_ℤ, eq_of_parts, +ℤ_parts, -ℤ_parts,
}
use eduvijna_paper_evaluatio.Grading.Ledger.{CriterionEvaluation}
use eduvijna_paper_evaluatio.Grading.Store.{foreign_criterion}
use eduvijna_paper_evaluatio.Grading.Criteria.{
  give_only, prop_total, settle, settle_by_score, true, by_id, give_finals, or_zero, share, min_ℤ,
  split,
}

abbrev pub final_total : List CriterionEvaluation → ℤ
final_total [] = pos 0
final_total (c ∷ cs) = or_zero c.final_marks +ℤ final_total cs

abbrev pub marks_total : List (ℕ × ℤ) → ℤ
marks_total [] = pos 0
marks_total ((cid, marks) ∷ items) = marks +ℤ marks_total items

-- A criterion without the marks that a review gives it.
abbrev pub unmarked : CriterionEvaluation → CriterionEvaluation
unmarked c = record c { final_marks = none }

zero_add : (a : ℤ) → a +ℤ pos 0 ≡ a
unfolding ◌+ℤ◌
zero_add a = ground arith

from_zero : (a : ℤ) → pos 0 +ℤ a ≡ a
unfolding ◌+ℤ◌
from_zero a = ground arith

sub_add : (a b : ℤ) → a +ℤ (b -ℤ a) ≡ b
sub_add a b = eq_of_parts (a +ℤ (b -ℤ a)) b (omega (arith, +ℤ_parts a (b -ℤ a), -ℤ_parts b a))

add_assoc : (a b c : ℤ) → (a +ℤ b) +ℤ c ≡ a +ℤ (b +ℤ c)
add_assoc a b c =
    eq_of_parts ((a +ℤ b) +ℤ c) (a +ℤ (b +ℤ c))
      (omega (arith, +ℤ_parts (a +ℤ b) c, +ℤ_parts a b, +ℤ_parts a (b +ℤ c), +ℤ_parts b c))

final_total-split :
    (score total remaining : ℤ) (c : CriterionEvaluation) (cs : List CriterionEvaluation)
    → final_total (split score total remaining (c ∷ cs)) ≡ remaining
unfolding split or_zero
final_total-split score total remaining c [] = zero_add remaining
final_total-split score total remaining c (d ∷ cs) =
    let given = min_ℤ (share score (or_zero c.proposed_marks) total) c.max_marks in
    ap (λ t. given +ℤ t) (final_total-split score total (remaining -ℤ given) d cs)
    ∙ sub_add given remaining

unmarked-split :
    (score total remaining : ℤ) (cs : List CriterionEvaluation)
    → map unmarked (split score total remaining cs) ≡ map unmarked cs
unfolding split
unmarked-split score total remaining [] = refl
unmarked-split score total remaining (c ∷ []) = refl
unmarked-split score total remaining (c ∷ d ∷ cs) =
    ap (λ t. unmarked c ∷ t)
      (unmarked-split score total
        (remaining -ℤ min_ℤ (share score (or_zero c.proposed_marks) total) c.max_marks) (d ∷ cs))

unmarked-update :
    (test : CriterionEvaluation → Bool) (marks : ℤ) (cs : List CriterionEvaluation)
    → map unmarked (update test (λ c. record c { final_marks = some marks }) cs) ≡ map unmarked cs
unfolding update
unmarked-update test marks [] = refl
unmarked-update test marks (c ∷ cs) = ground (arith, unmarked-update test marks cs)

pub give_finals-ok :
    (items : List (ℕ × ℤ)) (criteria : List CriterionEvaluation) (total : ℤ)
    {rows : List CriterionEvaluation} {t : ℤ}
    → give_finals items criteria total ≡ ok (rows, t)
    → (t ≡ total +ℤ marks_total items) × (map unmarked rows ≡ map unmarked criteria)
unfolding give_finals
give_finals-ok [] criteria total h =
    let e = ok-injective h in
    (sym (ap (λ p. p.1) e) ∙ sym (zero_add total), ap (λ p. map unmarked p.0) (sym e))
give_finals-ok ((cid, marks) ∷ items) criteria total h =
    let (row, found, h₁) = >>=-eq-ok (require (by_id cid criteria) foreign_criterion) _ h in
    let (u, fits, h₂) = >>=-eq-ok (guard (not (ltb_ℤ row.max_marks marks)) _) _ h₁ in
    let (e, k) =
      give_finals-ok items
        (update (λ c. c.id == row.id) (λ c. record c { final_marks = some marks }) criteria)
        (total +ℤ marks) h₂ in
    (
      e ∙ add_assoc total marks (marks_total items),
      k ∙ unmarked-update (λ c. c.id == row.id) marks criteria,
    )

-- What a settlement of an overridden score promises about the rows it returns.
pub record Settles (score : ℤ) (items : List (ℕ × ℤ)) (criteria rows : List CriterionEvaluation)
    : Type 0 where
  pub split_total :
      items ≡ [] → ltb_ℤ (pos 0) (prop_total criteria) ≡ true → final_total rows ≡ score
  pub given_total : items ≢ [] → marks_total items ≡ score
  pub kept : map unmarked rows ≡ map unmarked criteria

eq_of_not_less : (a b : ℤ) → not (ltb_ℤ a b) ≡ true → not (ltb_ℤ b a) ≡ true → a ≡ b
eq_of_not_less a b h k = eq_of_parts a b (ground arith)

settle_by_score-total :
    (score : ℤ) (criteria : List CriterionEvaluation)
    → ltb_ℤ (pos 0) (prop_total criteria) ≡ true
    → final_total (settle_by_score score criteria) ≡ score
unfolding settle_by_score prop_total
settle_by_score-total score [] h = cc
settle_by_score-total score (c ∷ cs) h =
    rw h (final_total-split score (prop_total (c ∷ cs)) score c cs)

unmarked-give_only :
    (score : ℤ) (cs : List CriterionEvaluation)
    → map unmarked (give_only score cs) ≡ map unmarked cs
unfolding give_only
unmarked-give_only score [] = refl
unmarked-give_only score (c ∷ []) = refl
unmarked-give_only score (c ∷ d ∷ cs) = refl

unmarked-settle_by_score :
    (score : ℤ) (criteria : List CriterionEvaluation)
    → map unmarked (settle_by_score score criteria) ≡ map unmarked criteria
unfolding settle_by_score
unmarked-settle_by_score score criteria = ground (
  arith,
  unmarked-split score (prop_total criteria) score criteria,
  unmarked-give_only score criteria,
)

-- When an override settles its criteria, the marks the caller listed add up to the question's
-- score; where none are listed and the proposed marks add up to more than zero, the marks of the
-- proportional split add up to the score exactly, rounding included; in both cases only the final
-- marks of the rows change.
pub settle-Settles :
    (score : ℤ) (items : List (ℕ × ℤ)) (criteria rows : List CriterionEvaluation)
    → settle score items criteria ≡ ok rows
    → Settles score items criteria rows
unfolding settle
settle-Settles score [] criteria rows h =
    let e = ok-injective h in
    record {
      split_total = λ _ more. ap final_total (sym e) ∙ settle_by_score-total score criteria more;
      given_total = λ listed. absurd (listed refl);
      kept = ap (λ l. map unmarked l) (sym e) ∙ unmarked-settle_by_score score criteria;
    }
settle-Settles score (item ∷ items) criteria rows h =
    let ((given, total), gave, h₁) = >>=-eq-ok (give_finals (item ∷ items) criteria (pos 0)) _ h in
    let (u, not_less, h₂) = >>=-eq-ok (guard (not (ltb_ℤ total score)) _) _ h₁ in
    let (v, not_more, h₃) = >>=-eq-ok (guard (not (ltb_ℤ score total)) _) _ h₂ in
    let (sums, same) = give_finals-ok (item ∷ items) criteria (pos 0) gave in
    record {
      split_total = λ none_listed. cc;
      given_total = λ listed.
          sym (sums ∙ from_zero (marks_total (item ∷ items)))
          ∙ eq_of_not_less total score (guard-eq-ok _ _ not_less) (guard-eq-ok _ _ not_more);
      kept = ap (λ l. map unmarked l) (sym (ok-injective h₃)) ∙ same;
    }
