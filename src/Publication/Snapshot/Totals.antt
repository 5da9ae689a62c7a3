-- ===== src/Publication/Snapshot/Totals.antt =====
-- The totals that a publication carries.
use eduvijna_paper_evaluatio.Prelude.{
  ◌+◌, ◌<◌, ◌≡◌, sym, true, false, not, List, Result, ok, err, guard, >>=-eq-ok, ok-injective,
  Bool-cases, inl, inr, ◌⊎◌, arith,
}
use eduvijna_paper_evaluatio.Prelude.Int.{ℤ, pos, ◌≤ℤ◌, ltb_ℤ, pos_part, neg_part}
use eduvijna_paper_evaluatio.Grading.Ledger.{QuestionEvaluation}
use eduvijna_paper_evaluatio.Publication.Tables.{PublicationCode}
use eduvijna_paper_evaluatio.Publication.Snapshot.{
  sum_ℤ, score_or_zero, same_ℤ, out_of_range, reconcile_totals,
}

-- The two totals of a ledger.
abbrev pub total_of : List QuestionEvaluation → ℤ
total_of qes = sum_ℤ score_or_zero qes

abbrev pub max_total_of : List QuestionEvaluation → ℤ
max_total_of qes = sum_ℤ (λ (qe : QuestionEvaluation). qe.max_mark) qes

infix 50 ◌<ℤ◌
abbrev pub ◌<ℤ◌ : ℤ → ℤ → Type 0
a <ℤ b = pos_part a + neg_part b < pos_part b + neg_part a

-- What the reconciliation of a ledger answers.
pub data Reconciled (qes : List QuestionEvaluation) : Result PublicationCode (ℤ × ℤ) → Type 0 where
  within_range :
      pos 0 ≤ℤ total_of qes
      → ((max_total_of qes ≤ℤ pos 0) ⊎ (total_of qes ≤ℤ max_total_of qes))
      → Reconciled qes (ok (total_of qes, max_total_of qes))
  beyond :
      (total_of qes <ℤ pos 0) ⊎ ((pos 0 <ℤ max_total_of qes) × (max_total_of qes <ℤ total_of qes))
      → Reconciled qes (err PublicationCode.total_out_of_range)

same_ℤ_refl : (a : ℤ) → same_ℤ a a ≡ true
unfolding same_ℤ
same_ℤ_refl a = ground arith

in_range : (t m : ℤ) → out_of_range t m ≡ false → (pos 0 ≤ℤ t) × ((m ≤ℤ pos 0) ⊎ (t ≤ℤ m))
unfolding out_of_range
in_range t m h = elim (Bool-cases (ltb_ℤ (pos 0) m)) [
  | inl some' ↦ (ground arith, inr (ground arith))
  | inr none' ↦ (ground arith, inl (ground arith))
]

beyond_range : (t m : ℤ) → out_of_range t m ≡ true → (t <ℤ pos 0) ⊎ ((pos 0 <ℤ m) × (m <ℤ t))
unfolding out_of_range
beyond_range t m h = elim (Bool-cases (ltb_ℤ t (pos 0))) [
  | inl negative ↦ inl (ground arith)
  | inr natural ↦ inr (ground arith)
]

-- The reconciliation of a ledger never finds a mismatch. It returns the sum of the final scores,
-- a missing one counted as 0, and that of the maxima, if the first is not negative and, where the
-- maxima are positive in sum, not above that sum; and it refuses every other ledger as out of
-- range.
pub reconcile_totals-Reconciled :
    (qes : List QuestionEvaluation) → Reconciled qes (reconcile_totals qes)
unfolding reconcile_totals
reconcile_totals-Reconciled qes =
    rw (same_ℤ_refl (total_of qes))
      (elim (Bool-cases (out_of_range (total_of qes) (max_total_of qes))) [
        | inl outside ↦ rw outside (beyond (beyond_range _ _ outside))
        | inr inside ↦ rw inside (let (a, b) = in_range _ _ inside in within_range a b)
      ])

-- A reconciliation that returns gives the two sums.
pub reconcile_totals_sums :
    (qes : List QuestionEvaluation) {totals : ℤ × ℤ}
    → reconcile_totals qes ≡ ok totals
    → totals ≡ (total_of qes, max_total_of qes)
unfolding reconcile_totals
reconcile_totals_sums qes h =
    let (u, same, h₁) =
      >>=-eq-ok (guard (same_ℤ (total_of qes) (total_of qes)) PublicationCode.total_mismatch) _ h in
    let (v, ranged, h₂) =
      >>=-eq-ok
        (guard (not (out_of_range (total_of qes) (max_total_of qes)))
          PublicationCode.total_out_of_range)
        _ h₁ in
    sym (ok-injective h₂)
