-- ===== src/Mastery/Aggregation.antt =====
-- b12_algorithm.py: strengths of one dimension aggregated over a node's evidence. Ratios are in
-- millionths. reassessment_mastery.py: the difference of two such ratios, which needs no rounding.
pub mod Laws
use eduvijna_paper_evaluatio.Prelude.{
  ℕ, ◌+◌, ◌*◌, ◌≡◌, refl, Option, none, some, List, [], ◌∷◌, ◌++◌, arith, length, ◌==◌,
  if◌then◌else◌, round_half_even,
}
use eduvijna_paper_evaluatio.Prelude.Int.{ℤ, ◌-ℤ◌}
use eduvijna_paper_evaluatio.Mastery.Derivation.{Strength, strong, weak, inconclusive}

-- the loop over the strengths, with its three counters
unfoldable pub tally : (strong_count weak_count inconclusive_count : ℕ) → List Strength → ℕ × ℕ × ℕ
tally s w i [] = (s, w, i)
tally s w i (strong ∷ rest) = tally (s + 1) w i rest
tally s w i (weak ∷ rest) = tally s (w + 1) i rest
tally s w i (inconclusive ∷ rest) = tally s w (i + 1) rest

unfoldable pub ratio_of : ℕ × ℕ × ℕ → Option ℕ × ℕ × ℕ
unfolding round_half_even
ratio_of (s, w, i) =
    if s + w == 0 then (none, 0, i) else (some (round_half_even (s * 1_000_000) (s + w)), s + w, i)

unfoldable pub aggregate_dimension : List Strength → Option ℕ × ℕ × ℕ
aggregate_dimension strengths = ratio_of (tally 0 0 0 strengths)

pub record NodeState : Type 0 where
  pub concept_mastery : Option ℕ
  pub execution_accuracy : Option ℕ
  pub concept_decisive_count : ℕ
  pub execution_decisive_count : ℕ
  pub concept_inconclusive_count : ℕ
  pub execution_inconclusive_count : ℕ
  pub evidence_count : ℕ

unfoldable pub compute_node_state :
    (concept_strengths execution_strengths : List Strength) → NodeState
compute_node_state cs es =
    let (concept_mastery, concept_decisive, concept_inc) = aggregate_dimension cs in
    let (execution_accuracy, execution_decisive, execution_inc) = aggregate_dimension es in
    record {
      concept_mastery = concept_mastery;
      execution_accuracy = execution_accuracy;
      concept_decisive_count = concept_decisive;
      execution_decisive_count = execution_decisive;
      concept_inconclusive_count = concept_inc;
      execution_inconclusive_count = execution_inc;
      evidence_count = length cs + length es;
    }

unfoldable pub compute_delta : (baseline post : Option ℤ) → Option ℤ
compute_delta (some baseline) (some post) = some (post -ℤ baseline)
compute_delta _ _ = none

-- How often a strength occurs.
pub count_of : Strength → List Strength → ℕ
count_of s [] = 0
count_of strong (x ∷ xs) = (elim x [ strong ↦ 1 | _ ↦ 0 ]) + count_of strong xs
count_of weak (x ∷ xs) = (elim x [ weak ↦ 1 | _ ↦ 0 ]) + count_of weak xs
count_of inconclusive (x ∷ xs) = (elim x [ inconclusive ↦ 1 | _ ↦ 0 ]) + count_of inconclusive xs

tally-count_of :
    (s w i : ℕ) (xs : List Strength)
    → tally s w i xs ≡ (s + count_of strong xs, w + count_of weak xs, i + count_of inconclusive xs)
unfolding tally count_of
tally-count_of s w i [] = ground arith
tally-count_of s w i (strong ∷ xs) = ground (arith, tally-count_of (s + 1) w i xs)
tally-count_of s w i (weak ∷ xs) = ground (arith, tally-count_of s (w + 1) i xs)
tally-count_of s w i (inconclusive ∷ xs) = ground (arith, tally-count_of s w (i + 1) xs)

count_of-append :
    (s : Strength) (xs ys : List Strength) → count_of s (xs ++ ys) ≡ count_of s xs + count_of s ys
unfolding count_of
count_of-append strong [] ys = omega arith
count_of-append weak [] ys = omega arith
count_of-append inconclusive [] ys = omega arith
count_of-append strong (x ∷ xs) ys = omega (arith, count_of-append strong xs ys)
count_of-append weak (x ∷ xs) ys = omega (arith, count_of-append weak xs ys)
count_of-append inconclusive (x ∷ xs) ys = omega (arith, count_of-append inconclusive xs ys)

counts-length :
    (xs : List Strength)
    → count_of strong xs + count_of weak xs + count_of inconclusive xs ≡ length xs
unfolding count_of
counts-length [] = refl
counts-length (strong ∷ xs) = omega (arith, counts-length xs)
counts-length (weak ∷ xs) = omega (arith, counts-length xs)
counts-length (inconclusive ∷ xs) = omega (arith, counts-length xs)
