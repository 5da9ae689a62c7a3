-- ===== src/Mastery/Aggregation/Laws.antt =====
-- What the aggregation of strengths promises.
use eduvijna_paper_evaluatio.Prelude.{
  ℕ, ◌+◌, ◌*◌, ◌≡◌, ◌≤◌, ◌↔◌, none, some, List, ◌∷◌, ◌++◌, arith, round_half_even-le,
}
use eduvijna_paper_evaluatio.Prelude.Int.{ℤ, ◌-ℤ◌, ◌+ℤ◌, int_laws}
use eduvijna_paper_evaluatio.Mastery.Derivation.{Strength, strong, weak, inconclusive}
use eduvijna_paper_evaluatio.Mastery.Aggregation.{
  ratio_of, aggregate_dimension, compute_node_state, compute_delta, count_of, tally-count_of,
  count_of-append, counts-length,
}

aggregate-ratio_of :
    (xs : List Strength)
    → aggregate_dimension xs
      ≡ ratio_of (count_of strong xs, count_of weak xs, count_of inconclusive xs)
unfolding aggregate_dimension
aggregate-ratio_of xs = ground (arith, tally-count_of 0 0 0 xs)

-- The order in which the evidence is read does not matter.
pub aggregate_dimension_comm :
    (xs ys : List Strength) → aggregate_dimension (xs ++ ys) ≡ aggregate_dimension (ys ++ xs)
aggregate_dimension_comm xs ys = ground (
  arith,
  aggregate-ratio_of (xs ++ ys),
  aggregate-ratio_of (ys ++ xs),
  count_of-append strong xs ys,
  count_of-append weak xs ys,
  count_of-append inconclusive xs ys,
  count_of-append strong ys xs,
  count_of-append weak ys xs,
  count_of-append inconclusive ys xs,
)

-- One more INCONCLUSIVE strength raises its own count and changes neither the ratio nor the number
-- of decisive strengths.
pub inconclusive_is_neutral :
    (xs : List Strength)
    → aggregate_dimension (inconclusive ∷ xs)
      ≡ ((aggregate_dimension xs).0, (aggregate_dimension xs).1, (aggregate_dimension xs).2 + 1)
unfolding ratio_of count_of
inconclusive_is_neutral xs =
    ground (arith, aggregate-ratio_of xs, aggregate-ratio_of (inconclusive ∷ xs))

ratio_of-le : (s w i : ℕ) (r : ℕ) → (ratio_of (s, w, i)).0 ≡ some r → r ≤ 1_000_000
unfolding ratio_of
ratio_of-le s w i r h = ground (arith, round_half_even-le (s * 1_000_000) 1_000_000 (s + w))

-- There is a ratio exactly if a strength is STRONG or WEAK, and it is then at most one.
pub aggregate_ratio :
    (xs : List Strength)
    → (((aggregate_dimension xs).0 ≡ none) ↔ (count_of strong xs + count_of weak xs ≡ 0))
      × ((r : ℕ) → (aggregate_dimension xs).0 ≡ some r → r ≤ 1_000_000)
unfolding ratio_of
aggregate_ratio xs = (
  (λ h. ground (arith, aggregate-ratio_of xs), λ h. ground (arith, aggregate-ratio_of xs)),
  λ r h.
      ratio_of-le (count_of strong xs) (count_of weak xs) (count_of inconclusive xs) r
        (rw aggregate-ratio_of at h),
)

-- Every piece of evidence of a node is counted once, as decisive or as inconclusive.
pub node_state_counts :
    (cs es : List Strength)
    → (compute_node_state cs es).concept_decisive_count
        + (compute_node_state cs es).concept_inconclusive_count
        + (compute_node_state cs es).execution_decisive_count
        + (compute_node_state cs es).execution_inconclusive_count
      ≡ (compute_node_state cs es).evidence_count
unfolding compute_node_state ratio_of
node_state_counts cs es =
    ground (arith, aggregate-ratio_of cs, aggregate-ratio_of es, counts-length cs, counts-length es)

deltas : (a b c : ℤ) → c -ℤ a ≡ (b -ℤ a) +ℤ (c -ℤ b)
deltas a b c = omega int_laws

-- Deltas over two periods add up to the delta over both.
pub compute_delta_chain :
    (a b c : ℤ) {first second : ℤ}
    → compute_delta (some a) (some b) ≡ some first
    → compute_delta (some b) (some c) ≡ some second
    → compute_delta (some a) (some c) ≡ some (first +ℤ second)
unfolding compute_delta
compute_delta_chain a b c p q = ground (arith, deltas a b c)
