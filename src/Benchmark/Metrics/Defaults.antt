-- ===== src/Benchmark/Metrics/Defaults.antt =====
-- When the metrics of a run pass under the default thresholds.
use eduvijna_paper_evaluatio.Prelude.{
  select-All, All-both, &&-eq-true, All-imp, ◌≢◌, ℕ, ◌≡◌, ◌≤◌, refl, true, false, Bool, Bool-cases,
  inl, inr, List, [], ◌∷◌, length, select, sum_of, All, arith, leb→le,
}
use eduvijna_paper_evaluatio.Benchmark.Tables.{Compared}
use eduvijna_paper_evaluatio.Benchmark.Metrics.{
  measure, compare_thresholds, default_thresholds, zero_rate, aggregate_regression_metrics,
  all_hold, mean_at_most, count_rows, has_error, error_of, is_applicable, is_taxonomy_match,
  rate_or, full_rate, at_most, at_least, empty_metrics,
}

-- An output that is there, scores exactly, and breaks no invariant; its codes match where they are
-- compared.
pub record IsFine (row : Compared) : Type 0 where
  pub present : row.missing_output ≡ false
  pub exact : row.exact_score_match ≡ true
  pub matches : is_applicable row ≡ true → is_taxonomy_match row ≡ true
  pub safe : row.safety_invariant_failed ≡ false

count-le : (test : Compared → Bool) (rows : List Compared) → count_rows test rows ≤ length rows
unfolding count_rows select
count-le test [] = omega arith
count-le test (r ∷ rs) = ground (arith, count-le test rs)

no_count :
    (test : Compared → Bool) (rows : List Compared)
    → count_rows test rows ≡ 0
    → All (λ r. test r ≡ false) rows
unfolding count_rows select
no_count test [] h = tt
no_count test (r ∷ rs) h = elim (Bool-cases (test r)) [
  | inl hit ↦ absurd (ground arith)
  | inr miss ↦ (miss, no_count test rs (ground arith))
]

full_count :
    (test : Compared → Bool) (rows : List Compared)
    → length rows ≤ count_rows test rows
    → All (λ r. test r ≡ true) rows
unfolding count_rows select
full_count test [] h = tt
full_count test (r ∷ rs) h = elim (Bool-cases (test r)) [
  | inl hit ↦ (hit, full_count test rs (ground arith))
  | inr miss ↦ let below = count-le test rs in absurd (ground (arith, below))
]

All-no_count :
    (test : Compared → Bool) (rows : List Compared)
    → All (λ r. test r ≡ false) rows
    → count_rows test rows ≡ 0
unfolding count_rows select
All-no_count test [] h = refl
All-no_count test (r ∷ rs) (e, es) = ground (arith, All-no_count test rs es)

All-full_count :
    (test : Compared → Bool) (rows : List Compared)
    → All (λ r. test r ≡ true) rows
    → count_rows test rows ≡ length rows
unfolding count_rows select
All-full_count test [] h = refl
All-full_count test (r ∷ rs) (e, es) = ground (arith, All-full_count test rs es)

no_errors :
    (rows : List Compared)
    → All (λ r. error_of r ≡ 0) rows
    → sum_of error_of (select has_error rows) ≡ 0
unfolding sum_of select
no_errors [] h = refl
no_errors (r ∷ rs) (e, es) = ground (arith, no_errors rs es)

applicable_matches :
    (rows : List Compared)
    → All (λ r. is_applicable r ≡ true → is_taxonomy_match r ≡ true) rows
    → All (λ r. is_taxonomy_match r ≡ true) (select is_applicable rows)
unfolding select
applicable_matches [] h = tt
applicable_matches (r ∷ rs) (e, es) = elim (Bool-cases (is_applicable r)) [
  | inl hit ↦ rw hit (e hit, applicable_matches rs es)
  | inr miss ↦ rw miss (applicable_matches rs es)
]

-- the five comparisons, under the default thresholds
none_at_most :
    (part whole : ℕ) → at_most (record { part = part; whole = whole }) 0 ≡ true → part ≡ 0
unfolding at_most
none_at_most part whole h = let low = leb→le _ _ h in omega arith

all_at_least :
    (part whole : ℕ)
    → at_least (record { part = part; whole = whole }) 1_000_000 ≡ true
    → whole ≤ part
unfolding at_least
all_at_least part whole h = let low = leb→le _ _ h in omega arith

rate_at_least :
    (part whole : ℕ) → at_least (rate_or full_rate part whole) 1_000_000 ≡ true → whole ≤ part
unfolding rate_or at_least
rate_at_least part whole h = ground arith

at_most_none : (whole : ℕ) → at_most (record { part = 0; whole = whole }) 0 ≡ true
unfolding at_most
at_most_none whole = ground arith

mean_at_most_none : (count : ℕ) → mean_at_most (rate_or zero_rate 0 count) 250_000 ≡ true
unfolding mean_at_most rate_or
mean_at_most_none count = ground arith

at_least_all : (whole : ℕ) → at_least (record { part = whole; whole = whole }) 1_000_000 ≡ true
unfolding at_least
at_least_all whole = ground arith

rate_at_least_all : (whole : ℕ) → at_least (rate_or full_rate whole whole) 1_000_000 ≡ true
unfolding at_least rate_or
rate_at_least_all whole = ground arith

abbrev holds : List Compared → Bool
holds rows = all_hold (compare_thresholds default_thresholds (measure rows))

holds→All-IsFine : (rows : List Compared) → holds rows ≡ true → All IsFine rows
unfolding all_hold compare_thresholds measure count_rows
holds→All-IsFine rows h =
    let (missing, h₁) =
      &&-eq-true
        (at_most
          (record {
            part = count_rows (λ (r : Compared). r.missing_output) rows;
            whole = length rows;
          })
          0)
        _ h in
    let (error, h₂) = &&-eq-true _ _ h₁ in
    let (exact, h₃) =
      &&-eq-true
        (at_least
          (record {
            part = count_rows (λ (r : Compared). r.exact_score_match) rows;
            whole = length rows;
          })
          1_000_000)
        _ h₂ in
    let (taxonomy, safety) =
      &&-eq-true
        (at_least
          (rate_or full_rate (count_rows is_taxonomy_match (select is_applicable rows))
            (length (select is_applicable rows)))
          1_000_000)
        _ h₃ in
    All-both
      (λ (r : Compared) (a : (r.missing_output ≡ false) × (r.safety_invariant_failed ≡ false))
          (b : (r.exact_score_match ≡ true)
            × (is_applicable r ≡ true → is_taxonomy_match r ≡ true)).
        record { present = a.0; exact = b.0; matches = b.1; safe = a.1 })
      rows
      (All-both (λ r a b. (a, b)) rows
        (no_count (λ (r : Compared). r.missing_output) rows (none_at_most _ _ missing))
        (no_count (λ (r : Compared). r.safety_invariant_failed) rows (none_at_most _ _ safety)))
      (All-both (λ r a b. (a, b)) rows
        (full_count (λ (r : Compared). r.exact_score_match) rows (all_at_least _ _ exact))
        (select-All is_applicable (λ (r : Compared). is_taxonomy_match r ≡ true) rows
          (full_count is_taxonomy_match (select is_applicable rows) (rate_at_least _ _ taxonomy))))

All-IsFine→holds :
    (rows : List Compared) → All IsFine rows → All (λ r. error_of r ≡ 0) rows → holds rows ≡ true
unfolding all_hold compare_thresholds measure
All-IsFine→holds rows fine errors =
    rw
      (
        All-no_count (λ (r : Compared). r.missing_output) rows
            (All-imp (λ r (f : IsFine r). f.present) rows fine),
        All-no_count (λ (r : Compared). r.safety_invariant_failed) rows
            (All-imp (λ r (f : IsFine r). f.safe) rows fine),
        All-full_count (λ (r : Compared). r.exact_score_match) rows
            (All-imp (λ r (f : IsFine r). f.exact) rows fine),
        All-full_count is_taxonomy_match (select is_applicable rows)
            (applicable_matches rows (All-imp (λ r (f : IsFine r). f.matches) rows fine)),
        no_errors rows errors,
        at_most_none (length rows),
        mean_at_most_none (length (select has_error rows)),
        at_least_all (length rows),
        rate_at_least_all (length (select is_applicable rows)),
      )
      refl

-- Under the default thresholds the metrics of a run pass only if there is a case and each is fine.
pub passed→All-IsFine :
    (rows : List Compared)
    → (aggregate_regression_metrics default_thresholds rows).passed ≡ true
    → (rows ≢ []) × All IsFine rows
unfolding aggregate_regression_metrics empty_metrics
passed→All-IsFine [] h = cc
passed→All-IsFine (r ∷ rs) h = ((λ e. cc), holds→All-IsFine (r ∷ rs) h)

pub All-IsFine→passed :
    (rows : List Compared)
    → rows ≢ []
    → All IsFine rows
    → All (λ r. error_of r ≡ 0) rows
    → (aggregate_regression_metrics default_thresholds rows).passed ≡ true
unfolding aggregate_regression_metrics
All-IsFine→passed [] some' fine errors = absurd (some' refl)
All-IsFine→passed (r ∷ rs) some' fine errors = All-IsFine→holds (r ∷ rs) fine errors
