-- ===== src/Benchmark/Metrics.antt =====
-- `aggregate_regression_metrics`: rates over the cases of a run, and the verdict.
pub mod Defaults
use eduvijna_paper_evaluatio.Prelude.{
  ℕ, Bool, true, false, not, ◌&&◌, ◌*◌, ◌==◌, none, some, List, [], ◌∷◌, leb, length, select,
  sum_of, if◌then◌else◌,
}
use eduvijna_paper_evaluatio.Benchmark.Tables.{
  Verdict, Thresholds, Compared, Rate, Measured, Comparisons, Metrics,
}

-- `B15_DEFAULT_THRESHOLDS`
abbrev pub default_thresholds : Thresholds
default_thresholds = record {
  profile_code = "B15_DEFAULT_V1";
  algorithm_version = "B15_V1";
  max_missing_output_rate = 0;
  max_mean_abs_score_error = 250_000;
  min_exact_score_agreement_rate = 1_000_000;
  min_taxonomy_agreement_rate = 1_000_000;
  max_safety_invariant_failure_rate = 0;
  score_tolerance = 0;
}

-- `sum(1 for row in case_rows if test(row))`
unfoldable pub count_rows : (Compared → Bool) → List Compared → ℕ
unfolding select
count_rows test rows = length (select test rows)

unfoldable pub has_error : Compared → Bool
has_error row = elim row.score_abs_error [ some e ↦ not row.missing_output | none ↦ false ]

unfoldable pub error_of : Compared → ℕ
error_of row = elim row.score_abs_error [ some e ↦ e | none ↦ 0 ]

unfoldable pub is_applicable : Compared → Bool
is_applicable row = elim row.taxonomy_match [ some m ↦ true | none ↦ false ]

unfoldable pub is_taxonomy_match : Compared → Bool
is_taxonomy_match row = elim row.taxonomy_match [ some m ↦ m | none ↦ false ]

-- a quotient, and `other` where there is nothing to divide by
unfoldable pub rate_or : Rate → ℕ → ℕ → Rate
rate_or other part whole = if whole == 0 then other else record { part = part; whole = whole }

abbrev pub zero_rate : Rate
zero_rate = record { part = 0; whole = 1 }

abbrev pub full_rate : Rate
full_rate = record { part = 1; whole = 1 }

-- the metrics of a run with no case
unfoldable pub empty_metrics : Metrics
empty_metrics = record {
  measured = record {
    case_count = 0;
    missing_count = 0;
    missing_output_rate = full_rate;
    mean_abs_score_error = zero_rate;
    exact_score_agreement_rate = zero_rate;
    taxonomy_agreement_rate = full_rate;
    safety_invariant_failure_rate = full_rate;
    exact_match_count = 0;
    taxonomy_match_count = 0;
    taxonomy_applicable_count = 0;
    safety_fail_count = 0;
  };
  verdict = Verdict.fail;
  passed = false;
  threshold_comparisons = Comparisons.empty_run_safety_fail;
}

unfoldable pub measure : List Compared → Measured
unfolding count_rows has_error error_of is_applicable is_taxonomy_match rate_or sum_of select
measure rows =
    let n = length rows in
    let missing_count = count_rows (λ (r : Compared). r.missing_output) rows in
    let exact_match_count = count_rows (λ (r : Compared). r.exact_score_match) rows in
    let safety_fail_count = count_rows (λ (r : Compared). r.safety_invariant_failed) rows in
    let score_errors = select has_error rows in
    let taxonomy_applicable = select is_applicable rows in
    let taxonomy_match_count = count_rows is_taxonomy_match taxonomy_applicable in
    let taxonomy_applicable_count = length taxonomy_applicable in
    record {
      case_count = n;
      missing_count = missing_count;
      missing_output_rate = record { part = missing_count; whole = n };
      mean_abs_score_error = rate_or zero_rate (sum_of error_of score_errors) (length score_errors);
      exact_score_agreement_rate = record { part = exact_match_count; whole = n };
      taxonomy_agreement_rate = rate_or full_rate taxonomy_match_count taxonomy_applicable_count;
      safety_invariant_failure_rate = record { part = safety_fail_count; whole = n };
      exact_match_count = exact_match_count;
      taxonomy_match_count = taxonomy_match_count;
      taxonomy_applicable_count = taxonomy_applicable_count;
      safety_fail_count = safety_fail_count;
    }

-- a rate against a threshold of millionths
unfoldable pub at_most : Rate → ℕ → Bool
at_most r threshold = leb (r.part * 1_000_000) (threshold * r.whole)

unfoldable pub at_least : Rate → ℕ → Bool
at_least r threshold = leb (threshold * r.whole) (r.part * 1_000_000)

-- the mean of errors of ten-thousandths against a threshold of millionths
unfoldable pub mean_at_most : Rate → ℕ → Bool
mean_at_most r threshold = leb (r.part * 100) (threshold * r.whole)

-- `all(comparisons.values())`
unfoldable pub all_hold : Comparisons → Bool
all_hold Comparisons.empty_run_safety_fail = false
all_hold (Comparisons.compared missing error exact taxonomy safety) =
    missing && (error && (exact && (taxonomy && safety)))

unfoldable pub compare_thresholds : Thresholds → Measured → Comparisons
unfolding at_most at_least mean_at_most
compare_thresholds profile m =
    Comparisons.compared (at_most m.missing_output_rate profile.max_missing_output_rate)
      (mean_at_most m.mean_abs_score_error profile.max_mean_abs_score_error)
      (at_least m.exact_score_agreement_rate profile.min_exact_score_agreement_rate)
      (at_least m.taxonomy_agreement_rate profile.min_taxonomy_agreement_rate)
      (at_most m.safety_invariant_failure_rate profile.max_safety_invariant_failure_rate)

unfoldable pub aggregate_regression_metrics : Thresholds → List Compared → Metrics
unfolding empty_metrics measure compare_thresholds all_hold
aggregate_regression_metrics profile [] = empty_metrics
aggregate_regression_metrics profile (row ∷ rows) =
    let m = measure (row ∷ rows) in
    let comparisons = compare_thresholds profile m in
    let holds = all_hold comparisons in
    record {
      measured = m;
      verdict = if holds then Verdict.pass else Verdict.fail;
      passed = holds;
      threshold_comparisons = comparisons;
    }
