-- ===== src/Mastery/Samples.antt =====
-- Scripts and their signals, and the theorems about mastery at them.
use eduvijna_paper_evaluatio.Prelude.{
  round_half_even, ◌≡◌, ◌⊎◌, ◌↔◌, refl, true, false, ◌||◌, ◌==◌, some, List, [], ◌∷◌, ok, err,
  meets,
}
use eduvijna_paper_evaluatio.Prelude.Int.{pos, negsuc, ◌≤ℤ◌}
use eduvijna_paper_evaluatio.Mastery.Codes.{
  concept_weak_codes, execution_weak_codes, procedure_weak_codes,
}
use eduvijna_paper_evaluatio.Mastery.Derivation.{
  uniform, Strength, strong, weak, inconclusive, DerivedSignals, max_mark_not_positive,
  final_score_out_of_range, review_codes, academic_codes, decided, derive_in_range,
  derive_b8_v1_signals,
}
use eduvijna_paper_evaluatio.Mastery.Signals.{
  WeakBy, StrongBy, slip, derive_b8_v1_signals-weak, derive_b8_v1_signals-strong,
}
use eduvijna_paper_evaluatio.Mastery.Scores.{derive_b8_v1_signals_errors}
use eduvijna_paper_evaluatio.Mastery.Aggregation.{aggregate_dimension, tally, ratio_of}

-- A sign slip that costs one mark of four.
abbrev slip_codes : List Prim.Native.String.String
slip_codes = "SIGN" ∷ "NOTATION" ∷ "SIGN" ∷ []

program : Unit {0}
unfolding derive_b8_v1_signals derive_in_range review_codes academic_codes meets uniform decided
    round_half_even
program = tt

abbrev slip_signals : DerivedSignals
slip_signals = record {
  concept = strong;
  execution = weak;
  procedure = inconclusive;
  academic_error_codes = "NOTATION" ∷ "SIGN" ∷ [];
  review_condition_codes = [];
  reason_codes = "EXECUTION_SLIP_CONCEPT_INTACT" ∷ "SIGN" ∷ [];
  score_ratio = 750_000;
}

derive_slip : derive_b8_v1_signals (pos 30_000) (pos 40_000) slip_codes false ≡ ok slip_signals
unfolding program
derive_slip = refl

derive_blank :
    derive_b8_v1_signals (pos 0) (pos 40_000) ("INCOMPLETE" ∷ "BLANK" ∷ []) true
    ≡ ok (record {
      concept = inconclusive;
      execution = inconclusive;
      procedure = inconclusive;
      academic_error_codes = "INCOMPLETE" ∷ [];
      review_condition_codes = [];
      reason_codes = "BLANK" ∷ [];
      score_ratio = 0;
    })
unfolding program
derive_blank = refl

derive_b8_v1_signals-weak_example :
    WeakBy strong slip_codes false concept_weak_codes
    × WeakBy weak slip_codes false execution_weak_codes
    × WeakBy inconclusive slip_codes false procedure_weak_codes
derive_b8_v1_signals-weak_example =
    derive_b8_v1_signals-weak (pos 30_000) (pos 40_000) slip_codes false slip_signals derive_slip

derive_b8_v1_signals-strong_example :
    StrongBy strong slip_codes false concept_weak_codes
      ((30_000 == 40_000) || slip 30_000 40_000 slip_codes)
    × StrongBy weak slip_codes false execution_weak_codes (30_000 == 40_000)
    × StrongBy inconclusive slip_codes false procedure_weak_codes (30_000 == 40_000)
derive_b8_v1_signals-strong_example =
    derive_b8_v1_signals-strong (pos 30_000) (pos 40_000) slip_codes false slip_signals derive_slip

derive_b8_v1_signals_errors_example :
    ((derive_b8_v1_signals (negsuc 0) (pos 40_000) [] false ≡ err max_mark_not_positive)
      ↔ (pos 40_000 ≤ℤ pos 0))
    × ((derive_b8_v1_signals (negsuc 0) (pos 40_000) [] false ≡ err final_score_out_of_range)
        ↔ (¬ (pos 40_000 ≤ℤ pos 0) × ((¬ (pos 0 ≤ℤ negsuc 0)) ⊎ (¬ (negsuc 0 ≤ℤ pos 40_000)))))
derive_b8_v1_signals_errors_example = derive_b8_v1_signals_errors (negsuc 0) (pos 40_000) [] false

abbrev week : List Strength
week = strong ∷ weak ∷ inconclusive ∷ strong ∷ []

aggregate_week : aggregate_dimension week ≡ (some 666_667, 3, 1)
unfolding aggregate_dimension tally ratio_of
aggregate_week = refl
