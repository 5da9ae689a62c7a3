-- ===== src/Mastery/Derivation.antt =====
-- `derive_b8_v1_signals` and `aggregate_signal`. Scores are `Numeric(10, 4)`: integers of
-- ten-thousandths, signed since the code checks for negative ones. The ratio is in millionths.
use eduvijna_paper_evaluatio.Prelude.{
  ℕ, ◌*◌, Bool, true, false, not, ◌&&◌, ◌||◌, List, [], ◌∷◌, ◌++◌, String, Result, ok, err, ltb,
  ◌==◌, if◌then◌else◌, str_eq, select, has_text, meets, within, sorted_unique, round_half_even,
}
use eduvijna_paper_evaluatio.Prelude.Int.{ℤ, pos, pos_part, ltb_ℤ}
use eduvijna_paper_evaluatio.Mastery.Codes.{
  review_inconclusive_codes, concept_weak_codes, execution_weak_codes, procedure_weak_codes,
  non_concept_weakness_codes,
}

pub data Strength : Type 0 where
  strong weak inconclusive : Strength

-- the two `ValueError`s
pub data ScoreError : Type 0 where
  max_mark_not_positive final_score_out_of_range : ScoreError

pub record DerivedSignals : Type 0 where
  pub concept : Strength
  pub execution : Strength
  pub procedure : Strength
  pub academic_error_codes : List String
  pub review_condition_codes : List String
  pub reason_codes : List String
  pub score_ratio : ℕ

unfoldable pub review_codes : List String → List String
unfolding sorted_unique select has_text
review_codes codes = sorted_unique (select (has_text review_inconclusive_codes) codes)

abbrev pub is_academic : String → Bool
unfolding has_text
is_academic c = not (has_text review_inconclusive_codes c) && not (str_eq c "BLANK")

unfoldable pub academic_codes : List String → List String
unfolding sorted_unique select has_text
academic_codes codes = sorted_unique (select is_academic codes)

-- `sorted(set(academic) & codes)`
abbrev common : List String → List String → List String
common academic codes = select (has_text codes) academic

abbrev pub is_empty : List String → Bool
is_empty [] = true
is_empty (c ∷ cs) = false

-- A signal with the reasons that its branch adds.
unfoldable pub concept_signal :
    (cw ew pw full zero positive : Bool) → List String → Strength × List String
unfolding select has_text
concept_signal cw ew pw full zero positive academic =
    if cw
    then (weak, common academic concept_weak_codes)
    else if ew && (not cw && positive)
    then (strong, "EXECUTION_SLIP_CONCEPT_INTACT" ∷ [])
    else if full
    then (strong, [])
    else if zero && is_empty academic
    then (inconclusive, "INSUFFICIENT_TAXONOMY" ∷ [])
    else if zero && (pw && (not cw && not ew))
    then (inconclusive, [])
    else if is_empty academic
    then (inconclusive, [])
    else (if cw then weak else inconclusive, [])

unfoldable pub execution_signal :
    (cw ew full positive : Bool) → List String → Strength × List String
unfolding select has_text
execution_signal cw ew full positive academic =
    if ew
    then (weak, common academic execution_weak_codes)
    else if full
    then (strong, [])
    else if cw && (not ew && positive)
    then (inconclusive, [])
    else (inconclusive, [])

unfoldable pub procedure_signal : (pw full : Bool) → List String → Strength × List String
unfolding select has_text
procedure_signal pw full academic =
    if pw
    then (weak, common academic procedure_weak_codes)
    else if full
    then (strong, [])
    else (inconclusive, [])

-- `if concept == "WEAK" and …: concept = "INCONCLUSIVE"`
unfoldable pub unless_weak : Bool → Strength → Strength
unless_weak true weak = inconclusive
unless_weak _ s = s

-- what follows the checks of the score, for a script that is neither blank nor under review
module _ (academic review : List String) (ratio : ℕ) (cw ew pw full zero positive : Bool) where
  unfoldable pub decided : DerivedSignals
  unfolding concept_signal execution_signal procedure_signal unless_weak within sorted_unique
  decided =
      let (concept, cr) = concept_signal cw ew pw full zero positive academic in
      let (execution, er) = execution_signal cw ew full positive academic in
      let (procedure, pr) = procedure_signal pw full academic in
      let only_non_concept =
        not (is_empty academic) && within academic non_concept_weakness_codes in
      let concept' = unless_weak only_non_concept (unless_weak (not cw) concept) in
      let overridden = only_non_concept && full in
      record {
        concept = if overridden then strong else concept';
        execution = if overridden then strong else execution;
        procedure = if overridden then strong else procedure;
        academic_error_codes = academic;
        review_condition_codes = review;
        reason_codes = sorted_unique (cr ++ (er ++ pr));
        score_ratio = ratio;
      }

unfoldable pub uniform : Strength → List String → List String → List String → ℕ → DerivedSignals
unfolding sorted_unique
uniform s academic review reasons ratio = record {
  concept = s;
  execution = s;
  procedure = s;
  academic_error_codes = academic;
  review_condition_codes = review;
  reason_codes = sorted_unique reasons;
  score_ratio = ratio;
}

-- the body once `max_mark` and `final_score` are known to be in range
unfoldable pub derive_in_range : (final_score max_mark : ℕ) → List String → Bool → DerivedSignals
derive_in_range final_score max_mark codes is_blank =
    let ratio = round_half_even (final_score * 1_000_000) max_mark in
    let review = review_codes codes in
    let academic = academic_codes codes in
    let cw = meets academic concept_weak_codes in
    let ew = meets academic execution_weak_codes in
    let pw = meets academic procedure_weak_codes in
    let full = final_score == max_mark in
    if is_blank
    then uniform inconclusive academic review ("BLANK" ∷ []) ratio
    else if not (is_empty review)
    then uniform inconclusive academic review review ratio
    else if full && (not cw && (not ew && not pw))
    then uniform strong academic review [] ratio
    else decided academic review ratio cw ew pw full (final_score == 0) (ltb 0 final_score)

unfoldable pub derive_b8_v1_signals :
    (final_score max_mark : ℤ) → List String → Bool → Result ScoreError DerivedSignals
derive_b8_v1_signals final_score max_mark codes is_blank =
    if not (ltb_ℤ (pos 0) max_mark)
    then err max_mark_not_positive
    else if ltb_ℤ final_score (pos 0) || ltb_ℤ max_mark final_score
    then err final_score_out_of_range
    else ok (derive_in_range (pos_part final_score) (pos_part max_mark) codes is_blank)

unfoldable pub aggregate_signal : (strong_count weak_count inconclusive_count : ℕ) → Strength
aggregate_signal s w i = if ltb w s then strong else if ltb s w then weak else inconclusive
