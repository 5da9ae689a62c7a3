-- ===== src/Mastery/Codes.antt =====
-- The code sets of mastery_derivation.py and b12_algorithm.py.
use eduvijna_paper_evaluatio.Prelude.{String, List, [], ◌∷◌, Bool, has_text, if◌then◌else◌}

abbrev pub review_inconclusive_codes : List String
review_inconclusive_codes =
    "UNREADABLE" ∷ "OCR_TRANSCRIPTION" ∷ "QUESTION_MAPPING" ∷ "IDENTITY_MAPPING"
    ∷ "RUBRIC_AMBIGUITY" ∷ "OTHER_REVIEW_REQUIRED" ∷ []

abbrev pub concept_weak_codes : List String
concept_weak_codes = "CONCEPT" ∷ "FORMULA" ∷ "INTERPRETATION" ∷ "LOGIC_REASONING" ∷ []

abbrev pub execution_weak_codes : List String
execution_weak_codes =
    "CALCULATION" ∷ "ALGEBRA" ∷ "SIGN" ∷ "SUBSTITUTION" ∷ "UNIT" ∷ "FINAL_ANSWER" ∷ []

abbrev pub procedure_weak_codes : List String
procedure_weak_codes = "METHOD" ∷ "INCOMPLETE" ∷ []

abbrev pub non_concept_weakness_codes : List String
non_concept_weakness_codes = "NOTATION" ∷ "PRESENTATION" ∷ "DIAGRAM" ∷ "VALID_ALTERNATIVE" ∷ []

abbrev pub academic_error_codes : List String
academic_error_codes =
    "CONCEPT" ∷ "FORMULA" ∷ "METHOD" ∷ "CALCULATION" ∷ "ALGEBRA" ∷ "SIGN" ∷ "SUBSTITUTION"
    ∷ "NOTATION" ∷ "UNIT" ∷ "DIAGRAM" ∷ "INTERPRETATION" ∷ "INCOMPLETE" ∷ "LOGIC_REASONING"
    ∷ "PRESENTATION" ∷ "FINAL_ANSWER" ∷ "VALID_ALTERNATIVE" ∷ []

unfoldable pub is_academic_error : String → Bool
unfolding has_text
is_academic_error code = has_text academic_error_codes code

unfoldable pub is_review_condition : String → Bool
unfolding has_text
is_review_condition code = has_text review_inconclusive_codes code

pub data PracticeKind : Type 0 where
  concept_check execution_practice procedure_practice : PracticeKind

unfoldable pub practice_kind_for_error : String → PracticeKind
unfolding has_text
practice_kind_for_error code =
    if has_text concept_weak_codes code
    then concept_check
    else if has_text execution_weak_codes code
    then execution_practice
    else if has_text procedure_weak_codes code
    then procedure_practice
    else concept_check
