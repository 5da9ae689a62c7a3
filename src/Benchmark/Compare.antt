-- ===== src/Benchmark/Compare.antt =====
-- `compare_case_output`: what a candidate says of a case, against the expected marks and codes.
use eduvijna_paper_evaluatio.Prelude.{
  ℕ, Bool, true, false, ◌&&◌, ◌+◌, ◌*◌, Option, none, some, List, [], ◌∷◌, String, str_eq, str_lt,
  leb, if◌then◌else◌,
}
use eduvijna_paper_evaluatio.Prelude.Int.{ℤ, pos_part, neg_part, ◌-ℤ◌, ltb_ℤ}
use eduvijna_paper_evaluatio.Benchmark.Tables.{Compared}

-- `sorted(str(code) for code in raw)`, which keeps repeats
unfoldable pub insert_code : String → List String → List String
insert_code c [] = c ∷ []
insert_code c (d ∷ ds) = let rest = insert_code c ds in if str_lt d c then d ∷ rest else c ∷ d ∷ ds

unfoldable pub normalize_error_codes : List String → List String
unfolding insert_code
normalize_error_codes [] = []
normalize_error_codes (c ∷ cs) = insert_code c (normalize_error_codes cs)

-- `==` on lists of codes
unfoldable pub same_codes : List String → List String → Bool
same_codes [] [] = true
same_codes [] (d ∷ ds) = false
same_codes (c ∷ cs) [] = false
same_codes (c ∷ cs) (d ∷ ds) = str_eq c d && same_codes cs ds

-- `abs`
unfoldable pub abs_ℤ : ℤ → ℕ
abs_ℤ z = pos_part z + neg_part z

-- the answer for a case without an output
unfoldable pub missing : List String → Compared
missing actual_codes = record {
  missing_output = true;
  actual_marks = none;
  actual_error_codes = actual_codes;
  score_abs_error = none;
  exact_score_match = false;
  taxonomy_match = none;
  safety_invariant_failed = false;
}

unfoldable pub compare_marks :
    (expected_final_marks expected_max_marks : ℤ)
    → (expected_codes actual_codes : List String) → (score_tolerance : ℕ) → ℤ
    → Compared
unfolding same_codes abs_ℤ ◌-ℤ◌
compare_marks expected_final_marks expected_max_marks expected_codes actual_codes score_tolerance
      actual_marks =
    let abs_error = abs_ℤ (actual_marks -ℤ expected_final_marks) in
    record {
      missing_output = false;
      actual_marks = some actual_marks;
      actual_error_codes = actual_codes;
      score_abs_error = some abs_error;
      exact_score_match = leb (abs_error * 100) score_tolerance;
      taxonomy_match = some (same_codes actual_codes expected_codes);
      safety_invariant_failed = ltb_ℤ expected_max_marks actual_marks;
    }

unfoldable pub compare_case_output :
    (expected_final_marks expected_max_marks : ℤ)
    → (expected_error_codes : List String) → Option ℤ
    → (actual_error_codes : List String) → (missing_output : Bool) → (score_tolerance : ℕ)
    → Compared
unfolding normalize_error_codes missing compare_marks
compare_case_output expected_final_marks expected_max_marks expected_error_codes none
      actual_error_codes missing_output score_tolerance =
    missing (normalize_error_codes actual_error_codes)
compare_case_output expected_final_marks expected_max_marks expected_error_codes (some actual_marks)
      actual_error_codes missing_output score_tolerance =
    let actual_codes = normalize_error_codes actual_error_codes in
    if missing_output
    then missing actual_codes
    else compare_marks expected_final_marks expected_max_marks
        (normalize_error_codes expected_error_codes) actual_codes score_tolerance actual_marks
