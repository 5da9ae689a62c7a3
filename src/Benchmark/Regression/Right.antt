-- ===== src/Benchmark/Regression/Right.antt =====
-- What makes the comparison of an output, without tolerance, a fine one.
use eduvijna_paper_evaluatio.Benchmark.Regression.{compare_output}
use eduvijna_paper_evaluatio.Prelude.{
  inr, inl, Bool-cases, Option, ◌≡◌, ◌*◌, refl, sym, ap, ◌∙◌, true, false, some, List, [], ◌∷◌,
  String, str_eq, eq_iff, &&-eq-true, leb, leb→le, arith, none,
}
use eduvijna_paper_evaluatio.Prelude.Int.{ℤ, ◌-ℤ◌, ◌≤ℤ◌, ltb_ℤ, -ℤ_parts, eq_of_parts}
use eduvijna_paper_evaluatio.Benchmark.Tables.{Compared, BenchmarkCase}
use eduvijna_paper_evaluatio.Benchmark.Compare.{
  missing, compare_case_output, normalize_error_codes, same_codes, abs_ℤ, compare_marks,
}
use eduvijna_paper_evaluatio.Benchmark.Metrics.{error_of, is_applicable, is_taxonomy_match}
use eduvijna_paper_evaluatio.Benchmark.Metrics.Defaults.{IsFine}
use eduvijna_paper_evaluatio.Benchmark.Candidates.{BenchmarkCandidateOutput}

-- The output is there, has the expected marks and, in whatever order, the expected codes; and the
-- expected marks are at most the case's maximum.
pub record IsRight (case : BenchmarkCase) (output : BenchmarkCandidateOutput) : Type 0 where
  pub present : output.missing_output ≡ false
  pub marks : output.marks ≡ some case.expected_final_marks
  pub codes :
      normalize_error_codes output.error_codes ≡ normalize_error_codes case.expected_error_codes
  pub bounded : case.expected_final_marks ≤ℤ case.expected_max_marks

same_codes-eq : (cs ds : List String) → same_codes cs ds ≡ true → cs ≡ ds
unfolding same_codes
same_codes-eq [] [] h = refl
same_codes-eq [] (d ∷ ds) h = cc
same_codes-eq (c ∷ cs) [] h = cc
same_codes-eq (c ∷ cs) (d ∷ ds) h =
    let (head, tail) = &&-eq-true (str_eq c d) _ h in
    let heads = (eq_iff c d).0 head in
    let tails = same_codes-eq cs ds tail in λ i. heads i ∷ tails i

same_codes_refl : (cs : List String) → same_codes cs cs ≡ true
unfolding same_codes
same_codes_refl [] = refl
same_codes_refl (c ∷ cs) = ground (arith, eq_iff c c, same_codes_refl cs)

no_distance : (a b : ℤ) → leb (abs_ℤ (a -ℤ b) * 100) 0 ≡ true → a ≡ b
unfolding abs_ℤ
no_distance a b h = let low = leb→le _ _ h in eq_of_parts a b (omega (arith, -ℤ_parts a b))

distance_self : (a : ℤ) → abs_ℤ (a -ℤ a) ≡ 0
unfolding abs_ℤ ◌-ℤ◌
distance_self a = ground arith

module _ (case : BenchmarkCase) where
  compare_marks-IsRight :
      (output : BenchmarkCandidateOutput) (m : ℤ)
      → output.marks ≡ some m
      → output.missing_output ≡ false
      → IsFine (
          compare_marks case.expected_final_marks case.expected_max_marks
            (normalize_error_codes case.expected_error_codes)
            (normalize_error_codes output.error_codes)
            0
            m)
      → IsRight case output
  unfolding compare_marks is_applicable is_taxonomy_match
  compare_marks-IsRight output m marks present fine =
      let same = no_distance m case.expected_final_marks fine.exact in
      record {
        present = present;
        marks = marks ∙ ap some same;
        codes = same_codes-eq _ _ (fine.matches refl);
        bounded =
            let safe : ltb_ℤ case.expected_max_marks m ≡ false = fine.safe in
            rw (sym same) (ground arith);
      }

  abbrev comparison : BenchmarkCandidateOutput → Option ℤ → Compared
  comparison output marks =
      compare_case_output case.expected_final_marks case.expected_max_marks
        case.expected_error_codes marks output.error_codes output.missing_output 0

  comparison-IsRight :
      (output : BenchmarkCandidateOutput) (marks : Option ℤ)
      → output.marks ≡ marks
      → IsFine (comparison output marks)
      → IsRight case output
  unfolding compare_case_output missing
  comparison-IsRight output none marks fine = cc fine.present
  comparison-IsRight output (some m) marks fine = elim (Bool-cases output.missing_output) [
    | inl absent ↦ cc (rw absent at fine.present)
    | inr present ↦ compare_marks-IsRight output m marks present (rw present at fine)
  ]

  right_comparison :
      (output : BenchmarkCandidateOutput) (right : IsRight case output)
      → compare_output 0 case output
        ≡ compare_marks case.expected_final_marks case.expected_max_marks
            (normalize_error_codes case.expected_error_codes)
            (normalize_error_codes case.expected_error_codes)
            0
            case.expected_final_marks
  unfolding compare_output compare_case_output
  right_comparison output right = rw (right.marks, right.present, right.codes) refl

  own_marks-IsFine :
      case.expected_final_marks ≤ℤ case.expected_max_marks
      → IsFine (
          compare_marks case.expected_final_marks case.expected_max_marks
            (normalize_error_codes case.expected_error_codes)
            (normalize_error_codes case.expected_error_codes)
            0
            case.expected_final_marks)
  unfolding compare_marks is_applicable is_taxonomy_match
  own_marks-IsFine bounded = record {
    present = refl;
    exact = rw (distance_self case.expected_final_marks) refl;
    matches = λ e. same_codes_refl (normalize_error_codes case.expected_error_codes);
    safe = ground arith;
  }

  own_marks_error :
      error_of (
        compare_marks case.expected_final_marks case.expected_max_marks
          (normalize_error_codes case.expected_error_codes)
          (normalize_error_codes case.expected_error_codes)
          0
          case.expected_final_marks)
      ≡ 0
  unfolding compare_marks error_of
  own_marks_error = distance_self case.expected_final_marks

  -- A comparison without tolerance is fine exactly if the output is right, and finds no error then.
  pub IsFine→IsRight :
      (output : BenchmarkCandidateOutput)
      → IsFine (compare_output 0 case output)
      → IsRight case output
  unfolding compare_output
  IsFine→IsRight output fine = comparison-IsRight output output.marks refl fine

  pub IsRight→IsFine :
      (output : BenchmarkCandidateOutput)
      → IsRight case output
      → IsFine (compare_output 0 case output) × (error_of (compare_output 0 case output) ≡ 0)
  IsRight→IsFine output right =
      rw (right_comparison output right) (own_marks-IsFine right.bounded, own_marks_error)
