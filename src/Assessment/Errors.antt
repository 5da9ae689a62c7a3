-- ===== src/Assessment/Errors.antt =====
-- `HTTPException` as the assessment code raises it: the status code and what the detail says.
use eduvijna_paper_evaluatio.Prelude.{ℕ, String}

pub data Detail : Type 0 where
  resource_not_found : Detail
  invalid_transition : Detail
  academic_config_frozen : Detail
  no_version : Detail
  no_scorable_questions : Detail
  marks_do_not_reconcile : (leaf_total max_marks : ℕ) → Detail
  lacks_answer_key : (label : String) → Detail
  lacks_rubric : (label : String) → Detail
  rubric_does_not_reconcile : (label : String) → Detail

pub record HttpError : Type 0 where
  pub status_code : ℕ
  pub detail : Detail

abbrev pub conflict : Detail → HttpError
conflict d = record { status_code = 409; detail = d }

abbrev pub not_found : HttpError
not_found = record { status_code = 404; detail = resource_not_found }
