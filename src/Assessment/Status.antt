-- ===== src/Assessment/Status.antt =====
-- assessment_transitions.py and academic_freeze.py. The status column's CHECK constraint admits
-- the six constructors; the route passes the requested status on as it is, so a request for any
-- other text is `unknown`.
pub mod Lifecycle
use eduvijna_paper_evaluatio.Prelude.{Bool, true, false, Result, guard}
use eduvijna_paper_evaluatio.Assessment.Errors.{
  HttpError, conflict, invalid_transition, academic_config_frozen,
}

pub data Status : Type 0 where
  draft rubric_review ready active closed archived : Status

-- `payload.to_status.upper()`
pub data Target : Type 0 where
  status : Status → Target
  unknown : Target

-- `ALLOWED_TRANSITIONS`
unfoldable pub allowed : Status → Status → Bool
allowed draft rubric_review = true
allowed draft ready = true
allowed draft _ = false
allowed rubric_review draft = true
allowed rubric_review ready = true
allowed rubric_review _ = false
allowed ready active = true
allowed ready draft = true
allowed ready _ = false
allowed active closed = true
allowed active _ = false
allowed closed archived = true
allowed closed _ = false
allowed archived _ = false

unfoldable pub in_allowed : Status → Target → Bool
unfolding allowed
in_allowed current (status target) = allowed current target
in_allowed current unknown = false

unfoldable pub validate_transition : Status → Target → Result HttpError Unit
unfolding in_allowed
validate_transition current target = guard (in_allowed current target) (conflict invalid_transition)

-- `EDITABLE_ACADEMIC_STATUSES`
unfoldable pub is_editable : Status → Bool
is_editable draft = true
is_editable rubric_review = true
is_editable _ = false

unfoldable pub ensure_academic_config_mutable : Status → Result HttpError Unit
unfolding is_editable
ensure_academic_config_mutable s = guard (is_editable s) (conflict academic_config_frozen)
