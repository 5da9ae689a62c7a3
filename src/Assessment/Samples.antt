-- ===== src/Assessment/Samples.antt =====
-- A small assessment, and the theorems about assessments at it.
use eduvijna_paper_evaluatio.Prelude.{
  ◌+◌, ℕ, ◌≡◌, ◌<◌, ◌⊎◌, ◌↔◌, refl, true, false, Option, none, some, [], ◌∷◌, ok, err,
}
use eduvijna_paper_evaluatio.Assessment.Errors.{
  conflict, academic_config_frozen, invalid_transition, rubric_does_not_reconcile,
}
use eduvijna_paper_evaluatio.Assessment.Status.{
  draft, rubric_review, ready, active, closed, archived, status, unknown, validate_transition,
  ensure_academic_config_mutable,
}
use eduvijna_paper_evaluatio.Assessment.Status.Lifecycle.{
  step, Steps, done, next, released_stays_frozen, transition_directions, reaches_archived, rank,
}
use eduvijna_paper_evaluatio.Assessment.Marks.{
  QuestionVersion, leaf_scorable, container_derived, parent_ids, is_leaf,
}
use eduvijna_paper_evaluatio.Assessment.Rubric.{
  RubricCriterion, additive, deductive, reconcile_rubric,
}
use eduvijna_paper_evaluatio.Assessment.Rubric.Envelope.{Reconciles, reconcile_rubric-Reconciles}
use eduvijna_paper_evaluatio.Assessment.Readiness.{
  AnswerKeyVersion, AssessmentVersion, Tables, VersionStatus, ensure_assessment_ready,
  transition_assessment, set_status,
}
use eduvijna_paper_evaluatio.Assessment.Readiness.Gate.{IsReady, ensure_assessment_ready-IsReady}
use eduvijna_paper_evaluatio.Assessment.Readiness.Transition.{
  Entered, transition_assessment-Entered,
}

abbrev question : ℕ → Option ℕ → ℕ → QuestionVersion
question id parent marks = record {
  id = id;
  tenant_id = 1;
  assessment_version_id = 10;
  parent_question_version_id = parent;
  display_label = "Q";
  max_marks = marks;
  scoring_mode = leaf_scorable;
}

abbrev section_a : QuestionVersion
section_a = record (question 20 none 999) { scoring_mode = container_derived }

abbrev criterion : ℕ → ℕ → RubricCriterion
criterion rubric marks = record {
  id = 0;
  tenant_id = 1;
  rubric_version_id = rubric;
  criterion_code = "C";
  max_marks = marks;
  scoring_mode = additive;
}

abbrev key : ℕ → AnswerKeyVersion
key q = record {
  id = 30 + q;
  tenant_id = 1;
  question_version_id = q;
  status = VersionStatus.approved;
}

abbrev version : AssessmentVersion
version = record { id = 10; tenant_id = 1; assessment_id = 5; version_number = 2; max_marks = 500 }

abbrev paper : Tables
paper = record {
  assessments =
      record { id = 5; tenant_id = 1; status = draft }
      ∷ record { id = 6; tenant_id = 2; status = draft }
      ∷ [];
  assessment_versions = record version { id = 9; version_number = 1 } ∷ version ∷ [];
  questions = section_a ∷ question 21 (some 20) 300 ∷ question 22 (some 20) 200 ∷ [];
  answer_keys = key 21 ∷ key 22 ∷ [];
  rubrics =
      record { id = 41; tenant_id = 1; question_version_id = 21; status = VersionStatus.approved }
      ∷ record { id = 42; tenant_id = 1; question_version_id = 22; status = VersionStatus.approved }
      ∷ [];
  criteria = criterion 41 100 ∷ criterion 41 200 ∷ criterion 42 200 ∷ [];
}

paper_is_ready : ensure_assessment_ready paper 1 version ≡ ok tt
unfolding ensure_assessment_ready
paper_is_ready = refl

-- A criterion short of the question's marks is reported for its question.
short_rubric :
    ensure_assessment_ready
      (record paper { criteria = criterion 41 300 ∷ criterion 42 100 ∷ [] })
      1
      version
    ≡ err (conflict (rubric_does_not_reconcile "Q"))
unfolding ensure_assessment_ready
short_rubric = refl

unknown_target : validate_transition draft unknown ≡ err (conflict invalid_transition)
unfolding validate_transition
unknown_target = refl

reopening_is_refused : validate_transition active (status draft) ≡ err (conflict invalid_transition)
unfolding validate_transition
reopening_is_refused = refl

ensure_assessment_ready-IsReady_example :
    (ensure_assessment_ready paper 1 version ≡ ok tt) ↔ IsReady paper 1 version
ensure_assessment_ready-IsReady_example = ensure_assessment_ready-IsReady paper 1 version

paper_enters : transition_assessment paper 1 5 (status ready) ≡ ok (set_status paper 1 5 ready)
unfolding transition_assessment
paper_enters = refl

transition_assessment-Entered_example : Entered paper 1 5 ready (set_status paper 1 5 ready)
transition_assessment-Entered_example =
    transition_assessment-Entered paper 1 5 ready (set_status paper 1 5 ready) paper_enters

reconcile_rubric-Reconciles_example :
    ((reconcile_rubric
        (criterion 1 100 ∷ record (criterion 1 50) { scoring_mode = deductive } ∷ [])
        100).0
      ≡ true)
    ↔ Reconciles (criterion 1 100 ∷ record (criterion 1 50) { scoring_mode = deductive } ∷ []) 100
reconcile_rubric-Reconciles_example =
    reconcile_rubric-Reconciles
      (criterion 1 100 ∷ record (criterion 1 50) { scoring_mode = deductive } ∷ []) 100

closing : Steps active closed
unfolding validate_transition
closing = next done (step refl)

released_stays_frozen_example :
    ensure_academic_config_mutable closed ≡ err (conflict academic_config_frozen)
released_stays_frozen_example = released_stays_frozen refl closing

back_to_draft : validate_transition ready (status draft) ≡ ok tt
unfolding validate_transition
back_to_draft = refl

transition_directions_example :
    (rank ready < rank draft) ⊎ ((draft ≡ draft) × (rank ready < rank active))
transition_directions_example = transition_directions ready draft back_to_draft

reaches_archived_example : Steps rubric_review archived
reaches_archived_example = reaches_archived rubric_review

section_is_no_leaf :
    is_leaf (parent_ids (section_a ∷ question 21 (some 20) 300 ∷ [])) section_a ≡ false
unfolding is_leaf parent_ids
section_is_no_leaf = refl
