-- ===== src/Assessment/Status/Lifecycle.antt =====
-- What the table of transitions makes of an assessment's life.
use eduvijna_paper_evaluatio.Prelude.{ℕ, ◌≡◌, ◌<◌, refl, Bool, true, false, ok, err, arith, ◌⊎◌}
use eduvijna_paper_evaluatio.Assessment.Errors.{conflict, academic_config_frozen}
use eduvijna_paper_evaluatio.Assessment.Status.{
  Status, draft, rubric_review, ready, active, closed, archived, status, validate_transition,
  ensure_academic_config_mutable,
}

-- One accepted request.
pub data Step (s t : Status) : Type 0 where
  step : validate_transition s (status t) ≡ ok tt → Step s t

pub data Steps (s : Status) : Status → Type 0 where
  done : Steps s s
  next : {t u : Status} → Steps s t → Step t u → Steps s u

-- ACTIVE and what comes after it.
abbrev pub is_released : Status → Bool
is_released active = true
is_released closed = true
is_released archived = true
is_released _ = false

is_released-Step : (s t : Status) → Step s t → is_released s ≡ true → is_released t ≡ true
unfolding validate_transition
is_released-Step s t (step e) h = ground arith

is_released-Steps : {s t : Status} → is_released s ≡ true → Steps s t → is_released t ≡ true
is_released-Steps h done = h
is_released-Steps {s} h (next {t} {u} r st) = is_released-Step t u st (is_released-Steps h r)

-- From an ACTIVE, CLOSED or ARCHIVED status, whatever requests are accepted afterwards, every
-- attempt to change answer keys, rubrics or mappings is refused with the freeze error.
pub released_stays_frozen :
    {s t : Status}
    → is_released s ≡ true
    → Steps s t
    → ensure_academic_config_mutable t ≡ err (conflict academic_config_frozen)
unfolding ensure_academic_config_mutable
released_stays_frozen {s} {t} h r = ground (arith, is_released-Steps h r)

-- The status can be read off a position that only the way back to DRAFT lowers.
abbrev pub rank : Status → ℕ
rank draft = 0
rank rubric_review = 1
rank ready = 2
rank active = 3
rank closed = 4
rank archived = 5

-- Every accepted transition moves forward along DRAFT, RUBRIC_REVIEW, READY, ACTIVE, CLOSED,
-- ARCHIVED, or goes back to DRAFT from a status before ACTIVE.
pub transition_directions :
    (s t : Status)
    → validate_transition s (status t) ≡ ok tt
    → (rank s < rank t) ⊎ ((t ≡ draft) × (rank s < rank active))
unfolding validate_transition
transition_directions s t h = ground arith

-- The requests that take an assessment to ARCHIVED from where it is.
module _ {s : Status} where
  from_closed : Steps s closed → Steps s archived
  unfolding validate_transition
  from_closed r = next r (step refl)

  from_active : Steps s active → Steps s archived
  unfolding validate_transition
  from_active r = from_closed (next r (step refl))

  from_ready : Steps s ready → Steps s archived
  unfolding validate_transition
  from_ready r = from_active (next r (step refl))

-- From every status some requests, each accepted, lead to ARCHIVED: no status is a dead end.
pub reaches_archived : (s : Status) → Steps s archived
unfolding validate_transition
reaches_archived draft = from_ready (next done (step refl))
reaches_archived rubric_review = from_ready (next done (step refl))
reaches_archived ready = from_ready done
reaches_archived active = from_active done
reaches_archived closed = from_closed done
reaches_archived archived = done
