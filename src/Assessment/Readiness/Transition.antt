-- ===== src/Assessment/Readiness/Transition.antt =====
-- What a successful request for a transition has checked and written.
use eduvijna_paper_evaluatio.Prelude.{
  ap, sym, ◌∙◌, ok-injective, ℕ, ◌≡◌, refl, some, List, [], ◌∷◌, ok, ◌==◌, ◌&&◌, require, >>=-eq-ok,
  require-eq-ok, first, update, map, if◌then◌else◌,
}
use eduvijna_paper_evaluatio.Assessment.Status.{Status, ready, status, validate_transition}
use eduvijna_paper_evaluatio.Assessment.Status.Lifecycle.{Step, step}
use eduvijna_paper_evaluatio.Assessment.Readiness.{
  AssessmentVersion, Assessment, Tables, latest, is_scoped, versions_of, gate, set_status,
  transition_assessment,
}
use eduvijna_paper_evaluatio.Assessment.Readiness.Gate.{IsReady, ensure_assessment_ready-IsReady}

module _ (db : Tables) (tenant_id assessment_id : ℕ) where
  -- The latest version of the assessment passes the readiness gate.
  pub record LatestReady : Type 0 where
    pub version : AssessmentVersion
    pub is_latest : latest (versions_of db tenant_id assessment_id) ≡ some version
    pub is_ready : IsReady db tenant_id version

  pub record Entered (t : Status) (after : Tables) : Type 0 where
    pub assessment : Assessment
    pub found : first (is_scoped db tenant_id assessment_id) db.assessments ≡ some assessment
    pub allowed : Step assessment.status t
    pub gated : t ≡ ready → LatestReady
    pub written : after ≡ record db {
      assessments =
          map
            (λ a.
              if a.id == assessment_id && a.tenant_id == tenant_id
              then record a { status = t }
              else a)
            db.assessments;
    }

  gate-LatestReady :
      (t : Status) → gate db tenant_id assessment_id t ≡ ok tt → t ≡ ready → LatestReady
  unfolding gate
  gate-LatestReady ready h e =
      let (v, found, h₁) =
        >>=-eq-ok (require (latest (versions_of db tenant_id assessment_id)) _) _ h in
      record {
        version = v;
        is_latest = require-eq-ok _ _ found;
        is_ready = (ensure_assessment_ready-IsReady db tenant_id v).0 h₁;
      }
  gate-LatestReady _ h e = cc

  update-map :
      (t : Status) (rows : List Assessment)
      → update (is_scoped db tenant_id assessment_id) (λ a. record a { status = t }) rows
        ≡ map
            (λ a.
              if a.id == assessment_id && a.tenant_id == tenant_id
              then record a { status = t }
              else a)
            rows
  unfolding update is_scoped
  update-map t [] = refl
  update-map t (a ∷ rows) = rw (update-map t rows)

  set_status-map :
      (t : Status)
      → set_status db tenant_id assessment_id t ≡ record db {
        assessments =
            map
              (λ a.
                if a.id == assessment_id && a.tenant_id == tenant_id
                then record a { status = t }
                else a)
              db.assessments;
      }
  unfolding set_status
  set_status-map t =
      ap (λ (l : List Assessment). record db { assessments = l }) (update-map t db.assessments)

  -- A request that succeeds found the assessment in the caller's tenant, made an allowed step,
  -- has, if it asks for READY, a latest version that is ready, and wrote the new status to that
  -- assessment and nothing else.
  pub transition_assessment-Entered :
      (t : Status) (after : Tables)
      → transition_assessment db tenant_id assessment_id (status t) ≡ ok after
      → Entered t after
  unfolding transition_assessment set_status
  transition_assessment-Entered t after h =
      let (a, found, h₁) =
        >>=-eq-ok (require (first (is_scoped db tenant_id assessment_id) db.assessments) _) _ h in
      let (u, valid, h₂) = >>=-eq-ok (validate_transition a.status (status t)) _ h₁ in
      let (w, passed, h₃) = >>=-eq-ok (gate db tenant_id assessment_id t) _ h₂ in
      record {
        assessment = a;
        found = require-eq-ok _ _ found;
        allowed = step valid;
        gated = gate-LatestReady t passed;
        written = sym (ok-injective h₃) ∙ set_status-map t;
      }
