-- ===== src/Publication/Checks.antt =====
-- What a publication has checked before its first write.
use mathlib.Core.Path.{subst}
use eduvijna_paper_evaluatio.Prelude.{
  is_empty, ◌≡◌, ap, true, not, Option, some, none, List, [], ◌∷◌, ok, guard, require, >>=-eq-ok,
  ok-injective, guard-eq-ok, require-eq-ok, All, str_eq, eq_iff, String,
}
use eduvijna_paper_evaluatio.Grading.Ledger.{Submission}
use eduvijna_paper_evaluatio.Grading.Moderation.Decide.{load_submission}
use eduvijna_paper_evaluatio.Grading.Published.{
  PublishedStatus, PublishedResult, Artifact, ExportKey,
}
use eduvijna_paper_evaluatio.Grading.Store.{Request}
use eduvijna_paper_evaluatio.Grading.Grievance.{is_published}
use eduvijna_paper_evaluatio.Publication.Tables.{PublicationCode, StoredObject, Database, Outside}
use eduvijna_paper_evaluatio.Publication.Snapshot.{
  Loaded, is_approved, load_approved_ledger_snapshot,
}
use eduvijna_paper_evaluatio.Publication.Results.{get_bytes}
use eduvijna_paper_evaluatio.Publication.Publish.{
  is_generated, expected_digest, verify_artifact, verify_artifacts, check_publishable,
}
use eduvijna_paper_evaluatio.Publication.LifeCycle.Refines.{check_publishable-generated}

-- The file is in the storage, and its digest is that of the row.
pub record IsStored (o : Outside) (objects : List StoredObject) (a : Artifact) : Type 0 where
  pub key : ExportKey
  pub keyed : a.s3_key ≡ some key
  pub digest : String
  pub expected : a.sha256 ≡ some digest
  pub body : String
  pub held : get_bytes objects key ≡ ok body
  pub same : o.sha256 body ≡ digest

module _ (o : Outside) (objects : List StoredObject) where
  expected_digest-eq-ok :
      (sha256 : Option String) {digest : String}
      → expected_digest sha256 ≡ ok digest
      → sha256 ≡ some digest
  unfolding expected_digest
  expected_digest-eq-ok none h = cc
  expected_digest-eq-ok (some d) h =
      let (u, full, h₁) =
        >>=-eq-ok (guard (not (is_empty d)) PublicationCode.artifact_missing) _ h in
      ap some (ok-injective h₁)

  verify_artifact-IsStored :
      (a : Artifact) → verify_artifact o objects a ≡ ok tt → IsStored o objects a
  unfolding verify_artifact
  verify_artifact-IsStored a h =
      let (key, keyed, h₁) = >>=-eq-ok (require a.s3_key _) _ h in
      let (digest, expected, h₂) = >>=-eq-ok (expected_digest a.sha256) _ h₁ in
      let (body, held, h₃) = >>=-eq-ok (get_bytes objects key) _ h₂ in
      record {
        key = key;
        keyed = require-eq-ok _ _ keyed;
        digest = digest;
        expected = expected_digest-eq-ok a.sha256 expected;
        body = body;
        held = held;
        same = (eq_iff _ _).0 (guard-eq-ok _ _ h₃);
      }

  verify_artifacts-All :
      (as' : List Artifact) → verify_artifacts o objects as' ≡ ok tt → All (IsStored o objects) as'
  unfolding verify_artifacts
  verify_artifacts-All [] h = tt
  verify_artifacts-All (a ∷ rest) h =
      let (u, one, h₁) = >>=-eq-ok (verify_artifact o objects a) _ h in
      (verify_artifact-IsStored a one, verify_artifacts-All rest h₁)

abbrev pub artifacts_of : PublishedResult → List Artifact
artifacts_of r = r.annotated_pdf ∷ r.student_report ∷ r.parent_report ∷ r.teacher_report ∷ []

module _ (o : Outside) (db : Database) (req : Request) where
  -- The row may be published.
  pub record Publishable (r : PublishedResult) (submission : Submission) : Type 0 where
    pub generated : r.status ≡ PublishedStatus.generated
    pub script : load_submission db.store req r.submission_id ≡ some submission
    pub approved : is_approved submission.workflow_state ≡ true
    pub loaded : Loaded
    pub taken : load_approved_ledger_snapshot db.store req submission ≡ ok loaded
    pub hashed : o.snapshot_digest loaded.canonical ≡ r.ledger_snapshot_hash
    pub stored : All (IsStored o db.objects) (artifacts_of r)

  pub check_publishable-Publishable :
      (r : PublishedResult) (submission : Submission)
      → check_publishable o db req r ≡ ok submission
      → Publishable r submission
  unfolding check_publishable
  check_publishable-Publishable r submission h =
      let (u, unpublished, h₁) = >>=-eq-ok (guard (not (is_published r.status)) _) _ h in
      let (v, made, h₂) = >>=-eq-ok (guard (is_generated r.status) _) _ h₁ in
      let (script, found, h₃) =
        >>=-eq-ok (require (load_submission db.store req r.submission_id) _) _ h₂ in
      let (w, approved, h₄) = >>=-eq-ok (guard (is_approved script.workflow_state) _) _ h₃ in
      let (loaded, taken, h₅) =
        >>=-eq-ok (load_approved_ledger_snapshot db.store req script) _ h₄ in
      let (x, hashed, h₆) =
        >>=-eq-ok
          (guard (str_eq (o.snapshot_digest loaded.canonical) r.ledger_snapshot_hash)
            PublicationCode.stale_snapshot)
          _ h₅ in
      let (y, verified, h₇) = >>=-eq-ok (verify_artifacts o db.objects (artifacts_of r)) _ h₆ in
      subst (Publishable r) (ok-injective h₇) (record {
        generated = check_publishable-generated o db req r submission h;
        script = require-eq-ok _ _ found;
        approved = guard-eq-ok _ _ approved;
        loaded = loaded;
        taken = taken;
        hashed = (eq_iff _ _).0 (guard-eq-ok _ _ hashed);
        stored = verify_artifacts-All o db.objects (artifacts_of r) verified;
      })
