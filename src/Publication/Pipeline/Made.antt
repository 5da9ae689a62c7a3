-- ===== src/Publication/Pipeline/Made.antt =====
-- What a run that makes a version has checked.
use eduvijna_paper_evaluatio.Prelude.{
  str_eq, ◌≡◌, refl, ap, sym, ◌∙◌, Result, ok, err, guard, >>=-eq-ok, guard-eq-ok, ok-injective,
}
use eduvijna_paper_evaluatio.Grading.Ledger.{SubmissionState, Submission}
use eduvijna_paper_evaluatio.Grading.Published.{PublishedStatus, PublishedResult}
use eduvijna_paper_evaluatio.Grading.Store.{Request}
use eduvijna_paper_evaluatio.Publication.Tables.{PublicationCode, Rendering, Database, Outside}
use eduvijna_paper_evaluatio.Publication.Snapshot.{is_approved}
use eduvijna_paper_evaluatio.Publication.Release.{approved_state}
use eduvijna_paper_evaluatio.Publication.Pipeline.{
  reconcile_totals, load_approved_ledger_snapshot, Loaded, verify, make, put_all, artifacts,
  reread_all, generated, store_artifacts, store_made, attempt,
}

-- What the attempt has to say of a version that it made.
pub record Made (s : Submission) (r made : PublishedResult) : Type 0 where
  pub approved : s.workflow_state ≡ SubmissionState.approved
  pub same_row : made.id ≡ r.id
  pub status : made.status ≡ PublishedStatus.generated

module _ (o : Outside) (db : Database) (req : Request) (s : Submission) (r : PublishedResult) where
  verify_approved :
      {x : PublishedResult × Loaded}
      → verify o db req s r ≡ ok x
      → (s.workflow_state ≡ SubmissionState.approved) × (x.0.id ≡ r.id)
  unfolding verify
  verify_approved {x} h =
      let (u, approved, h₁) =
        >>=-eq-ok (guard (is_approved s.workflow_state) PublicationCode.invalid_workflow_state) _
          h in
      let (loaded, l, h₂) = >>=-eq-ok (load_approved_ledger_snapshot db.store req s) _ h₁ in
      let (v, hashed, h₃) =
        >>=-eq-ok
          (guard (str_eq (o.snapshot_digest loaded.canonical) r.ledger_snapshot_hash)
            PublicationCode.snapshot_mismatch)
          _ h₂ in
      let (totals, t, h₄) = >>=-eq-ok (reconcile_totals loaded.qes) _ h₃ in
      (
        approved_state s.workflow_state (guard-eq-ok _ _ approved),
        ap (λ (p : PublishedResult × Loaded). p.0.id) (sym (ok-injective h₄)),
      )

  make_approved :
      {x : PublishedResult × Rendering}
      → make o db req s r ≡ ok x
      → (s.workflow_state ≡ SubmissionState.approved) × (x.0.id ≡ r.id)
  unfolding make
  make_approved h =
      let (checked, v, h₁) = >>=-eq-ok (verify o db req s r) _ h in
      let (made, m, h₂) = >>=-eq-ok (o.render checked.0 checked.1.qes) _ h₁ in
      let (approved, same) = verify_approved v in
      (approved, ap (λ (p : PublishedResult × Rendering). p.0.id) (sym (ok-injective h₂)) ∙ same)

  store_made-Made :
      (m : Result PublicationCode (PublishedResult × Rendering)) {made : PublishedResult}
      → make o db req s r ≡ m
      → (store_made o db.objects m).1 ≡ ok made
      → Made s r made
  unfolding store_made store_artifacts generated
  store_made-Made (err raised) e h = cc
  store_made-Made (ok (row, drawn)) e h =
      let (approved, same) = make_approved e in
      let (u, put, h₁) = >>=-eq-ok (put_all db.objects (artifacts row drawn)).1 _ h in
      let (w, reread, h₂) =
        >>=-eq-ok (reread_all o (put_all db.objects (artifacts row drawn)).0 (artifacts row drawn))
          _ h₁ in
      record {
        approved = approved;
        same_row = ap (λ (p : PublishedResult). p.id) (sym (ok-injective h₂)) ∙ same;
        status = ap (λ (p : PublishedResult). p.status) (sym (ok-injective h₂));
      }

  pub attempt-Made : {made : PublishedResult} → (attempt o db req s r).1 ≡ ok made → Made s r made
  unfolding attempt
  attempt-Made h = store_made-Made (make o db req s r) refl h
