-- ===== src/Publication/LifeCycle/Artifacts.antt =====
-- A run of the pipeline moves one row, or none.
use mathlib.Core.Path.{subst}
use eduvijna_paper_evaluatio.Prelude.{
  ℕ, ◌≡◌, refl, sym, ap, ◌∙◌, true, Bool, ◌&&◌, ◌==◌, ==_iff, ==_refl, Option, some, none, List, [],
  ◌∷◌, Result, ok, err, guard, >>=-eq-ok, ok-injective, guard-eq-ok, All-Any, All-select, Any, here,
  there, Any-update, select, select_members, inl, inr, arith, Bool-cases, Option-cases, ltb, str_eq,
  eq_iff, &&-eq-true,
}
use eduvijna_paper_evaluatio.Prelude.Int.{ℤ}
use eduvijna_paper_evaluatio.Grading.Ledger.{Submission}
use eduvijna_paper_evaluatio.Grading.Published.{PublishedStatus, PublishedResult}
use eduvijna_paper_evaluatio.Grading.Store.{Request}
use eduvijna_paper_evaluatio.Publication.Tables.{
  PublicationCode, code_text, PipelineJob, Canonical, Database, Rendering, Outside, StoredObject,
}
use eduvijna_paper_evaluatio.Publication.Snapshot.{
  Loaded, is_approved, load_approved_ledger_snapshot, reconcile_totals,
}
use eduvijna_paper_evaluatio.Publication.Snapshot.Totals.{reconcile_totals_sums}
use eduvijna_paper_evaluatio.Publication.Snapshot.Approved.{
  load_approved_ledger_snapshot-Snapshotted,
}
use eduvijna_paper_evaluatio.Publication.Results.{
  newer_result, newest_result, results_where, save_result, save_state, update_job,
}
use eduvijna_paper_evaluatio.Publication.Pipeline.{
  store_made, Stored, is_waiting, waiting_result, verify, make, put_all, artifacts, reread_all,
  store_artifacts, attempt, generated, generating, settle_attempt, start_job, run_waiting,
  run_loaded, run_publication_pipeline,
}
use eduvijna_paper_evaluatio.Publication.LifeCycle.{
  Move, begin, fail, generate, Change, move, Changes, nothing, then_change, final_total, max_total,
}
use eduvijna_paper_evaluatio.Publication.LifeCycle.Versions.{Rows, rows_of}

pub newest_result-Any :
    (rs : Rows) {r : PublishedResult} → newest_result rs ≡ some r → Any (λ x. x ≡ r) rs
unfolding newest_result newer_result
newest_result-Any [] h = cc
newest_result-Any (x ∷ xs) {r} h = elim (Option-cases (newest_result xs)) [
  | inl none' ↦ here (ground (arith, h, none'))
  | inr (s, found) ↦ elim (Bool-cases (ltb x.version_number s.version_number)) [
    | inl newer ↦ there (newest_result-Any xs {r = r} (found ∙ (rw newer at (rw found at h))))
    | inr older ↦ here (let e = rw older at (rw found at h) in cc)
  ]
]

-- The newest row that passes a test is in the table and passes it.
pub newest_of_results :
    (db : Database) (req : Request) (submission_id : ℕ) (test : PublishedResult → Bool)
    {r : PublishedResult}
    → newest_result (results_where db req submission_id test) ≡ some r
    → Any (λ x. x ≡ r) (rows_of db)
      × (r.tenant_id ≡ req.tenant_id)
      × (r.submission_id ≡ submission_id)
      × (test r ≡ true)
unfolding results_where
newest_of_results db req submission_id test {r} h =
    let passes = λ (x : PublishedResult).
      x.tenant_id == req.tenant_id && (x.submission_id == submission_id && test x) in
    let m = newest_result-Any (select passes (rows_of db)) {r = r} h in
    let hit =
      All-Any (λ x. passes x ≡ true) r (select passes (rows_of db)) (All-select passes (rows_of db))
        m in
    let (tenant, rest) = &&-eq-true (r.tenant_id == req.tenant_id) _ hit in
    let (script, tested) = &&-eq-true (r.submission_id == submission_id) _ rest in
    (
      All-Any (λ y. Any (λ x. x ≡ y) (rows_of db)) r (select passes (rows_of db))
          (select_members passes (rows_of db)) m,
      (==_iff _ _).0 tenant,
      (==_iff _ _).0 script,
      tested,
    )

module _ (o : Outside) (db : Database) (req : Request) (submission : Submission) where
  -- A row that passed the checks carries the totals of a snapshot with its hash.
  verify-Snapshot :
      (r : PublishedResult) (checked : PublishedResult × Loaded)
      → verify o db req submission r ≡ ok checked
      → (c : Canonical) × (o.snapshot_digest c ≡ r.ledger_snapshot_hash)
        × (checked.0 ≡ record r { total_score = final_total c; max_total_score = max_total c })
  unfolding verify
  verify-Snapshot r checked h =
      let (u, approved, h₁) = >>=-eq-ok (guard (is_approved submission.workflow_state) _) _ h in
      let (loaded, taken, h₂) =
        >>=-eq-ok (load_approved_ledger_snapshot db.store req submission) _ h₁ in
      let (v, hashed, h₃) =
        >>=-eq-ok
          (guard (str_eq (o.snapshot_digest loaded.canonical) r.ledger_snapshot_hash)
            PublicationCode.snapshot_mismatch)
          _ h₂ in
      let (totals, summed, h₄) = >>=-eq-ok (reconcile_totals loaded.qes) _ h₃ in
      let snap = load_approved_ledger_snapshot-Snapshotted db.store req submission loaded taken in
      let sums : totals ≡ (final_total loaded.canonical, max_total loaded.canonical) =
        reconcile_totals_sums loaded.qes summed ∙ (λ i. (sym snap.total i, sym snap.max i)) in
      (
        loaded.canonical,
        (eq_iff _ _).0 (guard-eq-ok _ _ hashed),
        ap (λ (p : PublishedResult × Loaded). p.0) (sym (ok-injective h₄))
            ∙ ap (λ (p : ℤ × ℤ). record r { total_score = p.0; max_total_score = p.1 }) sums,
      )

  -- What a stored attempt returns is the row with its artifacts.
  store_artifacts-generated :
      (objects after : List StoredObject) (r s : PublishedResult) (made : Rendering)
      → store_artifacts o objects r made ≡ (after, ok s)
      → s ≡ generated o r made
  unfolding store_artifacts
  store_artifacts-generated objects after r s made h =
      let (u, put, h₁) =
        >>=-eq-ok (put_all objects (artifacts r made)).1 _
          (ap (λ (p : Stored PublishedResult). p.1) h) in
      let (v, reread, h₂) =
        >>=-eq-ok (reread_all o (put_all objects (artifacts r made)).0 (artifacts r made)) _ h₁ in
      sym (ok-injective h₂)

  store_made-Move :
      (r s : PublishedResult) (objects after : List StoredObject)
      (made : Result PublicationCode (PublishedResult × Rendering))
      → r.status ≡ PublishedStatus.generating
      → make o db req submission r ≡ made
      → store_made o objects made ≡ (after, ok s)
      → Move o r s
  unfolding store_made make
  store_made-Move r s objects after (err raised) g e h =
      cc (ap (λ (p : Stored PublishedResult). p.1) h)
  store_made-Move r s objects after (ok (t, made)) g e h =
      let (checked, verified, h₁) = >>=-eq-ok (verify o db req submission r) _ e in
      let (drawn, rendered, h₂) = >>=-eq-ok (o.render checked.0 checked.1.qes) _ h₁ in
      let (c, hashed, row) = verify-Snapshot r checked verified in
      let stored = store_artifacts-generated objects after t s made h in
      let same : t ≡ record r { total_score = final_total c; max_total_score = max_total c } =
        ap (λ (p : PublishedResult × Rendering). p.0) (sym (ok-injective h₂)) ∙ row in
      subst (Move o r) (sym (stored ∙ ap (λ x. generated o x made) same))
        (generate r c made g hashed)

module _ (o : Outside) (db : Database) (req : Request) (submission : Submission) (job_id : ℕ) where
  settle_attempt-Change :
      (r : PublishedResult) (outcome : Stored PublishedResult)
      → r.status ≡ PublishedStatus.generating
      → Any (λ x. x ≡ r) (rows_of db)
      → attempt o db req submission r ≡ outcome
      → Change o (rows_of db) (rows_of (settle_attempt db req submission r job_id outcome))
  unfolding attempt settle_attempt save_result save_state update_job
  settle_attempt-Change r (objects, ok s) g m e =
      move r s m (store_made-Move o db req submission r s db.objects objects _ g refl e)
  settle_attempt-Change r (objects, err raised) g m e =
      move r (record r { status = PublishedStatus.failed; failure_code = some (code_text raised) })
        m (fail r (code_text raised) g)

-- A run leaves the table as it was, or one waiting row begins and then fails or is generated.
module _ (o : Outside) (db : Database) (req : Request) where
  run_waiting-Changes :
      (submission : Submission) (job_id : ℕ) (found : Option PublishedResult)
      → waiting_result db req submission.id ≡ found
      → Changes o (rows_of db) (rows_of (run_waiting o db req submission job_id found))
  unfolding run_waiting update_job waiting_result start_job save_result generating
  run_waiting-Changes submission job_id none e = nothing
  run_waiting-Changes submission job_id (some r) e =
      let (m, tenant, script, waits) =
        newest_of_results db req submission.id (λ x. is_waiting x.status) e in
      let started = start_job req job_id (generating r) db in
      let began = Any-update (λ x. x.id == r.id) (generating r) (rows_of db) (==_refl r.id) m in
      then_change (then_change nothing (move r (generating r) m (begin r waits))) (
        settle_attempt-Change o started req submission job_id (generating r)
          (attempt o started req submission (generating r)) refl began refl)

  run_loaded-Changes :
      (job_id : ℕ) (job : Option PipelineJob) (submission : Option Submission)
      → Changes o (rows_of db) (rows_of (run_loaded o db req job_id job submission))
  unfolding run_loaded
  run_loaded-Changes job_id none submission = nothing
  run_loaded-Changes job_id (some job) none = nothing
  run_loaded-Changes job_id (some job) (some submission) =
      run_waiting-Changes submission job_id _ refl

  pub run_publication_pipeline-Changes :
      (submission_id job_id : ℕ)
      → Changes o (rows_of db) (rows_of (run_publication_pipeline o db req submission_id job_id))
  unfolding run_publication_pipeline
  run_publication_pipeline-Changes submission_id job_id = run_loaded-Changes job_id _ _
