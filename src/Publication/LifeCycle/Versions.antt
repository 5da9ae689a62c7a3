-- ===== src/Publication/LifeCycle/Versions.antt =====
-- A new version enters the table of results READY, with the totals of the snapshot that it hashes.
use eduvijna_paper_evaluatio.Prelude.{
  ℕ, String, ◌≡◌, ◌≢◌, refl, sym, ap, ◌∙◌, true, not, Option, some, none, List, ok, guard, require,
  >>=-eq-ok, ok-injective, All, suc,
}
use eduvijna_paper_evaluatio.Prelude.Int.{ℤ}
use eduvijna_paper_evaluatio.Grading.Ledger.{Submission}
use eduvijna_paper_evaluatio.Grading.Moderation.Decide.{load_submission}
use eduvijna_paper_evaluatio.Grading.Published.{PublishedResult}
use eduvijna_paper_evaluatio.Grading.Store.{Request, Payload}
use eduvijna_paper_evaluatio.Grading.Grievance.{is_published}
use eduvijna_paper_evaluatio.Publication.Tables.{Database, Outside}
use eduvijna_paper_evaluatio.Publication.Snapshot.{
  Loaded, is_approved, load_approved_ledger_snapshot, reconcile_totals,
}
use eduvijna_paper_evaluatio.Publication.Snapshot.Totals.{reconcile_totals_sums}
use eduvijna_paper_evaluatio.Publication.Snapshot.Approved.{
  load_approved_ledger_snapshot-Snapshotted,
}
use eduvijna_paper_evaluatio.Publication.Results.{results_where, load_result, max_version}
use eduvijna_paper_evaluatio.Publication.Prepare.{
  Prepared, new_result, enqueue, prepare_version, prepare_publication, regenerate_publication,
  result_id, current_published,
}
use eduvijna_paper_evaluatio.Publication.LifeCycle.{IsHashed, add, Changes, nothing, then_change}

abbrev pub Rows : Type 0
Rows = List PublishedResult

abbrev pub rows_of : Database → Rows
rows_of db = db.store.published_results

-- No row has the identifier.
abbrev pub Fresh : ℕ → Rows → Type 0
Fresh id rows = All (λ (x : PublishedResult). x.id ≢ id) rows

module _ (o : Outside) (db : Database) (req : Request) (submission : Submission) (loaded : Loaded)
    (taken : load_approved_ledger_snapshot db.store req submission ≡ ok loaded) (totals : ℤ × ℤ)
    (summed : reconcile_totals loaded.qes ≡ ok totals) where
  -- A new row is READY and carries the totals of the snapshot that it hashes.
  new_result-IsHashed :
      (version_number : ℕ) (supersedes : Option ℕ)
      → IsHashed o (
          new_result req submission loaded totals
            (o.snapshot_digest loaded.canonical)
            version_number
            supersedes)
  unfolding new_result
  new_result-IsHashed version_number supersedes =
      let s = load_approved_ledger_snapshot-Snapshotted db.store req submission loaded taken in
      let e = reconcile_totals_sums loaded.qes summed in
      record {
        canonical = loaded.canonical;
        hashed = refl;
        total = ap (λ (p : ℤ × ℤ). p.0) e ∙ sym s.total;
        max = ap (λ (p : ℤ × ℤ). p.1) e ∙ sym s.max;
      }

  enqueue-Changes :
      (version_number : ℕ) (supersedes : Option ℕ) (action : String) (after : Payload)
      → Fresh (req.uuid4 0) (rows_of db)
      → Changes o (rows_of db) (
          rows_of
            (enqueue db req
              (new_result req submission loaded totals
                (o.snapshot_digest loaded.canonical)
                version_number
                supersedes)
              action
              after).db)
  unfolding enqueue new_result
  enqueue-Changes version_number supersedes action after fresh =
      then_change nothing (add _ refl fresh (new_result-IsHashed version_number supersedes))

  prepare_version-Changes :
      (existing : Option PublishedResult)
      → Fresh (req.uuid4 0) (rows_of db)
      → Changes o (rows_of db) (
          rows_of
            (prepare_version db req submission loaded totals
              (o.snapshot_digest loaded.canonical)
              existing).db)
  unfolding prepare_version
  prepare_version-Changes (some existing) fresh = nothing
  prepare_version-Changes none fresh =
      let version_number = suc (max_version (results_where db req submission.id (λ r. true))) in
      enqueue-Changes version_number (result_id (current_published db req submission.id))
        "publication_prepared"
        (Payload.publication submission.id version_number (o.snapshot_digest loaded.canonical))
        fresh

module _ (o : Outside) (db : Database) (req : Request) where
  pub prepare_publication-Changes :
      (submission : Submission) (p : Prepared)
      → prepare_publication o db req submission ≡ ok p
      → Fresh (req.uuid4 0) (rows_of db)
      → Changes o (rows_of db) (rows_of p.db)
  unfolding prepare_publication
  prepare_publication-Changes submission p h fresh =
      let (u, approved, h₁) = >>=-eq-ok (guard (is_approved submission.workflow_state) _) _ h in
      let (loaded, taken, h₂) =
        >>=-eq-ok (load_approved_ledger_snapshot db.store req submission) _ h₁ in
      let (totals, summed, h₃) = >>=-eq-ok (reconcile_totals loaded.qes) _ h₂ in
      mathlib.Core.Path.subst (λ (q : Prepared). Changes o (rows_of db) (rows_of q.db))
        (ok-injective h₃)
        (prepare_version-Changes o db req submission loaded taken totals summed _ fresh)

  pub regenerate_publication-Changes :
      (id : ℕ) (p : Prepared)
      → regenerate_publication o db req id ≡ ok p
      → Fresh (req.uuid4 0) (rows_of db)
      → Changes o (rows_of db) (rows_of p.db)
  unfolding regenerate_publication
  regenerate_publication-Changes id p h fresh =
      let (current, found, h₁) = >>=-eq-ok (require (load_result db req id) _) _ h in
      let (u, unpublished, h₂) = >>=-eq-ok (guard (not (is_published current.status)) _) _ h₁ in
      let (submission, script, h₃) =
        >>=-eq-ok (require (load_submission db.store req current.submission_id) _) _ h₂ in
      let (v, approved, h₄) = >>=-eq-ok (guard (is_approved submission.workflow_state) _) _ h₃ in
      let (loaded, taken, h₅) =
        >>=-eq-ok (load_approved_ledger_snapshot db.store req submission) _ h₄ in
      let (totals, summed, h₆) = >>=-eq-ok (reconcile_totals loaded.qes) _ h₅ in
      mathlib.Core.Path.subst (λ (q : Prepared). Changes o (rows_of db) (rows_of q.db))
        (ok-injective h₆)
        (enqueue-Changes o db req submission loaded taken totals summed (suc current.version_number)
          (some current.id) "publication_regenerated"
          (Payload.regeneration current.id (suc current.version_number)) fresh)
