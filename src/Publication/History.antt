-- ===== src/Publication/History.antt =====
-- Histories of publication, and what they keep.
use eduvijna_paper_evaluatio.Grading.Moderation.Decide.{load_submission}
use eduvijna_paper_evaluatio.Grading.Ledger.{Submission}
use eduvijna_paper_evaluatio.Prelude.{
  ℕ, ◌≡◌, sym, ap, ◌∙◌, ok, All, ◌==◌, ◌&&◌, All-Any, some, ==_iff, &&-eq-true, first-test,
}
use eduvijna_paper_evaluatio.Grading.Published.{PublishedResult}
use eduvijna_paper_evaluatio.Grading.Store.{Request, Store}
use eduvijna_paper_evaluatio.Publication.Tables.{PipelineJob, Canonical, Database, Outside}
use eduvijna_paper_evaluatio.Publication.Snapshot.{Loaded, load_approved_ledger_snapshot}
use eduvijna_paper_evaluatio.Publication.Snapshot.Totals.{total_of, max_total_of}
use eduvijna_paper_evaluatio.Publication.Snapshot.Approved.{
  IsApproved, load_approved_ledger_snapshot-Snapshotted,
}
use eduvijna_paper_evaluatio.Publication.Publish.{stamped, publish_result}
use eduvijna_paper_evaluatio.Publication.LifeCycle.{IsHashed, final_total, max_total}
use eduvijna_paper_evaluatio.Publication.LifeCycle.Frozen.{
  IsFrozen, Changes-IsHashed, Changes-IsFrozen,
}
use eduvijna_paper_evaluatio.Publication.LifeCycle.Versions.{rows_of}
use eduvijna_paper_evaluatio.Publication.LifeCycle.Refines.{
  Operation, Operation-Changes, publish_result-Changes,
}
use eduvijna_paper_evaluatio.Publication.Release.{Published, publish_result-Published}

load_submission-id :
    (db : Store) (req : Request) (id : ℕ) {s : Submission}
    → load_submission db req id ≡ some s
    → s.id ≡ id
unfolding load_submission
load_submission-id db req id {s} h =
    (==_iff _ _).0
      (&&-eq-true (s.id == id) _ (
        first-test (λ (x : Submission). x.id == id && x.tenant_id == req.tenant_id) db.submissions
          h)).0

-- Operations one after the other.
pub data History (o : Outside) (db : Database) : Database → Type 0 where
  start : History o db db
  then_next : {mid after : Database} → History o db mid → Operation o mid after → History o db after

module _ (o : Outside) where
  -- Once a result is PUBLISHED, no history of publication changes it, but for its status, which
  -- can become SUPERSEDED: its totals, its hash, its files and its reports stay, under an
  -- identifier that no other row has.
  pub published_stays-IsFrozen :
      (db after : Database) (r : PublishedResult)
      → History o db after
      → IsFrozen r (rows_of db)
      → IsFrozen r (rows_of after)
  published_stays-IsFrozen db after r start f = f
  published_stays-IsFrozen db after r (then_next {mid = mid} history operation) f =
      Changes-IsFrozen o r (Operation-Changes o mid after operation)
        (published_stays-IsFrozen db mid r history f)

  history-IsHashed :
      (db after : Database)
      → History o db after
      → All (IsHashed o) (rows_of db)
      → All (IsHashed o) (rows_of after)
  history-IsHashed db after start hs = hs
  history-IsHashed db after (then_next {mid = mid} history operation) hs =
      Changes-IsHashed o (Operation-Changes o mid after operation)
        (history-IsHashed db mid history hs)

  -- The totals are those of the ledger as it is approved now.
  pub record IsOfLedger (db : Database) (req : Request) (r : PublishedResult) : Type 0 where
    pub loaded : Loaded
    pub submission : Submission
    pub taken : load_approved_ledger_snapshot db.store req submission ≡ ok loaded
    pub script : r.submission_id ≡ submission.id
    pub approved : All IsApproved loaded.qes
    pub total : r.total_score ≡ total_of loaded.qes
    pub max : r.max_total_score ≡ max_total_of loaded.qes

  -- No two snapshots have the hash of the row.
  abbrev pub IsCollisionFree : PublishedResult → Type 0
  IsCollisionFree r =
      (c d : Canonical)
      → o.snapshot_digest c ≡ r.ledger_snapshot_hash
      → o.snapshot_digest d ≡ r.ledger_snapshot_hash
      → c ≡ d

  row-IsOfLedger :
      (before after : Database) (req : Request) (id : ℕ) (r : PublishedResult)
      → IsCollisionFree r
      → IsHashed o r
      → Published o before req id after r
      → IsOfLedger before req r
  unfolding stamped
  row-IsOfLedger before after req id r distinct h p =
      let checked = p.checked in
      let loaded = checked.loaded in
      let s =
        load_approved_ledger_snapshot-Snapshotted before.store req p.submission loaded
          checked.taken in
      let same_hash : p.row.ledger_snapshot_hash ≡ r.ledger_snapshot_hash =
        ap (λ (x : PublishedResult). x.ledger_snapshot_hash) (sym p.result) in
      let same = distinct h.canonical loaded.canonical h.hashed (checked.hashed ∙ same_hash) in
      record {
        loaded = loaded;
        submission = p.submission;
        taken = checked.taken;
        script =
            ap (λ (x : PublishedResult). x.submission_id) p.result
            ∙ sym (load_submission-id before.store req p.row.submission_id checked.script);
        approved = s.approved;
        total = h.total ∙ (ap final_total same ∙ s.total);
        max = h.max ∙ (ap max_total same ∙ s.max);
      }

  -- What is published is what was approved. After any history that starts with results that carry
  -- the totals of the snapshots that they hash, such as none, a publication that succeeds, of a
  -- row whose hash no two snapshots have, publishes the sum of the final scores and the sum of
  -- the maxima of a ledger that was loaded at that moment, each row of it accepted or overridden
  -- with a final score.
  pub published-IsOfLedger :
      (db before after : Database) (req : Request) (id : ℕ) (r : PublishedResult)
      (job : PipelineJob)
      → All (IsHashed o) (rows_of db)
      → History o db before
      → publish_result o before req id ≡ ok (after, r, job)
      → IsCollisionFree r
      → IsOfLedger before req r
  published-IsOfLedger db before after req id r job hs history h distinct =
      let p = publish_result-Published o before req id after r job h in
      row-IsOfLedger before after req id r distinct
        (All-Any (IsHashed o) r (rows_of after)
          (Changes-IsHashed o (publish_result-Changes o before req id after r job h)
            (history-IsHashed db before history hs))
          p.in_table)
        p
