-- ===== src/Publication/LifeCycle/Refines.antt =====
-- Every operation of publication refines the life cycle.
use mathlib.Core.Path.{subst}
use eduvijna_paper_evaluatio.Prelude.{
  ==_refl, Any-update, ℕ, ◌≡◌, refl, sym, ap, ◌∙◌, true, false, not, ◌&&◌, ◌==◌, ==_iff, Option,
  some, none, ok, guard, require, >>=-eq-ok, ok-injective, guard-eq-ok, require-eq-ok, Any,
  first-Any, first-test, inl, inr, Bool-cases, &&-eq-true, Any-update_miss,
}
use eduvijna_paper_evaluatio.Grading.Ledger.{Submission}
use eduvijna_paper_evaluatio.Grading.Published.{PublishedStatus, PublishedResult}
use eduvijna_paper_evaluatio.Grading.Store.{Request}
use eduvijna_paper_evaluatio.Grading.Grievance.{is_published}
use eduvijna_paper_evaluatio.Publication.Tables.{PipelineJob, Database, Outside}
use eduvijna_paper_evaluatio.Publication.Results.{load_result}
use eduvijna_paper_evaluatio.Publication.Prepare.{
  Prepared, prepare_publication, regenerate_publication,
}
use eduvijna_paper_evaluatio.Publication.Pipeline.{run_publication_pipeline}
use eduvijna_paper_evaluatio.Publication.Publish.{
  is_generated, check_publishable, supersede_prior, prior_result, stamped, ensure_job,
  ensure_analytics_job, record_outbound_event, write_published, conclude_publication,
  publish_result,
}
use eduvijna_paper_evaluatio.Publication.LifeCycle.{
  publish, supersede, move, Changes, nothing, then_change,
}
use eduvijna_paper_evaluatio.Publication.LifeCycle.Versions.{
  rows_of, Fresh, prepare_publication-Changes, regenerate_publication-Changes,
}
use eduvijna_paper_evaluatio.Publication.LifeCycle.Artifacts.{run_publication_pipeline-Changes}

is_published-eq : (s : PublishedStatus) → is_published s ≡ true → s ≡ PublishedStatus.published
unfolding is_published
is_published-eq PublishedStatus.published h = refl
is_published-eq PublishedStatus.ready h = cc
is_published-eq PublishedStatus.generating h = cc
is_published-eq PublishedStatus.generated h = cc
is_published-eq PublishedStatus.failed h = cc
is_published-eq PublishedStatus.superseded h = cc

is_generated-eq : (s : PublishedStatus) → is_generated s ≡ true → s ≡ PublishedStatus.generated
unfolding is_generated
is_generated-eq PublishedStatus.generated h = refl
is_generated-eq PublishedStatus.ready h = cc
is_generated-eq PublishedStatus.generating h = cc
is_generated-eq PublishedStatus.published h = cc
is_generated-eq PublishedStatus.failed h = cc
is_generated-eq PublishedStatus.superseded h = cc

-- The row that a query by identifier returns is in the table.
pub load_result-Any :
    (db : Database) (req : Request) (id : ℕ) {r : PublishedResult}
    → load_result db req id ≡ some r
    → Any (λ x. x ≡ r) (rows_of db) × (r.id ≡ id)
unfolding load_result
load_result-Any db req id {r} h = (
  first-Any (λ (x : PublishedResult). x.id == id && x.tenant_id == req.tenant_id) (rows_of db) h,
  (==_iff _ _).0
      (&&-eq-true (r.id == id) _ (
        first-test (λ (x : PublishedResult). x.id == id && x.tenant_id == req.tenant_id)
          (rows_of db) h)).0,
)

module _ (db : Database) (req : Request) where
  -- Rows that queries by identifier return are one row if their identifiers are one.
  same_row :
      (id rid : ℕ) (x r : PublishedResult)
      → load_result db req id ≡ some x
      → load_result db req rid ≡ some r
      → x.id ≡ r.id
      → x ≡ r
  same_row id rid x r e found same =
      let (m, a) = load_result-Any db req id e in
      let (k, b) = load_result-Any db req rid found in
      let ids : id ≡ rid = sym a ∙ (same ∙ b) in
      let both : ◌≡◌ {A = Option PublishedResult} (some x) (some r) =
        sym e ∙ (ap (load_result db req) ids ∙ found) in
      cc

  other_row :
      (id rid : ℕ) (x r : PublishedResult)
      → load_result db req id ≡ some x
      → load_result db req rid ≡ some r
      → x.status ≡ PublishedStatus.published
      → r.status ≡ PublishedStatus.generated
      → (r.id == x.id) ≡ false
  other_row id rid x r e found p g = elim (Bool-cases (r.id == x.id)) [
    | inr other ↦ other
    | inl same ↦
        let one = same_row id rid x r e found (sym ((==_iff r.id x.id).0 same)) in
        cc (sym p ∙ (ap (λ (y : PublishedResult). y.status) one ∙ g))
  ]

module _ (o : Outside) (db : Database) (req : Request) (rid : ℕ) (r : PublishedResult)
    (found : load_result db req rid ≡ some r) (g : r.status ≡ PublishedStatus.generated) where
  Superseding : Database → Type 0
  Superseding after = Changes o (rows_of db) (rows_of after) × Any (λ x. x ≡ r) (rows_of after)

  -- The prior row that is superseded is another row than the one that is published.
  supersede_prior-Changes :
      (id : Option ℕ) (prior : Option PublishedResult)
      → prior_result db req id ≡ prior
      → Superseding (supersede_prior req r.id prior db)
  unfolding supersede_prior prior_result Superseding
  supersede_prior-Changes id none e = (nothing, (load_result-Any db req rid found).0)
  supersede_prior-Changes none (some prior) e = cc
  supersede_prior-Changes (some id) (some prior) e = elim (Bool-cases (is_published prior.status)) [
    | inr other ↦ rw other (nothing, (load_result-Any db req rid found).0)
    | inl published' ↦
        let p = is_published-eq prior.status published' in
        rw published' (
          then_change nothing (
              move prior (record prior { status = PublishedStatus.superseded })
                (load_result-Any db req id e).0 (supersede prior p)),
          Any-update_miss (λ x. x.id == prior.id) _ (rows_of db)
              (other_row db req id rid prior r e found p g) (load_result-Any db req rid found).0,
        )
  ]

  write_published-Changes :
      (submission : Submission)
      → Changes o (rows_of db) (rows_of (write_published db req r submission))
  unfolding write_published stamped Superseding
  write_published-Changes submission =
      let (cs, m) = supersede_prior-Changes r.supersedes_result_id _ refl in
      then_change cs (move r (stamped req r) m (publish r req g))

  -- The published row is in the table.
  pub write_published-Any :
      (submission : Submission)
      → Any (λ x. x ≡ stamped req r) (rows_of (write_published db req r submission))
  unfolding write_published stamped Superseding
  write_published-Any submission =
      let (cs, m) = supersede_prior-Changes r.supersedes_result_id _ refl in
      Any-update (λ x. x.id == r.id) (stamped req r) _ (==_refl r.id) m

ensure_job_rows :
    (db : Database) (req : Request) (r : PublishedResult) (found : Option PipelineJob)
    → rows_of (ensure_job db req r found).0 ≡ rows_of db
unfolding ensure_job
ensure_job_rows db req r (some job) = refl
ensure_job_rows db req r none = refl

pub conclude_publication_rows :
    (db : Database) (req : Request) (published : PublishedResult) (submission : Submission)
    (after : Database) (r : PublishedResult) (job : PipelineJob)
    → conclude_publication db req published submission ≡ ok (after, r, job)
    → rows_of after ≡ rows_of (write_published db req published submission)
unfolding conclude_publication ensure_analytics_job stamped record_outbound_event
conclude_publication_rows db req published submission after r job h =
    ap (λ (x : Database × PublishedResult × PipelineJob). rows_of x.0) (sym (ok-injective h))
    ∙ ensure_job_rows (write_published db req published submission) req (stamped req published) _

module _ (o : Outside) (db : Database) (req : Request) where
  pub check_publishable-generated :
      (r : PublishedResult) (submission : Submission)
      → check_publishable o db req r ≡ ok submission
      → r.status ≡ PublishedStatus.generated
  unfolding check_publishable
  check_publishable-generated r submission h =
      let (u, unpublished, h₁) = >>=-eq-ok (guard (not (is_published r.status)) _) _ h in
      let (v, made, h₂) = >>=-eq-ok (guard (is_generated r.status) _) _ h₁ in
      is_generated-eq r.status (guard-eq-ok _ _ made)

  pub publish_result-Changes :
      (id : ℕ) (after : Database) (r : PublishedResult) (job : PipelineJob)
      → publish_result o db req id ≡ ok (after, r, job)
      → Changes o (rows_of db) (rows_of after)
  unfolding publish_result
  publish_result-Changes id after r job h =
      let (published, found, h₁) = >>=-eq-ok (require (load_result db req id) _) _ h in
      let (submission, checked, h₂) = >>=-eq-ok (check_publishable o db req published) _ h₁ in
      let g = check_publishable-generated published submission checked in
      subst (Changes o (rows_of db))
        (sym (conclude_publication_rows db req published submission after r job h₂))
        (write_published-Changes o db req id published (require-eq-ok _ _ found) g submission)

-- One operation of publication, or a step of another part that leaves the published results
-- alone. The identifiers of new rows are new.
pub data Operation (o : Outside) (db : Database) : Database → Type 0 where
  prepares :
      (req : Request) (submission : Submission) (p : Prepared)
      → prepare_publication o db req submission ≡ ok p
      → Fresh (req.uuid4 0) (rows_of db)
      → Operation o db p.db
  regenerates :
      (req : Request) (id : ℕ) (p : Prepared)
      → regenerate_publication o db req id ≡ ok p
      → Fresh (req.uuid4 0) (rows_of db)
      → Operation o db p.db
  runs :
      (req : Request) (submission_id job_id : ℕ)
      → Operation o db (run_publication_pipeline o db req submission_id job_id)
  publishes :
      (req : Request) (id : ℕ) (after : Database) (r : PublishedResult) (job : PipelineJob)
      → publish_result o db req id ≡ ok (after, r, job)
      → Operation o db after
  elsewhere : (after : Database) → rows_of after ≡ rows_of db → Operation o db after

-- Every operation of publication changes the table of results along the life cycle: new rows are
-- READY with the totals of the snapshot that they hash, and a row in the table moves from READY,
-- GENERATING or FAILED to GENERATING, from there to FAILED or, with the totals of a snapshot that
-- has its hash, to GENERATED, from there to PUBLISHED, and from there to SUPERSEDED.
pub Operation-Changes :
    (o : Outside) (db after : Database)
    → Operation o db after
    → Changes o (rows_of db) (rows_of after)
Operation-Changes o db after (prepares req submission p h fresh) =
    prepare_publication-Changes o db req submission p h fresh
Operation-Changes o db after (regenerates req id p h fresh) =
    regenerate_publication-Changes o db req id p h fresh
Operation-Changes o db after (runs req submission_id job_id) =
    run_publication_pipeline-Changes o db req submission_id job_id
Operation-Changes o db after (publishes req id after' r job h) =
    publish_result-Changes o db req id after' r job h
Operation-Changes o db after (elsewhere after' same) =
    subst (Changes o (rows_of db)) (sym same) nothing
