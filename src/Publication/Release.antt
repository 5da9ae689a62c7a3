-- ===== src/Publication/Release.antt =====
-- What a publication that succeeds has written, and what it publishes after any history.
use eduvijna_paper_evaluatio.Publication.Snapshot.{is_approved}
use mathlib.Core.Path.{subst}
use eduvijna_paper_evaluatio.Prelude.{
  true, ℕ, ◌≡◌, refl, sym, ap, ◌∙◌, ◌==◌, Option, some, none, [], ◌∷◌, ◌++◌, ok, require, >>=-eq-ok,
  ok-injective, require-eq-ok, Any, update, Bool-cases, inl, inr, first_keyed,
}
use eduvijna_paper_evaluatio.Grading.Ledger.{SubmissionState, Submission}
use eduvijna_paper_evaluatio.Grading.Published.{PublishedResult, PublishedStatus, Report}
use eduvijna_paper_evaluatio.Grading.Store.{Request}
use eduvijna_paper_evaluatio.Grading.Grievance.{is_published}
use eduvijna_paper_evaluatio.Publication.Tables.{PipelineJob, Database, Outside}
use eduvijna_paper_evaluatio.Publication.Results.{load_result}
use eduvijna_paper_evaluatio.Publication.Publish.{
  check_publishable, stamped, new_event, write_published, conclude_publication, publish_result,
  supersede_prior, prior_result, analytics_job, ensure_job, ensure_analytics_job,
  record_outbound_event, stamp,
}
use eduvijna_paper_evaluatio.Publication.LifeCycle.Versions.{rows_of}
use eduvijna_paper_evaluatio.Publication.LifeCycle.Refines.{
  write_published-Any, conclude_publication_rows,
}
use eduvijna_paper_evaluatio.Publication.Checks.{Publishable, check_publishable-Publishable}

-- The report with the time of its publication.
abbrev pub issued : ℕ → Report → Report
issued now report = record report { published_at = some now }

module _ (o : Outside) (db : Database) (req : Request) where
  -- The outcome of a publication.
  pub record Published (id : ℕ) (after : Database) (r : PublishedResult) : Type 0 where
    pub row : PublishedResult
    pub in_results : Any (λ x. x ≡ row) (rows_of db)
    pub same_id : row.id ≡ id
    pub same_tenant : row.tenant_id ≡ req.tenant_id
    pub submission : Submission
    pub checked : Publishable o db req row submission
    pub was_approved : submission.workflow_state ≡ SubmissionState.approved
    pub result : r ≡ record row {
      status = PublishedStatus.published;
      published_by = some req.user_id;
      published_at = some req.now;
      student_report_payload = issued req.now row.student_report_payload;
      parent_report_payload = issued req.now row.parent_report_payload;
      teacher_report_payload = issued req.now row.teacher_report_payload;
    }
    pub in_table : Any (λ x. x ≡ r) (rows_of after)
    pub submissions :
        after.store.submissions
        ≡ update
            (λ s. s.id == submission.id)
            (λ s. record s { workflow_state = SubmissionState.published })
            db.store.submissions
    pub announced :
        after.outbound_events
        ≡ db.outbound_events
          ++ record {
            id = req.uuid4 1;
            tenant_id = req.tenant_id;
            event_type = "result.published";
            occurred_at = req.now;
            source_entity_id = row.id;
            source_version = some row.version_number;
            total_score = row.total_score;
            max_total_score = row.max_total_score;
          }
            ∷ []
    pub ledger_kept : after.store.question_evaluations ≡ db.store.question_evaluations
    pub objects_kept : after.objects ≡ db.objects

-- Neither the prior row nor the job changes these tables.
record Untouched (db after : Database) : Type 0 where
  submissions : after.store.submissions ≡ db.store.submissions
  outbound_events : after.outbound_events ≡ db.outbound_events
  ledger : after.store.question_evaluations ≡ db.store.question_evaluations
  objects : after.objects ≡ db.objects

supersede_prior-Untouched :
    (req : Request) (id : ℕ) (prior : Option PublishedResult) (db : Database)
    → Untouched db (supersede_prior req id prior db)
unfolding supersede_prior
supersede_prior-Untouched req id none db = record {
  submissions = refl;
  outbound_events = refl;
  ledger = refl;
  objects = refl;
}
supersede_prior-Untouched req id (some prior) db = elim (Bool-cases (is_published prior.status)) [
  | inl yes' ↦
      rw yes' (record { submissions = refl; outbound_events = refl; ledger = refl; objects = refl })
  | inr no' ↦
      rw no' (record { submissions = refl; outbound_events = refl; ledger = refl; objects = refl })
]

ensure_job-Untouched :
    (db : Database) (req : Request) (r : PublishedResult) (found : Option PipelineJob)
    → Untouched db (ensure_job db req r found).0
unfolding ensure_job
ensure_job-Untouched db req r none = record {
  submissions = refl;
  outbound_events = refl;
  ledger = refl;
  objects = refl;
}
ensure_job-Untouched db req r (some job) = record {
  submissions = refl;
  outbound_events = refl;
  ledger = refl;
  objects = refl;
}

module _ (db : Database) (req : Request) (row : PublishedResult) (submission : Submission) where
  record Concluded (after : Database) (r : PublishedResult) : Type 0 where
    result : r ≡ stamped req row
    submissions :
        after.store.submissions
        ≡ update
            (λ s. s.id == submission.id)
            (λ s. record s { workflow_state = SubmissionState.published })
            db.store.submissions
    announced : after.outbound_events ≡ db.outbound_events ++ new_event req (stamped req row) ∷ []
    ledger_kept : after.store.question_evaluations ≡ db.store.question_evaluations
    objects_kept : after.objects ≡ db.objects

  conclude_publication-Concluded :
      (after : Database) (r : PublishedResult) (job : PipelineJob)
      → conclude_publication db req row submission ≡ ok (after, r, job)
      → Concluded after r
  unfolding conclude_publication ensure_analytics_job stamped record_outbound_event write_published
  conclude_publication-Concluded after r job h =
      let written = write_published db req row submission in
      let superseded =
        supersede_prior-Untouched req row.id (prior_result db req row.supersedes_result_id) db in
      let ensured =
        ensure_job-Untouched written req (stamped req row) (analytics_job written req row.id) in
      let e = ap (λ (x : Database × PublishedResult × PipelineJob). x.0) (sym (ok-injective h)) in
      record {
        result = ap (λ (x : Database × PublishedResult × PipelineJob). x.1) (sym (ok-injective h));
        submissions =
            ap (λ (x : Database). x.store.submissions) e
            ∙ (ensured.submissions
                ∙ ap
                    (update (λ s. s.id == submission.id)
                      (λ s. record s { workflow_state = SubmissionState.published }))
                    superseded.submissions);
        announced =
            ap (λ (x : Database). x.outbound_events) e
            ∙ ap (λ es. es ++ new_event req (stamped req row) ∷ [])
                (ensured.outbound_events ∙ superseded.outbound_events);
        ledger_kept =
            ap (λ (x : Database). x.store.question_evaluations) e
            ∙ (ensured.ledger ∙ superseded.ledger);
        objects_kept = ap (λ (x : Database). x.objects) e ∙ (ensured.objects ∙ superseded.objects);
      }

pub approved_state : (s : SubmissionState) → is_approved s ≡ true → s ≡ SubmissionState.approved
unfolding is_approved
approved_state SubmissionState.approved h = refl
approved_state SubmissionState.uploaded h = cc
approved_state SubmissionState.processing h = cc
approved_state SubmissionState.identity_review h = cc
approved_state SubmissionState.mapping_review h = cc
approved_state SubmissionState.ready_for_evaluation h = cc
approved_state SubmissionState.evaluating h = cc
approved_state SubmissionState.evaluation_review h = cc
approved_state SubmissionState.moderation_review h = cc
approved_state SubmissionState.published h = cc
approved_state SubmissionState.failed h = cc

module _ (o : Outside) (db : Database) (req : Request) where
  -- A publication that succeeds found a GENERATED row of the tenant. The row's submission was
  -- APPROVED; the ledger, read again, has the hash of the row, and its four files are in the
  -- storage with the digests of the row. Afterwards the row is in the table, PUBLISHED, with the
  -- caller as its publisher and the time of the request, on the three reports as well; the
  -- submission is PUBLISHED; the event `result.published` with the row's version and totals is the
  -- last in the outbox; ledger and storage are as before.
  pub publish_result-Published :
      (id : ℕ) (after : Database) (r : PublishedResult) (job : PipelineJob)
      → publish_result o db req id ≡ ok (after, r, job)
      → Published o db req id after r
  unfolding publish_result load_result stamped stamp new_event
  publish_result-Published id after r job h =
      let (row, found, h₁) = >>=-eq-ok (require (load_result db req id) _) _ h in
      let (submission, checked, h₂) = >>=-eq-ok (check_publishable o db req row) _ h₁ in
      let c = conclude_publication-Concluded db req row submission after r job h₂ in
      let p = check_publishable-Publishable o db req row submission checked in
      let is_row = require-eq-ok _ _ found in
      let (in_results, same_id, same_tenant) =
        first_keyed (λ (x : PublishedResult). x.id) (λ (x : PublishedResult). x.tenant_id) id
          req.tenant_id db.store.published_results is_row in
      record {
        row = row;
        in_results = in_results;
        same_id = same_id;
        same_tenant = same_tenant;
        submission = submission;
        checked = p;
        was_approved = approved_state submission.workflow_state p.approved;
        result = c.result;
        in_table =
            subst (λ x. Any (λ y. y ≡ x) (rows_of after)) (sym c.result)
              (subst (λ rows. Any (λ y. y ≡ stamped req row) rows)
                (sym (conclude_publication_rows db req row submission after r job h₂))
                (write_published-Any o db req id row is_row p.generated submission));
        submissions = c.submissions;
        announced = c.announced;
        ledger_kept = c.ledger_kept;
        objects_kept = c.objects_kept;
      }
