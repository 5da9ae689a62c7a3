-- ===== src/Publication/Samples.antt =====
-- A script that is approved and published, and the theorems about its publication at it.
use eduvijna_paper_evaluatio.Grading.Store.{Request}
use eduvijna_paper_evaluatio.Publication.Prepare.Twice.{prepare_publication_twice}
use eduvijna_paper_evaluatio.Publication.Pipeline.Failure.{run_publication_pipeline_approves, Ran}
use eduvijna_paper_evaluatio.Prelude.{
  ◌≡◌, refl, sym, ◌∙◌, none, some, [], ◌∷◌, Result, ok, err, here, inl, ◌+◌,
}
use eduvijna_paper_evaluatio.Grading.Ledger.{SubmissionState}
use eduvijna_paper_evaluatio.Grading.Published.{PublishedStatus, PublishedResult}
use eduvijna_paper_evaluatio.Grading.Samples.{by_user}
use eduvijna_paper_evaluatio.Publication.Tables.{
  PublicationCode, Database, Stage, JobStatus, JobKey, PipelineJob,
}
use eduvijna_paper_evaluatio.Publication.Snapshot.{reconcile_totals}
use eduvijna_paper_evaluatio.Publication.Snapshot.Totals.{Reconciled, reconcile_totals-Reconciled}
use eduvijna_paper_evaluatio.Publication.Prepare.{
  Prepared, prepare_publication, regenerate_publication,
}
use eduvijna_paper_evaluatio.Publication.Pipeline.{run_publication_pipeline, waiting_result}
use eduvijna_paper_evaluatio.Publication.Publish.{publish_result}
use eduvijna_paper_evaluatio.Publication.LifeCycle.{Changes}
use eduvijna_paper_evaluatio.Publication.LifeCycle.Frozen.{IsFrozen}
use eduvijna_paper_evaluatio.Publication.LifeCycle.Versions.{rows_of}
use eduvijna_paper_evaluatio.Publication.LifeCycle.Refines.{
  prepares, runs, publishes, Operation-Changes,
}
use eduvijna_paper_evaluatio.Publication.Release.{Published, publish_result-Published}
use eduvijna_paper_evaluatio.Publication.History.{
  History, start, then_next, IsOfLedger, published_stays-IsFrozen, published-IsOfLedger,
}
use eduvijna_paper_evaluatio.Publication.SampleScript.{
  digest, digest_iff, outside, script, approved_question, office, version,
}

abbrev prepared_by : Result PublicationCode Prepared → Prepared
prepared_by (ok p) = p
prepared_by (err e) = record { db = office; result = version PublishedStatus.ready; job = none }

abbrev prepared : Prepared
prepared = prepared_by (prepare_publication outside office (by_user 9) script)

prepare_ok : prepare_publication outside office (by_user 9) script ≡ ok prepared
unfolding prepare_publication digest
prepare_ok = refl

prepared_test : prepared.result ≡ version PublishedStatus.ready
unfolding prepare_publication digest
prepared_test = refl

abbrev generated_db : Database
generated_db = run_publication_pipeline outside prepared.db (by_user 9) 50 501

abbrev no_job : PipelineJob
no_job = record {
  id = 0;
  tenant_id = 0;
  submission_id = 0;
  stage = Stage.analytics;
  status = JobStatus.queued;
  attempt = 0;
  idempotency_key = JobKey.analytics 0;
  error_code = none;
  started_at = none;
  finished_at = none;
}

abbrev published_by :
    Result PublicationCode (Database × PublishedResult × PipelineJob)
    → Database × PublishedResult × PipelineJob
published_by (ok p) = p
published_by (err e) = (office, version PublishedStatus.ready, no_job)

abbrev released : Database × PublishedResult × PipelineJob
released = published_by (publish_result outside generated_db (by_user 9) 500)

publish_ok : publish_result outside generated_db (by_user 9) 500 ≡ ok released
unfolding publish_result run_publication_pipeline prepare_publication digest
publish_ok = refl

abbrev history : History outside office generated_db
history =
    then_next (then_next start (prepares (by_user 9) script prepared prepare_ok tt))
      (runs (by_user 9) 50 501)

-- after the publication
abbrev released_history : History outside office released.0
released_history =
    then_next history (publishes (by_user 9) 500 released.0 released.1 released.2 publish_ok)

publish_result-Published_example :
    Published outside generated_db (by_user 9) 500 released.0 released.1
publish_result-Published_example =
    publish_result-Published outside generated_db (by_user 9) 500 released.0 released.1 released.2
      publish_ok

Operation-Changes_example : Changes outside (rows_of generated_db) (rows_of released.0)
Operation-Changes_example =
    Operation-Changes outside generated_db released.0
      (publishes (by_user 9) 500 released.0 released.1 released.2 publish_ok)

released_hash : released.1.ledger_snapshot_hash ≡ "approved"
unfolding publish_result run_publication_pipeline prepare_publication digest
released_hash = refl

published-IsOfLedger_example : IsOfLedger outside generated_db (by_user 9) released.1
published-IsOfLedger_example =
    published-IsOfLedger outside office generated_db released.0 (by_user 9) 500 released.1
      released.2 tt history publish_ok
      (λ c d p q. digest_iff c (p ∙ released_hash) ∙ sym (digest_iff d (q ∙ released_hash)))

reconcile_totals-Reconciled_example :
    Reconciled (approved_question ∷ []) (reconcile_totals (approved_question ∷ []))
reconcile_totals-Reconciled_example = reconcile_totals-Reconciled (approved_question ∷ [])

published-IsFrozen : IsFrozen released.1 (rows_of released.0)
unfolding publish_result run_publication_pipeline prepare_publication digest
published-IsFrozen = record {
  is_published = refl;
  there = here (inl refl);
  only = ((λ e. inl refl), tt);
}

published_stays-IsFrozen_example :
    IsFrozen released.1 (rows_of (run_publication_pipeline outside released.0 (by_user 9) 50 501))
published_stays-IsFrozen_example =
    published_stays-IsFrozen outside released.0 _ released.1
      (then_next start (runs (by_user 9) 50 501)) published-IsFrozen

-- A second version is asked for before the first is published.
abbrev later : Request
later = record (by_user 9) { uuid4 = λ n. 600 + n }

abbrev regenerated : Prepared
regenerated = prepared_by (regenerate_publication outside generated_db later 500)

abbrev first_out : Database
first_out = (published_by (publish_result outside regenerated.db (by_user 9) 500)).0

first_out_test :
    first_out.store.submissions ≡ record script { workflow_state = SubmissionState.published } ∷ []
unfolding publish_result regenerate_publication run_publication_pipeline prepare_publication digest
first_out_test = refl

waiting_second : waiting_result first_out (by_user 9) 50 ≡ some regenerated.result
unfolding waiting_result publish_result regenerate_publication run_publication_pipeline
    prepare_publication digest
waiting_second = refl

run_publication_pipeline_approves_example :
    Ran first_out (by_user 9) 50 601 (run_publication_pipeline outside first_out (by_user 9) 50 601)
run_publication_pipeline_approves_example =
    run_publication_pipeline_approves outside first_out (by_user 9) 50 601

prepare_publication_twice_example :
    (q : Prepared) × (prepare_publication outside prepared.db (by_user 9) script ≡ ok q)
    × (q.db ≡ prepared.db)
    × (q.result ≡ prepared.result)
prepare_publication_twice_example =
    prepare_publication_twice outside (by_user 9) script office prepared prepare_ok
