-- ===== src/Publication/Pipeline/Failure.antt =====
-- What a run of the publication job comes to, with every way in which it can fail.
use eduvijna_paper_evaluatio.Publication.Pipeline.Made.{Made, attempt-Made}
use eduvijna_paper_evaluatio.Publication.Pipeline.Waiting.{
  IsWaiting, IsNewest, waiting_result-none, waiting_result-IsNewest,
}
use mathlib.Core.Path.{subst}
use eduvijna_paper_evaluatio.Prelude.{
  false, ℕ, ◌≡◌, ◌≢◌, ◌⊎◌, refl, ◌==◌, Option, none, some, String, ok, err, All, update, update-All,
  Option-cases, inl, inr, Any, All-imp, first-none, first_keyed, ◌&&◌, ==_iff, arith,
}
use eduvijna_paper_evaluatio.Grading.Ledger.{SubmissionState, Submission}
use eduvijna_paper_evaluatio.Grading.Moderation.Decide.{load_submission}
use eduvijna_paper_evaluatio.Grading.Published.{PublishedStatus, PublishedResult}
use eduvijna_paper_evaluatio.Grading.Store.{Request}
use eduvijna_paper_evaluatio.Publication.Tables.{
  JobStatus, PipelineJob, Database, Outside, code_text,
}
use eduvijna_paper_evaluatio.Publication.Results.{save_result, save_state, update_job}
use eduvijna_paper_evaluatio.Publication.Pipeline.{
  Stored, waiting_result, load_job, attempt, generating, finish_job, settle_attempt, start_job,
  run_waiting, run_loaded, run_publication_pipeline,
}

-- The rows of a job, and those of a version, as a run leaves them.
abbrev pub JobsAre : ℕ → (PipelineJob → Type 0) → Database → Type 0
JobsAre job_id P after = All (λ j. (j.id ≢ job_id) ⊎ P j) after.jobs

abbrev pub ResultsAre : ℕ → (PublishedResult → Type 0) → Database → Type 0
ResultsAre id P after = All (λ r. (r.id ≢ id) ⊎ P r) after.store.published_results

-- The end of an attempt on the version `r` of the submission `s`.
pub data Ended (db : Database) (s : Submission) (r : PublishedResult) (job_id : ℕ)
    (after : Database) : Type 0 where
  succeeded :
      s.workflow_state ≡ SubmissionState.approved
      → JobsAre job_id (λ j. j.status ≡ JobStatus.succeeded) after
      → ResultsAre r.id (λ x. x.status ≡ PublishedStatus.generated) after
      → after.store.submissions ≡ db.store.submissions
      → Ended db s r job_id after
  failed :
      (code : String)
      → JobsAre job_id (λ j. (j.status ≡ JobStatus.failed) × (j.error_code ≡ some code)) after
      → ResultsAre r.id
          (λ x. (x.status ≡ PublishedStatus.failed) × (x.failure_code ≡ some code))
          after
      → after.store.submissions
        ≡ update
            (λ x. x.id == s.id)
            (λ x. record x { workflow_state = SubmissionState.approved })
            db.store.submissions
      → Ended db s r job_id after

settle_attempt-Ended :
    (db : Database) (req : Request) (s : Submission) (r : PublishedResult) (job_id : ℕ)
    (outcome : Stored PublishedResult)
    → ((made : PublishedResult) → outcome.1 ≡ ok made → Made s r made)
    → Ended db s r job_id (settle_attempt db req s r job_id outcome)
unfolding settle_attempt save_result save_state update_job finish_job
settle_attempt-Ended db req s r job_id (objects, ok made) h =
    let m = h made refl in
    succeeded m.approved
      (update-All (λ (j : PipelineJob). j.status ≡ JobStatus.succeeded) (λ (j : PipelineJob). j.id)
        job_id _ db.jobs (λ j. refl))
      (subst
        (λ (id : ℕ).
          All (λ (x : PublishedResult). (x.id ≢ id) ⊎ (x.status ≡ PublishedStatus.generated))
            (update (λ x. x.id == made.id) (λ x. made) db.store.published_results))
        m.same_row
        (update-All (λ (x : PublishedResult). x.status ≡ PublishedStatus.generated)
          (λ (x : PublishedResult). x.id) made.id _ db.store.published_results (λ x. m.status)))
      refl
settle_attempt-Ended db req s r job_id (objects, err raised) h =
    failed (code_text raised)
      (update-All
        (λ (j : PipelineJob).
          (j.status ≡ JobStatus.failed) × (j.error_code ≡ some (code_text raised)))
        (λ (j : PipelineJob). j.id) job_id _ db.jobs (λ j. (refl, refl)))
      (update-All
        (λ (x : PublishedResult).
          (x.status ≡ PublishedStatus.failed) × (x.failure_code ≡ some (code_text raised)))
        (λ (x : PublishedResult). x.id) r.id _ db.store.published_results (λ x. (refl, refl)))
      refl

-- The submission with the identifier, in the tenant.
pub record IsScript (db : Database) (req : Request) (submission_id : ℕ) (s : Submission)
    : Type 0 where
  pub in_table : Any (λ x. x ≡ s) db.store.submissions
  pub same_id : s.id ≡ submission_id
  pub same_tenant : s.tenant_id ≡ req.tenant_id

-- Every way in which a run can go.
pub data Ran (db : Database) (req : Request) (submission_id job_id : ℕ) (after : Database)
    : Type 0 where
  no_job :
      All (λ (j : PipelineJob). ¬ ((j.id ≡ job_id) × (j.tenant_id ≡ req.tenant_id))) db.jobs
      → after ≡ db
      → Ran db req submission_id job_id after
  no_submission :
      All
        (λ (s : Submission). ¬ ((s.id ≡ submission_id) × (s.tenant_id ≡ req.tenant_id)))
        db.store.submissions
      → after ≡ db
      → Ran db req submission_id job_id after
  no_version :
      {s : Submission}
      → IsScript db req submission_id s
      → All (λ (r : PublishedResult). ¬ IsWaiting req s.id r) db.store.published_results
      → JobsAre job_id
          (λ j. (j.status ≡ JobStatus.failed) × (j.error_code ≡ some "PUBLISHED_RESULT_MISSING"))
          after
      → after.store ≡ db.store
      → Ran db req submission_id job_id after
  attempted :
      {s : Submission} {r : PublishedResult}
      → IsScript db req submission_id s
      → IsNewest req s.id db.store.published_results r
      → Ended db s r job_id after
      → Ran db req submission_id job_id after

-- The start of the job leaves the submissions and the identifiers as they are.
started-Ended :
    {after : Database} (db : Database) (req : Request) (s : Submission) (r : PublishedResult)
    (job_id : ℕ)
    → Ended (start_job req job_id (generating r) db) s (generating r) job_id after
    → Ended db s r job_id after
unfolding start_job save_result update_job generating
started-Ended db req s r job_id (succeeded approved jobs results submissions) =
    succeeded approved jobs results submissions
started-Ended db req s r job_id (failed code jobs results submissions) =
    failed code jobs results submissions

apart : (a b c d : ℕ) → (a == b && c == d) ≡ false → ¬ ((a ≡ b) × (c ≡ d))
apart a b c d h (e, f) = ground (arith, (==_iff a b).1 e, (==_iff c d).1 f)

found-IsScript :
    (db : Database) (req : Request) (submission_id : ℕ) {s : Submission}
    → load_submission db.store req submission_id ≡ some s
    → IsScript db req submission_id s
unfolding load_submission
found-IsScript db req submission_id h =
    let (in_table, same_id, same_tenant) =
      first_keyed (λ (s : Submission). s.id) (λ (s : Submission). s.tenant_id) submission_id
        req.tenant_id db.store.submissions h in
    record { in_table = in_table; same_id = same_id; same_tenant = same_tenant }

no_scripts :
    (db : Database) (req : Request) (submission_id : ℕ)
    → load_submission db.store req submission_id ≡ none
    → All
        (λ (s : Submission). ¬ ((s.id ≡ submission_id) × (s.tenant_id ≡ req.tenant_id)))
        db.store.submissions
unfolding load_submission
no_scripts db req submission_id h =
    All-imp (λ (s : Submission). apart s.id submission_id s.tenant_id req.tenant_id)
      db.store.submissions (first-none _ db.store.submissions h)

no_jobs :
    (db : Database) (req : Request) (job_id : ℕ)
    → load_job db req job_id ≡ none
    → All (λ (j : PipelineJob). ¬ ((j.id ≡ job_id) × (j.tenant_id ≡ req.tenant_id))) db.jobs
unfolding load_job
no_jobs db req job_id h =
    All-imp (λ (j : PipelineJob). apart j.id job_id j.tenant_id req.tenant_id) db.jobs
      (first-none _ db.jobs h)

module _ (o : Outside) (db : Database) (req : Request) where
  run_waiting-Ran :
      (submission_id job_id : ℕ) {s : Submission} (waiting : Option PublishedResult)
      → IsScript db req submission_id s
      → waiting_result db req s.id ≡ waiting
      → Ran db req submission_id job_id (run_waiting o db req s job_id waiting)
  unfolding run_waiting update_job finish_job start_job save_result generating
  run_waiting-Ran submission_id job_id {s} none l e =
      no_version l (waiting_result-none req s.id db e)
        (update-All
          (λ (j : PipelineJob).
            (j.status ≡ JobStatus.failed) × (j.error_code ≡ some "PUBLISHED_RESULT_MISSING"))
          (λ (j : PipelineJob). j.id) job_id _ db.jobs (λ j. (refl, refl)))
        refl
  run_waiting-Ran submission_id job_id {s} (some r) l e =
      let started = start_job req job_id (generating r) db in
      attempted l (waiting_result-IsNewest req s.id db e) (
        started-Ended db req s r job_id (
          settle_attempt-Ended started req s (generating r) job_id
            (attempt o started req s (generating r))
            (λ made h. attempt-Made o started req s (generating r) h)))

  -- A run of the publication job changes nothing without a job and a submission of these
  -- identifiers in the tenant. Without a version of the submission that is READY, GENERATING or
  -- FAILED, the job FAILS and the tables of grading stay. Else the run takes up the newest such
  -- version. Either it succeeds, and then the submission was APPROVED and the submissions stay, the
  -- job is SUCCEEDED and the version GENERATED; or it fails, with one code on the job and on the
  -- version, which are FAILED, and the submission becomes APPROVED, whatever state it was in.
  pub run_publication_pipeline_approves :
      (submission_id job_id : ℕ)
      → Ran db req submission_id job_id (run_publication_pipeline o db req submission_id job_id)
  unfolding run_publication_pipeline run_loaded
  run_publication_pipeline_approves submission_id job_id =
      elim (Option-cases (load_job db req job_id)) [
        | inl none' ↦ rw none' (no_job (no_jobs db req job_id none') refl)
        | inr (job, j) ↦ elim (Option-cases (load_submission db.store req submission_id)) [
          | inl none' ↦ rw (j, none') (no_submission (no_scripts db req submission_id none') refl)
          | inr (s, l) ↦
              rw (j, l)
                (run_waiting-Ran submission_id job_id (waiting_result db req s.id)
                  (found-IsScript db req submission_id l) refl)
        ]
      ]
