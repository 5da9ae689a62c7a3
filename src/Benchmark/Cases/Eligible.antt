-- ===== src/Benchmark/Cases/Eligible.antt =====
-- Where the cases of a dataset come from.
use eduvijna_paper_evaluatio.Grading.Pools.WorkItems.Tracking.{reviewed_states}
use eduvijna_paper_evaluatio.Benchmark.Cases.Added.{Eligible, add_case-Added}
use mathlib.Core.Path.{subst}
use eduvijna_paper_evaluatio.Prelude.{
  ℕ, ◌≡◌, ◌⊎◌, inl, inr, sym, ap, true, false, ◌==◌, ==_iff, some, ok, arith, refl, Bool, suc, ◌&&◌,
  [], ◌∷◌, ◌++◌, All, All-imp, Any, update, first-Any, first-test, first-none, first_keyed,
}
use eduvijna_paper_evaluatio.Grading.Ledger.{QuestionEvaluation, QeState}
use eduvijna_paper_evaluatio.Grading.Published.{PublishedResult, PublishedStatus}
use eduvijna_paper_evaluatio.Grading.Grievance.{is_published}
use eduvijna_paper_evaluatio.Grading.Store.{Request}
use eduvijna_paper_evaluatio.Benchmark.Tables.{
  BenchmarkDatasetVersion, BenchmarkCase, BenchmarkStore, VersionStatus,
}
use eduvijna_paper_evaluatio.Benchmark.Datasets.{
  find_version, is_locked, save_version, record_event,
}
use eduvijna_paper_evaluatio.Benchmark.Evidence.{Digests, new_case, build_replay_fixture}
use eduvijna_paper_evaluatio.Benchmark.Cases.{
  find_published, find_evaluation, existing_case, insert_case, add_case,
}

published_status : (s : PublishedStatus) → is_published s ≡ true → s ≡ PublishedStatus.published
unfolding is_published
published_status PublishedStatus.published h = refl
published_status PublishedStatus.ready h = cc
published_status PublishedStatus.generating h = cc
published_status PublishedStatus.generated h = cc
published_status PublishedStatus.failed h = cc
published_status PublishedStatus.superseded h = cc

module _ (req : Request) (version_id qe_id : ℕ) where
  -- A case of the version for the evaluation, in the tenant.
  pub record IsCaseOf (c : BenchmarkCase) : Type 0 where
    pub tenant : c.tenant_id ≡ req.tenant_id
    pub version : c.dataset_version_id ≡ version_id
    pub evaluation : c.question_evaluation_id ≡ qe_id

  abbrev case_test : BenchmarkCase → Bool
  case_test c =
      c.tenant_id == req.tenant_id
      && (c.dataset_version_id == version_id && c.question_evaluation_id == qe_id)

  case_test-IsCaseOf : (c : BenchmarkCase) → case_test c ≡ true → IsCaseOf c
  case_test-IsCaseOf c h = record {
    tenant = ground (arith, ==_iff c.tenant_id req.tenant_id);
    version = ground (arith, ==_iff c.dataset_version_id version_id);
    evaluation = ground (arith, ==_iff c.question_evaluation_id qe_id);
  }

  no_case : (c : BenchmarkCase) → case_test c ≡ false → ¬ IsCaseOf c
  no_case c h i = ground (
    arith,
    (==_iff c.tenant_id req.tenant_id).1 i.tenant,
    (==_iff c.dataset_version_id version_id).1 i.version,
    (==_iff c.question_evaluation_id qe_id).1 i.evaluation,
  )

-- The case records the final score and the maximum of a reviewed evaluation of a PUBLISHED result.
pub record Gold (db : BenchmarkStore) (req : Request) (version_id pr_id qe_id : ℕ)
    (c : BenchmarkCase) : Type 0 where
  pub published : PublishedResult
  pub in_results : Any (λ r. r ≡ published) db.grading.published_results
  pub result_id : published.id ≡ pr_id
  pub result_tenant : published.tenant_id ≡ req.tenant_id
  pub is_out : published.status ≡ PublishedStatus.published
  pub evaluation : QuestionEvaluation
  pub in_ledger : Any (λ q. q ≡ evaluation) db.grading.question_evaluations
  pub evaluation_id : evaluation.id ≡ qe_id
  pub evaluation_tenant : evaluation.tenant_id ≡ req.tenant_id
  pub same_run : evaluation.evaluation_run_id ≡ published.evaluation_run_id
  pub reviewed :
      (evaluation.workflow_state ≡ QeState.accepted)
      ⊎ (evaluation.workflow_state ≡ QeState.overridden)
  pub final : evaluation.final_human_approved_score ≡ some c.expected_final_marks
  pub maximum : c.expected_max_marks ≡ evaluation.max_mark
  pub replayed : c.replay_fixture.expected_final_marks ≡ c.expected_final_marks
  pub of_result : c.published_result_id ≡ published.id
  pub of_run : c.evaluation_run_id ≡ published.evaluation_run_id
  pub of_ledger : c.source_ledger_hash ≡ published.ledger_snapshot_hash
  pub adjudicated : c.adjudicated_by ≡ some req.user_id
  pub is_case : IsCaseOf req version_id qe_id c

-- A case that the version had, with nothing changed, or a new one, last in the table and counted.
pub record CaseAdded (db after : BenchmarkStore) (req : Request) (version_id pr_id qe_id : ℕ)
    (c : BenchmarkCase) : Type 0 where
  pub version : BenchmarkDatasetVersion
  pub in_versions : Any (λ v. v ≡ version) db.versions
  pub same_id : version.id ≡ version_id
  pub same_tenant : version.tenant_id ≡ req.tenant_id
  pub draft : version.status ≡ VersionStatus.draft
  pub added :
      (Any (λ x. x ≡ c) db.cases × IsCaseOf req version_id qe_id c × (after ≡ db))
      ⊎ (All (λ x. ¬ IsCaseOf req version_id qe_id x) db.cases
          × Gold db req version_id pr_id qe_id c
          × (after.cases ≡ db.cases ++ c ∷ [])
          × (after.versions
              ≡ update
                  (λ v. v.id == version.id)
                  (λ v. record version { case_count = suc version.case_count })
                  db.versions)
          × (after.grading ≡ db.grading))

Eligible-Gold :
    (o : Digests) (db : BenchmarkStore) (req : Request) (version_id pr_id qe_id : ℕ)
    (c : BenchmarkCase)
    → Eligible o db req version_id pr_id qe_id c
    → Gold db req version_id pr_id qe_id c
unfolding find_published find_evaluation new_case build_replay_fixture
Eligible-Gold o db req version_id pr_id qe_id c e =
    let (in_results, result_id, result_tenant) =
      first_keyed (λ (r : PublishedResult). r.id) (λ (r : PublishedResult). r.tenant_id) pr_id
        req.tenant_id db.grading.published_results e.published_found in
    let (in_ledger, evaluation_id, evaluation_tenant) =
      first_keyed (λ (q : QuestionEvaluation). q.id) (λ (q : QuestionEvaluation). q.tenant_id) qe_id
        req.tenant_id db.grading.question_evaluations e.evaluation_found in
    subst (Gold db req version_id pr_id qe_id) (sym e.row) (record {
      published = e.published;
      in_results = in_results;
      result_id = result_id;
      result_tenant = result_tenant;
      is_out = published_status e.published.status e.is_out;
      evaluation = e.evaluation;
      in_ledger = in_ledger;
      evaluation_id = evaluation_id;
      evaluation_tenant = evaluation_tenant;
      same_run = e.same_run;
      reviewed = reviewed_states e.evaluation.workflow_state e.reviewed;
      final = e.final;
      maximum = refl;
      replayed = refl;
      of_result = refl;
      of_run = e.same_run;
      of_ledger = refl;
      adjudicated = refl;
      is_case = record { tenant = refl; version = refl; evaluation = evaluation_id };
    })

draft_status : (s : VersionStatus) → is_locked s ≡ false → s ≡ VersionStatus.draft
unfolding is_locked
draft_status VersionStatus.draft h = refl
draft_status VersionStatus.locked h = cc

module _ (o : Digests) (db after : BenchmarkStore) (req : Request) (version_id pr_id qe_id : ℕ)
    (c : BenchmarkCase) where
  -- An addition that succeeds found a draft of the tenant. It gives the case that the version has
  -- of the evaluation, with nothing changed; or the version had no such case, and the operation
  -- adds one at the end of the table, counts it in the version and leaves the grading tables as
  -- they are. The new case records the final score and the maximum of an evaluation that is
  -- ACCEPTED or OVERRIDDEN and belongs to the run of a result that is PUBLISHED, all of the tenant,
  -- with that result's ledger hash and the caller as the adjudicator.
  pub add_case-CaseAdded :
      add_case o db req version_id pr_id qe_id ≡ ok (after, c)
      → CaseAdded db after req version_id pr_id qe_id c
  unfolding find_version existing_case insert_case save_version record_event
  add_case-CaseAdded h =
      let a = add_case-Added o db after req version_id pr_id qe_id c h in
      let (in_versions, same_id, same_tenant) =
        first_keyed (λ (v : BenchmarkDatasetVersion). v.id)
          (λ (v : BenchmarkDatasetVersion). v.tenant_id) version_id req.tenant_id db.versions
          a.found in
      record {
        version = a.version;
        in_versions = in_versions;
        same_id = same_id;
        same_tenant = same_tenant;
        draft = draft_status a.version.status a.draft;
        added = elim a.added [
          | inl (existing, same) ↦ inl (
            first-Any (case_test req version_id qe_id) db.cases existing,
            case_test-IsCaseOf req version_id qe_id c
                (first-test (case_test req version_id qe_id) db.cases existing),
            same,
          )
          | inr (written, absent, eligible) ↦ inr (
            All-imp (no_case req version_id qe_id) db.cases
                (first-none (case_test req version_id qe_id) db.cases absent),
            subst (λ (n : ℕ). Gold db req n pr_id qe_id c) same_id
                (Eligible-Gold o db req a.version.id pr_id qe_id c eligible),
            ap (λ (s : BenchmarkStore). s.cases) written,
            ap (λ (s : BenchmarkStore). s.versions) written,
            ap (λ (s : BenchmarkStore). s.grading) written,
          )
        ];
      }
