-- ===== src/Benchmark/Cases/Added.antt =====
-- How an addition of a case goes, by its steps.
use eduvijna_paper_evaluatio.Prelude.Int.{ℤ}
use eduvijna_paper_evaluatio.Prelude.{
  ℕ, ◌≡◌, ◌⊎◌, inl, inr, sym, ap, ◌∙◌, true, false, not, ◌==◌, ==_iff, Option, some, none, ok,
  guard, require, >>=-eq-ok, ok-injective, require-eq-ok, guard-eq-ok, arith, refl,
}
use eduvijna_paper_evaluatio.Grading.Ledger.{QuestionEvaluation, is_reviewed}
use eduvijna_paper_evaluatio.Grading.Published.{PublishedResult}
use eduvijna_paper_evaluatio.Grading.Grievance.{is_published}
use eduvijna_paper_evaluatio.Grading.Store.{Request}
use eduvijna_paper_evaluatio.Benchmark.Tables.{
  BenchmarkCode, BenchmarkDatasetVersion, BenchmarkCase, BenchmarkStore,
}
use eduvijna_paper_evaluatio.Benchmark.Datasets.{find_version, is_locked}
use eduvijna_paper_evaluatio.Benchmark.Evidence.{Digests, new_case}
use eduvijna_paper_evaluatio.Benchmark.Cases.{
  find_published, find_evaluation, existing_case, make_case, insert_case, add_or_reuse, add_case,
}

-- The case records the final score that a reviewed evaluation of a PUBLISHED result has.
pub record Eligible (o : Digests) (db : BenchmarkStore) (req : Request) (version_id pr_id qe_id : ℕ)
    (c : BenchmarkCase) : Type 0 where
  pub published : PublishedResult
  pub evaluation : QuestionEvaluation
  pub score : ℤ
  pub published_found : find_published db req pr_id ≡ some published
  pub is_out : is_published published.status ≡ true
  pub evaluation_found : find_evaluation db req qe_id ≡ some evaluation
  pub same_run : evaluation.evaluation_run_id ≡ published.evaluation_run_id
  pub reviewed : is_reviewed evaluation.workflow_state ≡ true
  pub final : evaluation.final_human_approved_score ≡ some score
  pub row : c ≡ new_case o db req version_id published evaluation score

module _ (o : Digests) (db : BenchmarkStore) (req : Request) where
  pub make_case-Eligible :
      (version_id pr_id qe_id : ℕ) (c : BenchmarkCase)
      → make_case o db req version_id pr_id qe_id ≡ ok c
      → Eligible o db req version_id pr_id qe_id c
  unfolding make_case
  make_case-Eligible version_id pr_id qe_id c h =
      let (published, found, h₁) =
        >>=-eq-ok (require (find_published db req pr_id) BenchmarkCode.not_found) _ h in
      let (u, out, h₂) =
        >>=-eq-ok (guard (is_published published.status) BenchmarkCode.case_ineligible) _ h₁ in
      let (qe, found', h₃) =
        >>=-eq-ok (require (find_evaluation db req qe_id) BenchmarkCode.not_found) _ h₂ in
      let (v, run, h₄) =
        >>=-eq-ok
          (guard (qe.evaluation_run_id == published.evaluation_run_id)
            BenchmarkCode.case_ineligible)
          _ h₃ in
      let (w, reviewed, h₅) =
        >>=-eq-ok (guard (is_reviewed qe.workflow_state) BenchmarkCode.case_ineligible) _ h₄ in
      let (score, final, h₆) =
        >>=-eq-ok (require qe.final_human_approved_score BenchmarkCode.case_ineligible) _ h₅ in
      record {
        published = published;
        evaluation = qe;
        score = score;
        published_found = require-eq-ok _ _ found;
        is_out = guard-eq-ok _ _ out;
        evaluation_found = require-eq-ok _ _ found';
        same_run = (==_iff _ _).0 (guard-eq-ok _ _ run);
        reviewed = guard-eq-ok _ _ reviewed;
        final = require-eq-ok _ _ final;
        row = sym (ok-injective h₆);
      }

  pub make_case-row :
      (version_id pr_id qe_id : ℕ) (c : BenchmarkCase)
      → make_case o db req version_id pr_id qe_id ≡ ok c
      → (c.id ≡ req.uuid4 0) × (c.dataset_version_id ≡ version_id)
  unfolding new_case
  make_case-row version_id pr_id qe_id c h =
      let row = (make_case-Eligible version_id pr_id qe_id c h).row in
      (ap (λ (x : BenchmarkCase). x.id) row, ap (λ (x : BenchmarkCase). x.dataset_version_id) row)

-- How the operation went, by its parts.
pub record Added (o : Digests) (db after : BenchmarkStore) (req : Request)
    (version_id pr_id qe_id : ℕ) (c : BenchmarkCase) : Type 0 where
  pub version : BenchmarkDatasetVersion
  pub found : find_version db req version_id ≡ some version
  pub draft : is_locked version.status ≡ false
  pub added :
      ((existing_case db req version_id qe_id ≡ some c) × (after ≡ db))
      ⊎ ((after ≡ insert_case db req version c)
          × (existing_case db req version_id qe_id ≡ none)
          × Eligible o db req version.id pr_id qe_id c)

module _ (o : Digests) (db after : BenchmarkStore) (req : Request) (version_id pr_id qe_id : ℕ)
    (c : BenchmarkCase) where
  pub add_or_reuse-eq :
      (version : BenchmarkDatasetVersion) (existing : Option BenchmarkCase)
      → add_or_reuse o db req version pr_id qe_id existing ≡ ok (after, c)
      → ((existing ≡ some c) × (after ≡ db))
        ⊎ ((after ≡ insert_case db req version c)
            × (existing ≡ none)
            × (make_case o db req version.id pr_id qe_id ≡ ok c))
  unfolding add_or_reuse
  add_or_reuse-eq version (some existing) h =
      let e = ok-injective h in
      inl (
        ap (λ (p : BenchmarkStore × BenchmarkCase). some p.1) e,
        sym (ap (λ (p : BenchmarkStore × BenchmarkCase). p.0) e),
      )
  add_or_reuse-eq version none h =
      let (made, m, h₁) = >>=-eq-ok (make_case o db req version.id pr_id qe_id) _ h in
      let e = ok-injective h₁ in
      let same : made ≡ c = ap (λ (p : BenchmarkStore × BenchmarkCase). p.1) e in
      inr (
        sym (ap (λ (p : BenchmarkStore × BenchmarkCase). p.0) e)
            ∙ ap (insert_case db req version) same,
        refl,
        m ∙ ap ok same,
      )

  pub add_case-Added :
      add_case o db req version_id pr_id qe_id ≡ ok (after, c)
      → Added o db after req version_id pr_id qe_id c
  unfolding add_case
  add_case-Added h =
      let (version, found, h₁) =
        >>=-eq-ok (require (find_version db req version_id) BenchmarkCode.not_found) _ h in
      let (u, draft, h₂) =
        >>=-eq-ok (guard (not (is_locked version.status)) BenchmarkCode.version_locked) _ h₁ in
      let unlocked = guard-eq-ok _ _ draft in
      record {
        version = version;
        found = require-eq-ok _ _ found;
        draft = ground arith;
        added = elim (add_or_reuse-eq version (existing_case db req version_id qe_id) h₂) [
          | inl same ↦ inl same
          | inr new ↦ inr (new.0, new.1, make_case-Eligible o db req version.id pr_id qe_id c new.2)
        ];
      }
