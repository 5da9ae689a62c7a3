-- ===== src/Benchmark/Locked/Kept.antt =====
-- No write of the benchmark to datasets and drafts changes a locked version, its cases, or a table
-- of grading.
use mathlib.Core.Path.{subst}
use eduvijna_paper_evaluatio.Benchmark.Tables.{BenchmarkPayload}
use eduvijna_paper_evaluatio.Benchmark.Candidates.{is_none}
use eduvijna_paper_evaluatio.Benchmark.Datasets.{dataset_with_code, find_dataset, find_run}
use eduvijna_paper_evaluatio.Prelude.{
  ℕ, ◌≡◌, ◌≢◌, refl, sym, ◌∙◌, true, false, Bool, not, ◌==◌, ==_iff, Option, some, List, [], ◌∷◌,
  ◌++◌, String, ok, All, Any, first-Any, first-test, &&-eq-true, ◌&&◌, guard, require, >>=-eq-ok,
  ok-injective, require-eq-ok, guard-eq-ok, arith,
}
use eduvijna_paper_evaluatio.Grading.Store.{Request}
use eduvijna_paper_evaluatio.Benchmark.Tables.{
  BenchmarkCode, Thresholds, BenchmarkDataset, BenchmarkDatasetVersion, BenchmarkCase, GateResult,
  BenchmarkStore,
}
use eduvijna_paper_evaluatio.Benchmark.Datasets.{
  find_version, find_dataset, is_locked, record_event, create_dataset, create_version, new_version,
}
use eduvijna_paper_evaluatio.Benchmark.Cases.{find_case, insert_case, delete_case, remove_case}
use eduvijna_paper_evaluatio.Benchmark.Gate.{evaluate_release_gate}
use eduvijna_paper_evaluatio.Benchmark.Locked.{
  select, IsLocked, found_version, other_version, save_version-IsLocked, add_version-IsLocked,
  add_case-IsLocked, delete-IsLocked,
}

-- The tables of grading are as they were, and so are each locked version and its cases.
pub record Kept (db after : BenchmarkStore) : Type 0 where
  pub grading : after.grading ≡ db.grading
  pub stays :
      (v : BenchmarkDatasetVersion) (cs : List BenchmarkCase)
      → IsLocked v cs db
      → IsLocked v cs after

pub Kept-refl : (db : BenchmarkStore) → Kept db db
Kept-refl db = record { grading = refl; stays = λ v cs l. l }

-- the tables that `IsLocked` is about are as they were
pub same_tables :
    {db after : BenchmarkStore}
    → after.grading ≡ db.grading
    → after.versions ≡ db.versions
    → after.cases ≡ db.cases
    → Kept db after
same_tables g e f = record {
  grading = g;
  stays = λ v cs l. record {
    locked = l.locked;
    here = rw e l.here;
    only = rw e l.only;
    kept = rw f l.kept;
    one_version = rw f l.one_version;
  };
}

-- An event changes none of them.
pub record_event-Kept :
    (req : Request) (id : ℕ) (action : String) (payload : BenchmarkPayload)
    {db after : BenchmarkStore}
    → Kept db after
    → Kept db (record_event req id action payload after)
unfolding record_event
record_event-Kept req id action payload k = record {
  grading = k.grading;
  stays = λ v cs l.
      let m = k.stays v cs l in
      record {
        locked = m.locked;
        here = m.here;
        only = m.only;
        kept = m.kept;
        one_version = m.one_version;
      };
}

pub not-true : {b : Bool} → not b ≡ true → b ≡ false
not-true h = ground arith

found_case :
    (db : BenchmarkStore) (req : Request) (version_id case_id : ℕ) {c : BenchmarkCase}
    → find_case db req version_id case_id ≡ some c
    → Any (λ x. x ≡ c) db.cases × (c.dataset_version_id ≡ version_id)
unfolding find_case
found_case db req version_id case_id {c} h =
    let test = λ (x : BenchmarkCase).
      x.id == case_id && (x.tenant_id == req.tenant_id && x.dataset_version_id == version_id) in
    let (same, rest) = &&-eq-true (c.id == case_id) _ (first-test test db.cases h) in
    let (tenant, of) = &&-eq-true (c.tenant_id == req.tenant_id) _ rest in
    (first-Any test db.cases h, (==_iff _ _).0 of)

module _ (db : BenchmarkStore) (req : Request) where
  pub insert_case-Kept :
      (w : BenchmarkDatasetVersion) (c : BenchmarkCase)
      → Any (λ x. x ≡ w) db.versions
      → is_locked w.status ≡ false
      → All (λ (x : BenchmarkCase). x.id ≢ c.id) db.cases
      → c.dataset_version_id ≡ w.id
      → Kept db (insert_case db req w c)
  unfolding insert_case
  insert_case-Kept w c m draft fresh same = record_event-Kept req _ _ _ (record {
    grading = refl;
    stays = λ v cs l.
        let other = other_version v cs db w l m draft in
        save_version-IsLocked v cs (record db { cases = db.cases ++ c ∷ [] }) _ other
          (add_case-IsLocked v cs db c fresh (λ e. other (sym same ∙ e)) l);
  })

  pub delete_case-Kept :
      (w : BenchmarkDatasetVersion) (c : BenchmarkCase)
      → Any (λ x. x ≡ w) db.versions
      → is_locked w.status ≡ false
      → Any (λ x. x ≡ c) db.cases
      → c.dataset_version_id ≡ w.id
      → Kept db (delete_case db req w c)
  unfolding delete_case
  delete_case-Kept w c m draft n same = record_event-Kept req _ _ _ (record {
    grading = refl;
    stays = λ v cs l.
        let other = other_version v cs db w l m draft in
        save_version-IsLocked v cs
          (record db { cases = select (λ (x : BenchmarkCase). not (x.id == c.id)) db.cases }) _
          other (delete-IsLocked v cs db c n (λ e. other (sym same ∙ e)) l);
  })

  pub create_dataset-Kept :
      (code title : String) (description : Option String) (after : BenchmarkStore)
      (d : BenchmarkDataset)
      → create_dataset db req code title description ≡ ok (after, d)
      → Kept db after
  unfolding create_dataset
  create_dataset-Kept code title description after d h =
      let (u, unused, h₁) =
        >>=-eq-ok
          (guard (is_none (dataset_with_code db req code)) BenchmarkCode.dataset_code_conflict) _
          h in
      subst (λ (p : BenchmarkStore × BenchmarkDataset). Kept db p.0) (ok-injective h₁)
        (same_tables refl refl refl)

  pub create_version-Kept :
      (dataset_id : ℕ) (profile : Option Thresholds) (after : BenchmarkStore)
      (v : BenchmarkDatasetVersion)
      → All (λ (x : BenchmarkDatasetVersion). x.id ≢ req.uuid4 0) db.versions
      → create_version db req dataset_id profile ≡ ok (after, v)
      → Kept db after
  unfolding create_version new_version
  create_version-Kept dataset_id profile after v fresh h =
      let (d, found, h₁) =
        >>=-eq-ok (require (find_dataset db req dataset_id) BenchmarkCode.not_found) _ h in
      subst (λ (p : BenchmarkStore × BenchmarkDatasetVersion). Kept db p.0) (ok-injective h₁)
        (record_event-Kept req _ _ _
          (record { grading = refl; stays = λ w cs l. add_version-IsLocked w cs db _ fresh l }))

  pub remove_case-Kept :
      (version_id case_id : ℕ) (after : BenchmarkStore)
      → remove_case db req version_id case_id ≡ ok after
      → Kept db after
  unfolding remove_case
  remove_case-Kept version_id case_id after h =
      let (w, found, h₁) =
        >>=-eq-ok (require (find_version db req version_id) BenchmarkCode.not_found) _ h in
      let (u, draft, h₂) =
        >>=-eq-ok (guard (not (is_locked w.status)) BenchmarkCode.version_locked) _ h₁ in
      let (c, found', h₃) =
        >>=-eq-ok (require (find_case db req version_id case_id) BenchmarkCode.not_found) _ h₂ in
      let (m, id, tenant) = found_version db req version_id (require-eq-ok _ _ found) in
      let (n, of) = found_case db req version_id case_id (require-eq-ok _ _ found') in
      subst (Kept db) (ok-injective h₃)
        (delete_case-Kept w c m (not-true (guard-eq-ok _ _ draft)) n (of ∙ sym id))

  pub evaluate_release_gate-Kept :
      (run_id : ℕ) (after : BenchmarkStore) (r : GateResult)
      → evaluate_release_gate db req run_id ≡ ok (after, r)
      → Kept db after
  unfolding evaluate_release_gate
  evaluate_release_gate-Kept run_id after r h =
      let (run, found, h₁) =
        >>=-eq-ok (require (find_run db req run_id) BenchmarkCode.not_found) _ h in
      subst (λ (p : BenchmarkStore × GateResult). Kept db p.0) (ok-injective h₁)
        (same_tables refl refl refl)
