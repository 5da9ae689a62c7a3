-- ===== src/Benchmark/Locked/ForGood.antt =====
-- What later requests find of a version that was locked.
use mathlib.Core.Path.{subst}
use eduvijna_paper_evaluatio.Prelude.{◌∙◌}
use eduvijna_paper_evaluatio.Benchmark.Registry.{Settings}
use eduvijna_paper_evaluatio.Benchmark.Locked.History.{BenchmarkHistory, history-IsLocked}
use eduvijna_paper_evaluatio.Prelude.{
  ℕ, ◌≡◌, refl, ap, true, ◌==◌, ◌&&◌, ==_iff, ==_refl, Option, some, List, String, ok, select,
  arith, err, &&-eq-true,
}
use eduvijna_paper_evaluatio.Grading.Store.{Request}
use eduvijna_paper_evaluatio.Benchmark.Tables.{
  BenchmarkCode, VersionStatus, BenchmarkDatasetVersion, BenchmarkCase, BenchmarkStore,
}
use eduvijna_paper_evaluatio.Benchmark.Datasets.{cases_of, find_version}
use eduvijna_paper_evaluatio.Benchmark.Evidence.{Digests}
use eduvijna_paper_evaluatio.Benchmark.Cases.{
  lock_loaded, version_content_hash, has_hash, add_case, remove_case, lock_version,
}
use eduvijna_paper_evaluatio.Benchmark.Locked.{sym, IsLocked, of_version}
use eduvijna_paper_evaluatio.Benchmark.Locked.Over.{
  Keyed, first-only, cases_of-kept, is_locked-eq, has_hash_self, LockedOver,
  lock_version-LockedOver,
}

found_locked :
    (db : BenchmarkStore) (req : Request) (v : BenchmarkDatasetVersion) (cs : List BenchmarkCase)
    → IsLocked v cs db
    → v.tenant_id ≡ req.tenant_id
    → find_version db req v.id ≡ some v
unfolding find_version
found_locked db req v cs l tenant =
    first-only (λ x. x.id == v.id && x.tenant_id == req.tenant_id) v db.versions
      (λ x h. (==_iff x.id v.id).0 (&&-eq-true (x.id == v.id) _ h).0)
      (rw tenant (ground (arith, ==_refl v.id, ==_refl req.tenant_id))) l.here l.only

-- What a request about the version is answered: the cases of the lock, refusals of every change,
-- and the same version for another lock.
pub record ForGood (o : Digests) (locked later : BenchmarkStore) (req req' : Request)
    (version_id : ℕ) (v : BenchmarkDatasetVersion) : Type 0 where
  pub same_cases : cases_of later req' version_id ≡ cases_of locked req version_id
  pub same_lock : lock_version o later req' version_id ≡ ok (later, v)
  pub no_addition :
      (pr_id qe_id : ℕ)
      → add_case o later req' version_id pr_id qe_id ≡ err BenchmarkCode.version_locked
  pub no_removal :
      (case_id : ℕ) → remove_case later req' version_id case_id ≡ err BenchmarkCode.version_locked

lock_again :
    (o : Digests) (db : BenchmarkStore) (req : Request) (v : BenchmarkDatasetVersion)
    (cases : List BenchmarkCase) (status : VersionStatus)
    → status ≡ VersionStatus.locked
    → has_hash v.content_hash (version_content_hash o v cases) ≡ true
    → lock_loaded o db req v cases status ≡ ok (db, v)
unfolding lock_loaded
lock_again o db req v cases VersionStatus.locked e h = rw h refl
lock_again o db req v cases VersionStatus.draft e h = cc

module _ (o : Digests) (locked later : BenchmarkStore) (req req' : Request)
    (v : BenchmarkDatasetVersion) (over : LockedOver o req v.id v locked)
    (l : IsLocked v (select (of_version v.id) locked.cases) later)
    (tenant : req'.tenant_id ≡ req.tenant_id) where
  same_cases : cases_of later req' v.id ≡ cases_of locked req v.id
  same_cases =
      cases_of-kept later req' v.id
      ∙ (ap
            (λ (cs : List BenchmarkCase).
              select (λ (c : BenchmarkCase). c.tenant_id == req'.tenant_id) cs)
            l.kept
          ∙ (ap
                (λ (t : ℕ).
                  select (λ (c : BenchmarkCase). c.tenant_id == t)
                    (select (of_version v.id) locked.cases))
                tenant
              ∙ sym (cases_of-kept locked req v.id)))

  same_hash : has_hash v.content_hash (version_content_hash o v (cases_of later req' v.id)) ≡ true
  same_hash =
      ap (λ (h : Option String). has_hash h (version_content_hash o v (cases_of later req' v.id)))
        (over.hashed
          ∙ ap (λ (cs : List BenchmarkCase). some (version_content_hash o v cs)) (sym same_cases))
      ∙ has_hash_self (version_content_hash o v (cases_of later req' v.id))

  still_found : find_version later req' v.id ≡ some v
  still_found = found_locked later req' v _ l (over.tenant ∙ sym tenant)

  stays-ForGood : ForGood o locked later req req' v.id v
  unfolding lock_version add_case remove_case
  stays-ForGood = record {
    same_cases = same_cases;
    same_lock =
        rw still_found
          (lock_again o later req' v _ v.status (is_locked-eq v.status l.locked) same_hash);
    no_addition = λ pr_id qe_id. rw (still_found, l.locked) refl;
    no_removal = λ case_id. rw (still_found, l.locked) refl;
  }

-- A lock is for good. Where identifiers are primary keys, after a lock that succeeds and any
-- history of the benchmark, requests of the tenant find the cases of the lock and no other, may
-- neither add nor remove one, and get the same version, with nothing changed, for another lock.
pub lock_version-ForGood :
    (o : Digests) (settings : Settings) (db locked later : BenchmarkStore) (req req' : Request)
    (version_id : ℕ) (v : BenchmarkDatasetVersion)
    → Keyed db
    → lock_version o db req version_id ≡ ok (locked, v)
    → BenchmarkHistory o settings locked later
    → req'.tenant_id ≡ req.tenant_id
    → ForGood o locked later req req' version_id v
lock_version-ForGood o settings db locked later req req' version_id v keys h history tenant =
    let over = lock_version-LockedOver o req db version_id locked v keys h in
    let over' = subst (λ (id : ℕ). LockedOver o req id v locked) (sym over.is_version) over in
    subst (λ (id : ℕ). ForGood o locked later req req' id v) over.is_version
      (stays-ForGood o locked later req req' v over'
        (history-IsLocked o settings locked v _ history over.is_locked) tenant)
