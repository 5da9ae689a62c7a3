-- ===== src/Benchmark/Locked/Over.antt =====
-- What a lock leaves, and queries over it.
use mathlib.Core.Path.{subst}
use eduvijna_paper_evaluatio.Prelude.{
  require-eq-ok, require, ℕ, ◌≡◌, refl, ap, true, Bool, not, ◌==◌, ◌&&◌, ==_iff, ==_refl,
  Bool-cases, inl, inr, Option, some, none, List, [], ◌∷◌, String, ok, All, Any, here, there,
  select, update, first, length, eq_iff, guard, >>=-eq-ok, ok-injective, guard-eq-ok, arith,
  All-of_Any, Any-update,
}
use eduvijna_paper_evaluatio.Grading.Store.{Request}
use eduvijna_paper_evaluatio.Benchmark.Tables.{
  BenchmarkCode, VersionStatus, BenchmarkDatasetVersion, BenchmarkCase, BenchmarkStore,
}
use eduvijna_paper_evaluatio.Benchmark.Datasets.{
  cases_of, is_locked, save_version, record_event, find_version,
}
use eduvijna_paper_evaluatio.Benchmark.Evidence.{Digests}
use eduvijna_paper_evaluatio.Benchmark.Cases.{
  lock_loaded, locked_version, version_content_hash, has_hash, lock_version,
}
use eduvijna_paper_evaluatio.Benchmark.Locked.{found_version, IsLocked, of_version, OneVersion}

-- Identifiers are primary keys.
pub record Keyed (db : BenchmarkStore) : Type 0 where
  pub versions :
      (v w : BenchmarkDatasetVersion)
      → Any (λ x. x ≡ v) db.versions
      → Any (λ x. x ≡ w) db.versions
      → v.id ≡ w.id
      → v ≡ w
  pub cases : OneVersion db.cases

all_updated :
    (w : BenchmarkDatasetVersion) (xs : List BenchmarkDatasetVersion)
    → All
        (λ (x : BenchmarkDatasetVersion). x.id ≡ w.id → x ≡ w)
        (update (λ x. x.id == w.id) (λ x. w) xs)
unfolding update
all_updated w [] = tt
all_updated w (x ∷ xs) = elim (Bool-cases (x.id == w.id)) [
  | inl hit ↦ rw hit ((λ e. refl), all_updated w xs)
  | inr miss ↦ rw miss ((λ e. absurd (ground (arith, ==_iff x.id w.id))), all_updated w xs)
]

pub first-only :
    (test : BenchmarkDatasetVersion → Bool) (v : BenchmarkDatasetVersion)
    (xs : List BenchmarkDatasetVersion)
    → ((x : BenchmarkDatasetVersion) → test x ≡ true → x.id ≡ v.id)
    → test v ≡ true
    → Any (λ x. x ≡ v) xs
    → All (λ (x : BenchmarkDatasetVersion). x.id ≡ v.id → x ≡ v) xs
    → first test xs ≡ some v
unfolding first
first-only test v [] f hit m h = elim m [ ]
first-only test v (x ∷ xs) f hit (here e) (o, os) = rw (e, hit) refl
first-only test v (x ∷ xs) f hit (there m) (o, os) = elim (Bool-cases (test x)) [
  | inl same ↦ rw same (ap some (o (f x same)))
  | inr other ↦ rw other (first-only test v xs f hit m os)
]

select_both :
    (p q : BenchmarkCase → Bool) (xs : List BenchmarkCase)
    → select (λ c. p c && q c) xs ≡ select p (select q xs)
unfolding select
select_both p q [] = refl
select_both p q (x ∷ xs) = elim (Bool-cases (q x)) [
  | inl hit ↦ elim (Bool-cases (p x)) [
    | inl hit' ↦ rw (hit, hit', select_both p q xs) refl
    | inr miss ↦ rw (miss, hit, miss) (select_both p q xs)
  ]
  | inr miss ↦ elim (Bool-cases (p x)) [
    | inl hit ↦ rw (hit, miss) (select_both p q xs)
    | inr miss' ↦ rw (miss', miss) (select_both p q xs)
  ]
]

pub cases_of-kept :
    (db : BenchmarkStore) (req : Request) (id : ℕ)
    → cases_of db req id
      ≡ select
          (λ (c : BenchmarkCase). c.tenant_id == req.tenant_id)
          (select (of_version id) db.cases)
unfolding cases_of
cases_of-kept db req id =
    select_both (λ (c : BenchmarkCase). c.tenant_id == req.tenant_id) (of_version id) db.cases

pub is_locked-eq : (s : VersionStatus) → is_locked s ≡ true → s ≡ VersionStatus.locked
unfolding is_locked
is_locked-eq VersionStatus.locked h = refl
is_locked-eq VersionStatus.draft h = cc

has_hash-eq : (h : Option String) (hash : String) → has_hash h hash ≡ true → h ≡ some hash
unfolding has_hash
has_hash-eq none hash e = cc
has_hash-eq (some h) hash e = ap some ((eq_iff h hash).0 e)

pub has_hash_self : (hash : String) → has_hash (some hash) hash ≡ true
unfolding has_hash
has_hash_self hash = (eq_iff hash hash).1 refl

module _ (o : Digests) (req : Request) where
  -- The version is locked over its cases, whose hash it has.
  pub record LockedOver (version_id : ℕ) (v : BenchmarkDatasetVersion) (db : BenchmarkStore)
      : Type 0 where
    pub is_version : v.id ≡ version_id
    pub tenant : v.tenant_id ≡ req.tenant_id
    pub is_locked : IsLocked v (select (of_version v.id) db.cases) db
    pub hashed : v.content_hash ≡ some (version_content_hash o v (cases_of db req version_id))

  lock_loaded-LockedOver :
      (db : BenchmarkStore) (version_id : ℕ) (w : BenchmarkDatasetVersion) (status : VersionStatus)
      (after : BenchmarkStore) (v : BenchmarkDatasetVersion)
      → Keyed db
      → Any (λ x. x ≡ w) db.versions
      → w.id ≡ version_id
      → w.tenant_id ≡ req.tenant_id
      → w.status ≡ status
      → lock_loaded o db req w (cases_of db req version_id) status ≡ ok (after, v)
      → LockedOver version_id v after
  unfolding lock_loaded locked_version is_locked save_version record_event version_content_hash
      cases_of
  lock_loaded-LockedOver db version_id w VersionStatus.locked after v keys m id tenant e h =
      let (u, same, h₁) =
        >>=-eq-ok
          (guard (has_hash w.content_hash (version_content_hash o w (cases_of db req version_id)))
            BenchmarkCode.version_locked)
          _ h in
      subst (λ (p : BenchmarkStore × BenchmarkDatasetVersion). LockedOver version_id p.1 p.0)
        (ok-injective h₁)
        (record {
          is_version = id;
          tenant = tenant;
          is_locked = record {
            locked = ap is_locked e;
            here = m;
            only =
                All-of_Any (λ (x : BenchmarkDatasetVersion). x.id ≡ w.id → x ≡ w) db.versions
                  (λ x n same'. keys.versions x w n m same');
            kept = refl;
            one_version = keys.cases;
          };
          hashed = has_hash-eq w.content_hash _ (guard-eq-ok _ _ same);
        })
  lock_loaded-LockedOver db version_id w VersionStatus.draft after v keys m id tenant e h =
      let (u, some', h₁) =
        >>=-eq-ok
          (guard (not (length (cases_of db req version_id) == 0)) BenchmarkCode.version_empty) _
          h in
      let new = locked_version o req w (cases_of db req version_id) in
      subst (λ (p : BenchmarkStore × BenchmarkDatasetVersion). LockedOver version_id p.1 p.0)
        (ok-injective h₁)
        (record {
          is_version = id;
          tenant = tenant;
          is_locked = record {
            locked = refl;
            here =
                Any-update (λ (x : BenchmarkDatasetVersion). x.id == w.id) new db.versions
                  (==_refl w.id) m;
            only = all_updated new db.versions;
            kept = refl;
            one_version = keys.cases;
          };
          hashed = refl;
        })

  pub lock_version-LockedOver :
      (db : BenchmarkStore) (version_id : ℕ) (after : BenchmarkStore) (v : BenchmarkDatasetVersion)
      → Keyed db
      → lock_version o db req version_id ≡ ok (after, v)
      → LockedOver version_id v after
  unfolding lock_version
  lock_version-LockedOver db version_id after v keys h =
      let (w, found, h₁) =
        >>=-eq-ok (require (find_version db req version_id) BenchmarkCode.not_found) _ h in
      let (m, id, tenant) = found_version db req version_id (require-eq-ok _ _ found) in
      lock_loaded-LockedOver db version_id w w.status after v keys m id tenant refl h₁
