-- ===== src/Benchmark/Locked.antt =====
-- A locked version and its cases, and what the writes of benchmark.py leave of them.
pub mod Kept
pub mod Operations
pub mod History
pub mod Over
pub mod ForGood
use eduvijna_paper_evaluatio.Prelude.{
  ℕ, ◌≡◌, ◌≢◌, refl, sym, ap, ◌∙◌, true, false, Bool, not, ◌==◌, ◌&&◌, ==_iff, Bool-cases, inl, inr,
  some, List, [], ◌∷◌, ◌++◌, All, All-Any, All-append, All-update, All-of_Any, Any, Any-update_miss,
  Any-append_left, Any-append_one, select-Any, select-append_one, select-select, select, first-Any,
  first-test, &&-eq-true, arith,
}
use eduvijna_paper_evaluatio.Grading.Store.{Request}
use eduvijna_paper_evaluatio.Benchmark.Tables.{
  BenchmarkDatasetVersion, BenchmarkCase, BenchmarkStore,
}
use eduvijna_paper_evaluatio.Benchmark.Datasets.{find_version, is_locked, save_version}

-- Cases with one identifier are of one version: identifiers are primary keys.
abbrev pub OneVersion : List BenchmarkCase → Type 0
OneVersion cases =
    (c d : BenchmarkCase)
    → Any (λ x. x ≡ c) cases
    → Any (λ x. x ≡ d) cases
    → c.id ≡ d.id
    → c.dataset_version_id ≡ d.dataset_version_id

abbrev pub of_version : ℕ → BenchmarkCase → Bool
of_version id c = c.dataset_version_id == id

-- The version is LOCKED and is the only row with its identifier, and these are its cases.
pub record IsLocked (v : BenchmarkDatasetVersion) (cs : List BenchmarkCase) (db : BenchmarkStore)
    : Type 0 where
  pub locked : is_locked v.status ≡ true
  pub here : Any (λ x. x ≡ v) db.versions
  pub only : All (λ (x : BenchmarkDatasetVersion). x.id ≡ v.id → x ≡ v) db.versions
  pub kept : select (of_version v.id) db.cases ≡ cs
  pub one_version : OneVersion db.cases

-- A version that a query returns.
pub found_version :
    (db : BenchmarkStore) (req : Request) (id : ℕ) {v : BenchmarkDatasetVersion}
    → find_version db req id ≡ some v
    → Any (λ x. x ≡ v) db.versions × (v.id ≡ id) × (v.tenant_id ≡ req.tenant_id)
unfolding find_version
found_version db req id {v} h =
    let test = λ (x : BenchmarkDatasetVersion). x.id == id && x.tenant_id == req.tenant_id in
    let (same, tenant) = &&-eq-true (v.id == id) _ (first-test test db.versions h) in
    (first-Any test db.versions h, (==_iff _ _).0 same, (==_iff _ _).0 tenant)

module _ (v : BenchmarkDatasetVersion) (cs : List BenchmarkCase) where
  -- A draft is another version.
  pub other_version :
      (db : BenchmarkStore) (w : BenchmarkDatasetVersion)
      → IsLocked v cs db
      → Any (λ x. x ≡ w) db.versions
      → is_locked w.status ≡ false
      → w.id ≢ v.id
  other_version db w l m draft same =
      let one =
        All-Any (λ (x : BenchmarkDatasetVersion). x.id ≡ v.id → x ≡ v) w db.versions l.only m
          same in
      cc (sym draft ∙ (ap (λ (x : BenchmarkDatasetVersion). is_locked x.status) one ∙ l.locked))

  pub save_version-IsLocked :
      (db : BenchmarkStore) (w : BenchmarkDatasetVersion)
      → w.id ≢ v.id
      → IsLocked v cs db
      → IsLocked v cs (save_version w db)
  unfolding save_version
  save_version-IsLocked db w other l = record {
    locked = l.locked;
    here =
        Any-update_miss (λ (x : BenchmarkDatasetVersion). x.id == w.id) w db.versions
          (ground (arith, ==_iff v.id w.id)) l.here;
    only =
        All-update (λ (x : BenchmarkDatasetVersion). x.id ≡ v.id → x ≡ v) (λ x. x.id == w.id)
          {x = w} db.versions (λ e. absurd (other e)) l.only;
    kept = l.kept;
    one_version = l.one_version;
  }

  -- a new version
  pub add_version-IsLocked :
      (db : BenchmarkStore) (w : BenchmarkDatasetVersion)
      → All (λ (x : BenchmarkDatasetVersion). x.id ≢ w.id) db.versions
      → IsLocked v cs db
      → IsLocked v cs (record db { versions = db.versions ++ w ∷ [] })
  add_version-IsLocked db w fresh l = record {
    locked = l.locked;
    here = Any-append_left (w ∷ []) l.here;
    only =
        All-append (λ (x : BenchmarkDatasetVersion). x.id ≡ v.id → x ≡ v) db.versions (w ∷ [])
          l.only
          (
            (λ e. absurd (
                All-Any (λ (x : BenchmarkDatasetVersion). x.id ≢ w.id) v db.versions fresh l.here
                  (sym e))),
            tt,
          );
    kept = l.kept;
    one_version = l.one_version;
  }

  -- a new case of another version
  pub add_case-IsLocked :
      (db : BenchmarkStore) (c : BenchmarkCase)
      → All (λ (x : BenchmarkCase). x.id ≢ c.id) db.cases
      → c.dataset_version_id ≢ v.id
      → IsLocked v cs db
      → IsLocked v cs (record db { cases = db.cases ++ c ∷ [] })
  add_case-IsLocked db c fresh other l =
      let new = λ (x : BenchmarkCase) (m : Any (λ y. y ≡ x) db.cases).
        All-Any (λ (y : BenchmarkCase). y.id ≢ c.id) x db.cases fresh m in
      record {
        locked = l.locked;
        here = l.here;
        only = l.only;
        kept =
            select-append_one (of_version v.id) c db.cases
              (ground (arith, ==_iff c.dataset_version_id v.id))
            ∙ l.kept;
        one_version = λ a b m n same. elim (Any-append_one db.cases m) [
          | inl k ↦ elim (Any-append_one db.cases n) [
            | inl j ↦ l.one_version a b k j same
            | inr e ↦ absurd (new a k (same ∙ sym (ap (λ (x : BenchmarkCase). x.id) e)))
          ]
          | inr e ↦ elim (Any-append_one db.cases n) [
            | inl j ↦ absurd (new b j (sym same ∙ sym (ap (λ (x : BenchmarkCase). x.id) e)))
            | inr f ↦ ap (λ (x : BenchmarkCase). x.dataset_version_id) (sym e ∙ f)
          ]
        ];
      }

  -- a case of another version is deleted
  pub delete-IsLocked :
      (db : BenchmarkStore) (c : BenchmarkCase)
      → Any (λ x. x ≡ c) db.cases
      → c.dataset_version_id ≢ v.id
      → IsLocked v cs db
      → IsLocked v cs
          (record db { cases = select (λ (x : BenchmarkCase). not (x.id == c.id)) db.cases })
  delete-IsLocked db c m other l =
      let kept_rows = λ (x : BenchmarkCase). not (x.id == c.id) in
      record {
        locked = l.locked;
        here = l.here;
        only = l.only;
        kept =
            select-select (of_version v.id) kept_rows db.cases (
              All-of_Any (λ (x : BenchmarkCase). of_version v.id x ≡ true → kept_rows x ≡ true)
                db.cases
                (λ x n of. elim (Bool-cases (x.id == c.id)) [
                  | inl same ↦ absurd (
                      other (
                        sym (l.one_version x c n m ((==_iff _ _).0 same))
                        ∙ (==_iff x.dataset_version_id v.id).0 of))
                  | inr differs ↦ rw differs refl
                ]))
            ∙ l.kept;
        one_version = λ a b k n same.
            l.one_version a b (select-Any kept_rows db.cases k) (select-Any kept_rows db.cases n)
              same;
      }
