-- ===== src/Publication/Pipeline/Waiting.antt =====
-- Which version a run of the publication job takes up, apart from its query.
use mathlib.Core.Path.{subst}
use eduvijna_paper_evaluatio.Prelude.{
  ℕ, ◌≡◌, ◌⊎◌, ◌≤◌, ◌==◌, ==_iff, ◌&&◌, refl, sym, Bool, true, false, Bool-cases, inl, inr, Option,
  none, some, List, [], ◌∷◌, ltb, select, select-All, All-select, select-Any, All, All-imp, All-Any,
  Any, arith,
}
use eduvijna_paper_evaluatio.Grading.Published.{PublishedStatus, PublishedResult}
use eduvijna_paper_evaluatio.Grading.Store.{Request}
use eduvijna_paper_evaluatio.Publication.Tables.{Database}
use eduvijna_paper_evaluatio.Publication.Results.{newer_result, newest_result, results_where}
use eduvijna_paper_evaluatio.Publication.Pipeline.{is_waiting, waiting_result}
use eduvijna_paper_evaluatio.Publication.LifeCycle.Artifacts.{newest_result-Any}

-- A version of the submission in the tenant that is READY, GENERATING or FAILED.
pub record IsWaiting (req : Request) (submission_id : ℕ) (r : PublishedResult) : Type 0 where
  pub tenant : r.tenant_id ≡ req.tenant_id
  pub submission : r.submission_id ≡ submission_id
  pub waiting :
      (r.status ≡ PublishedStatus.ready)
      ⊎ ((r.status ≡ PublishedStatus.generating) ⊎ (r.status ≡ PublishedStatus.failed))

waiting_states :
    (s : PublishedStatus)
    → is_waiting s ≡ true
    → (s ≡ PublishedStatus.ready)
      ⊎ ((s ≡ PublishedStatus.generating) ⊎ (s ≡ PublishedStatus.failed))
unfolding is_waiting
waiting_states PublishedStatus.ready h = inl refl
waiting_states PublishedStatus.generating h = inr (inl refl)
waiting_states PublishedStatus.failed h = inr (inr refl)
waiting_states PublishedStatus.generated h = cc
waiting_states PublishedStatus.published h = cc
waiting_states PublishedStatus.superseded h = cc

waiting_status :
    (s : PublishedStatus)
    → (s ≡ PublishedStatus.ready)
      ⊎ ((s ≡ PublishedStatus.generating) ⊎ (s ≡ PublishedStatus.failed))
    → is_waiting s ≡ true
unfolding is_waiting
waiting_status s (inl e) = rw e refl
waiting_status s (inr (inl e)) = rw e refl
waiting_status s (inr (inr e)) = rw e refl

newest_result-none : (rs : List PublishedResult) → newest_result rs ≡ none → rs ≡ []
unfolding newest_result
newest_result-none [] h = refl
newest_result-none (r ∷ rs) h = cc

newer_result-left :
    (x : PublishedResult) (o : Option PublishedResult)
    → x.version_number ≤ (newer_result x o).version_number
unfolding newer_result
newer_result-left x none = omega arith
newer_result-left x (some s) = elim (Bool-cases (ltb x.version_number s.version_number)) [
  | inl yes' ↦ rw yes' (ground arith)
  | inr no' ↦ rw no' (omega arith)
]

newer_result-right :
    (x s : PublishedResult) → s.version_number ≤ (newer_result x (some s)).version_number
unfolding newer_result
newer_result-right x s = elim (Bool-cases (ltb x.version_number s.version_number)) [
  | inl yes' ↦ rw yes' (omega arith)
  | inr no' ↦ rw no' (ground arith)
]

below :
    (n m : ℕ) (rs : List PublishedResult)
    → n ≤ m
    → All (λ (y : PublishedResult). y.version_number ≤ n) rs
    → All (λ (y : PublishedResult). y.version_number ≤ m) rs
below n m rs le h = All-imp (λ y k. omega (arith, k, le)) rs h

rest_below :
    (x : PublishedResult) (xs : List PublishedResult) (o : Option PublishedResult)
    → newest_result xs ≡ o
    → ((s : PublishedResult)
        → o ≡ some s
        → All (λ (y : PublishedResult). y.version_number ≤ s.version_number) xs)
    → All (λ (y : PublishedResult). y.version_number ≤ (newer_result x o).version_number) xs
rest_below x xs none e h =
    subst
      (λ (ys : List PublishedResult).
        All (λ (y : PublishedResult). y.version_number ≤ (newer_result x none).version_number) ys)
      (sym (newest_result-none xs e)) tt
rest_below x xs (some s) e h =
    below s.version_number (newer_result x (some s)).version_number xs (newer_result-right x s)
      (h s refl)

newest_result-bounds :
    (rs : List PublishedResult) {r : PublishedResult}
    → newest_result rs ≡ some r
    → All (λ (x : PublishedResult). x.version_number ≤ r.version_number) rs
unfolding newest_result
newest_result-bounds [] h = tt
newest_result-bounds (x ∷ xs) {r} h =
    let e : newer_result x (newest_result xs) ≡ r = cc h in
    subst
      (λ (m : PublishedResult).
        All (λ (y : PublishedResult). y.version_number ≤ m.version_number) (x ∷ xs))
      e
      (
        newer_result-left x (newest_result xs),
        rest_below x xs (newest_result xs) refl (λ s found. newest_result-bounds xs found),
      )

module _ (req : Request) (submission_id : ℕ) where
  abbrev waiting_test : PublishedResult → Bool
  waiting_test r =
      r.tenant_id == req.tenant_id && (r.submission_id == submission_id && is_waiting r.status)

  waiting_test-IsWaiting :
      (r : PublishedResult) → waiting_test r ≡ true → IsWaiting req submission_id r
  waiting_test-IsWaiting r h = record {
    tenant = ground (arith, ==_iff r.tenant_id req.tenant_id);
    submission = ground (arith, ==_iff r.submission_id submission_id);
    waiting = waiting_states r.status (ground arith);
  }

  idle : (r : PublishedResult) → waiting_test r ≡ false → ¬ IsWaiting req submission_id r
  idle r h i = ground (
    arith,
    (==_iff r.tenant_id req.tenant_id).1 i.tenant,
    (==_iff r.submission_id submission_id).1 i.submission,
    waiting_status r.status i.waiting,
  )

  none_selected :
      (rs : List PublishedResult)
      → select waiting_test rs ≡ []
      → All (λ r. ¬ IsWaiting req submission_id r) rs
  unfolding select
  none_selected [] h = tt
  none_selected (r ∷ rs) h = elim (Bool-cases (waiting_test r)) [
    | inl yes' ↦ cc (rw yes' at h)
    | inr no' ↦ (idle r no', none_selected rs (rw no' at h))
  ]

  bounded :
      (top : ℕ) (r : PublishedResult)
      → (waiting_test r ≡ true → r.version_number ≤ top)
      → ¬ IsWaiting req submission_id r ⊎ (r.version_number ≤ top)
  bounded top r h = elim (Bool-cases (waiting_test r)) [
    | inl yes' ↦ inr (h yes')
    | inr no' ↦ inl (idle r no')
  ]

  pub waiting_result-none :
      (db : Database)
      → waiting_result db req submission_id ≡ none
      → All (λ r. ¬ IsWaiting req submission_id r) db.store.published_results
  unfolding waiting_result results_where
  waiting_result-none db h = none_selected db.store.published_results (newest_result-none _ h)

  -- The newest of the versions that wait.
  pub record IsNewest (rows : List PublishedResult) (r : PublishedResult) : Type 0 where
    pub in_table : Any (λ x. x ≡ r) rows
    pub waits : IsWaiting req submission_id r
    pub newest :
        All
          (λ (x : PublishedResult).
            ¬ IsWaiting req submission_id x ⊎ (x.version_number ≤ r.version_number))
          rows

  pub waiting_result-IsNewest :
      (db : Database) {r : PublishedResult}
      → waiting_result db req submission_id ≡ some r
      → IsNewest db.store.published_results r
  unfolding waiting_result results_where
  waiting_result-IsNewest db {r} h =
      let rows = db.store.published_results in
      let m = newest_result-Any (select waiting_test rows) h in
      record {
        in_table = select-Any waiting_test rows m;
        waits = waiting_test-IsWaiting r (
            All-Any (λ (x : PublishedResult). waiting_test x ≡ true) r (select waiting_test rows)
              (All-select waiting_test rows) m);
        newest = All-imp (bounded r.version_number) rows (
            select-All waiting_test (λ (x : PublishedResult). x.version_number ≤ r.version_number)
              rows (newest_result-bounds (select waiting_test rows) h));
      }
