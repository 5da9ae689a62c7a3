-- ===== src/Publication/Prepare/Twice.antt =====
-- A preparation that is asked for again.
use mathlib.Core.Path.{subst}
use eduvijna_paper_evaluatio.Prelude.{
  ℕ, suc, ◌≡◌, refl, ap, ◌∙◌, true, Bool, ==_refl, Option, some, none, List, [], ◌∷◌, ◌++◌, Result,
  ok, guard, ◌>>=◌, >>=-eq-ok, ok-injective, guard-eq-ok, select, String, Bool-cases, inl, inr,
  eq_iff,
}
use eduvijna_paper_evaluatio.Prelude.Int.{ℤ}
use eduvijna_paper_evaluatio.Grading.Ledger.{Submission}
use eduvijna_paper_evaluatio.Grading.Published.{PublishedResult}
use eduvijna_paper_evaluatio.Grading.Store.{Request, Payload}
use eduvijna_paper_evaluatio.Publication.Tables.{PublicationCode, Database, Outside}
use eduvijna_paper_evaluatio.Publication.Snapshot.{
  Loaded, is_approved, load_approved_ledger_snapshot, reconcile_totals,
}
use eduvijna_paper_evaluatio.Publication.Results.{
  newest_result, newer_result, results_where, max_version,
}
use eduvijna_paper_evaluatio.Publication.Prepare.{
  Prepared, existing_result, result_id, current_published, new_result, enqueue, prepare_version,
  prepare_publication,
}

select-append {ℓ} :
    {A : Type ℓ} (test : A → Bool) (xs ys : List A)
    → select test (xs ++ ys) ≡ select test xs ++ select test ys
unfolding select
select-append test [] ys = refl
select-append test (x ∷ xs) ys = elim (Bool-cases (test x)) [
  | inl yes' ↦ rw yes' (ap (λ zs. x ∷ zs) (select-append test xs ys))
  | inr no' ↦ rw no' (select-append test xs ys)
]

newest_result-none : (rs : List PublishedResult) → newest_result rs ≡ none → rs ≡ []
unfolding newest_result
newest_result-none [] h = refl
newest_result-none (r ∷ rs) h = cc

-- The one row that passes is the newest.
newest_appended :
    (test : PublishedResult → Bool) (rows : List PublishedResult) (r : PublishedResult)
    → newest_result (select test rows) ≡ none
    → test r ≡ true
    → newest_result (select test (rows ++ r ∷ [])) ≡ some r
unfolding newest_result newer_result select
newest_appended test rows r none' hit =
    rw (select-append test rows (r ∷ []))
      (rw (newest_result-none (select test rows) none') (rw hit refl))

module _ (o : Outside) (req : Request) (submission : Submission) where
  prepare_publication-eq :
      (db : Database) (loaded : Loaded) (totals : ℤ × ℤ)
      → is_approved submission.workflow_state ≡ true
      → load_approved_ledger_snapshot db.store req submission ≡ ok loaded
      → reconcile_totals loaded.qes ≡ ok totals
      → prepare_publication o db req submission
        ≡ ok (
            prepare_version db req submission loaded totals (o.snapshot_digest loaded.canonical) (
              existing_result db req submission loaded.run.id (o.snapshot_digest loaded.canonical)))
  unfolding prepare_publication
  prepare_publication-eq db loaded totals approved taken summed =
      let finish = λ (l : Loaded) (t : ℤ × ℤ).
        prepare_version db req submission l t (o.snapshot_digest l.canonical)
          (existing_result db req submission l.run.id (o.snapshot_digest l.canonical)) in
      let gate =
        guard (is_approved submission.workflow_state) PublicationCode.invalid_workflow_state in
      ap
        (λ (x : Result PublicationCode Loaded).
          gate >>= λ u. x >>= λ l. reconcile_totals l.qes >>= λ t. ok (finish l t))
        taken
      ∙ (ap (λ (x : Result PublicationCode (ℤ × ℤ)). gate >>= λ u. x >>= λ t. ok (finish loaded t))
            summed
          ∙ ap
              (λ b.
                guard b PublicationCode.invalid_workflow_state >>= λ u. ok (finish loaded totals))
              approved)

  -- A new row is found by the next preparation.
  existing_result-enqueue :
      (db : Database) (loaded : Loaded) (totals : ℤ × ℤ) (hash : String) (version_number : ℕ)
      (supersedes : Option ℕ) (action : String) (after : Payload)
      → existing_result db req submission loaded.run.id hash ≡ none
      → existing_result
          (enqueue db req
            (new_result req submission loaded totals hash version_number supersedes)
            action
            after).db
          req
          submission
          loaded.run.id
          hash
        ≡ some (new_result req submission loaded totals hash version_number supersedes)
  unfolding existing_result enqueue new_result results_where
  existing_result-enqueue db loaded totals hash version_number supersedes action after absent =
      newest_appended _ db.store.published_results _ absent (
        rw (==_refl req.tenant_id) (
          rw (==_refl submission.id)
            (rw (==_refl loaded.run.id) (rw ((eq_iff hash hash).1 refl) refl))))

  load_enqueue :
      (db : Database) (r : PublishedResult) (action : String) (after : Payload)
      → load_approved_ledger_snapshot (enqueue db req r action after).db.store req submission
        ≡ load_approved_ledger_snapshot db.store req submission
  unfolding enqueue load_approved_ledger_snapshot
  load_enqueue db r action after = refl

  abbrev Again : Prepared → Type 0
  Again p =
      (q : Prepared) × (prepare_publication o p.db req submission ≡ ok q)
      × (q.db ≡ p.db)
      × (q.result ≡ p.result)

  prepare_version-Again :
      (db : Database) (loaded : Loaded) (totals : ℤ × ℤ) (existing : Option PublishedResult)
      → is_approved submission.workflow_state ≡ true
      → load_approved_ledger_snapshot db.store req submission ≡ ok loaded
      → reconcile_totals loaded.qes ≡ ok totals
      → existing_result db req submission loaded.run.id (o.snapshot_digest loaded.canonical)
        ≡ existing
      → Again (
          prepare_version db req submission loaded totals
            (o.snapshot_digest loaded.canonical)
            existing)
  unfolding prepare_version
  prepare_version-Again db loaded totals (some r) approved taken summed e = (
    prepare_version db req submission loaded totals (o.snapshot_digest loaded.canonical) (some r),
    prepare_publication-eq db loaded totals approved taken summed
        ∙ ap
            (λ x. ok (
              prepare_version db req submission loaded totals (o.snapshot_digest loaded.canonical)
                x))
            e,
    refl,
    refl,
  )
  prepare_version-Again db loaded totals none approved taken summed e =
      let hash = o.snapshot_digest loaded.canonical in
      let version_number = suc (max_version (results_where db req submission.id (λ r. true))) in
      let supersedes = result_id (current_published db req submission.id) in
      let r = new_result req submission loaded totals hash version_number supersedes in
      let after = Payload.publication submission.id version_number hash in
      let next = (enqueue db req r "publication_prepared" after).db in
      (
        prepare_version next req submission loaded totals hash (some r),
        prepare_publication-eq next loaded totals approved
              (load_enqueue db r "publication_prepared" after ∙ taken) summed
            ∙ ap (λ x. ok (prepare_version next req submission loaded totals hash x))
                (existing_result-enqueue db loaded totals hash version_number supersedes
                  "publication_prepared" after e),
        refl,
        refl,
      )

  -- A preparation that is asked for again, with nothing between, gives the result of the first
  -- and changes nothing.
  pub prepare_publication_twice :
      (db : Database) (p : Prepared)
      → prepare_publication o db req submission ≡ ok p
      → (q : Prepared) × (prepare_publication o p.db req submission ≡ ok q)
        × (q.db ≡ p.db)
        × (q.result ≡ p.result)
  unfolding prepare_publication
  prepare_publication_twice db p h =
      let (u, approved, h₁) = >>=-eq-ok (guard (is_approved submission.workflow_state) _) _ h in
      let (loaded, taken, h₂) =
        >>=-eq-ok (load_approved_ledger_snapshot db.store req submission) _ h₁ in
      let (totals, summed, h₃) = >>=-eq-ok (reconcile_totals loaded.qes) _ h₂ in
      subst Again (ok-injective h₃)
        (prepare_version-Again db loaded totals _ (guard-eq-ok _ _ approved) taken summed refl)
