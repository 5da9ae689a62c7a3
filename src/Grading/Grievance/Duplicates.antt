-- ===== src/Grading/Grievance/Duplicates.antt =====
-- How a grievance blocks another.
use mathlib.Core.Path.{subst}
use eduvijna_paper_evaluatio.Prelude.{
  ℕ, ◌≡◌, ap, sym, ◌∙◌, refl, Bool, true, some, [], ◌∷◌, ◌++◌, ok, err, guard, require, >>=-eq-ok,
  require-eq-ok, guard-eq-ok, ok-injective, ◌==◌, ◌&&◌, first, String, Any-append_right, here,
  ==_refl, first_of_Any, Any,
}
use eduvijna_paper_evaluatio.Grading.Work.{GrievanceCase}
use eduvijna_paper_evaluatio.Grading.Published.{PublishedResult}
use eduvijna_paper_evaluatio.Grading.Store.{Store, Request, duplicate_grievance, audit}
use eduvijna_paper_evaluatio.Grading.Grievance.{
  create_grievance, active_grievance, load_published, new_grievance, is_active_grievance,
  no_duplicate, is_published,
}

refused :
    (db : Store) (req : Request) (id : ℕ) (who why : String) {published : PublishedResult}
    {dup : GrievanceCase}
    → load_published db req id ≡ some published
    → is_published published.status ≡ true
    → active_grievance db req published.id ≡ some dup
    → create_grievance db req id who why ≡ err duplicate_grievance
unfolding create_grievance no_duplicate
refused db req id who why found published active = rw (found, published, active) refl

-- A database to which a grievance against the result was added.
pub record Filed (db : Store) (req : Request) (id : ℕ) (mid : Store) : Type 0 where
  pub published : PublishedResult
  pub found : load_published db req id ≡ some published
  pub is_current : is_published published.status ≡ true
  pub case : GrievanceCase
  pub against : case.original_published_result_id ≡ published.id
  pub in_tenant : case.tenant_id ≡ req.tenant_id
  pub is_active : is_active_grievance case.status ≡ true
  pub grievances : mid.grievances ≡ db.grievances ++ case ∷ []
  pub results : mid.published_results ≡ db.published_results

create_grievance-Filed :
    (db mid : Store) (req : Request) (id : ℕ) (who why : String) (case : GrievanceCase)
    → create_grievance db req id who why ≡ ok (mid, case)
    → Filed db req id mid
unfolding create_grievance new_grievance is_active_grievance audit
create_grievance-Filed db mid req id who why case h =
    let (published, found, h₁) = >>=-eq-ok (require (load_published db req id) _) _ h in
    let (u, current, h₂) = >>=-eq-ok (guard (is_published published.status) _) _ h₁ in
    let (v, alone, h₃) = >>=-eq-ok (no_duplicate (active_grievance db req published.id)) _ h₂ in
    let e = ok-injective h₃ in
    record {
      published = published;
      found = require-eq-ok _ _ found;
      is_current = guard-eq-ok _ _ current;
      case = new_grievance req published who why;
      against = refl;
      in_tenant = refl;
      is_active = refl;
      grievances = sym (ap (λ p. p.0.grievances) e);
      results = sym (ap (λ p. p.0.published_results) e);
    }

Filed-active :
    (db mid : Store) (req : Request) (id : ℕ) (f : Filed db req id mid)
    → (dup : GrievanceCase) × (active_grievance mid req f.published.id ≡ some dup)
unfolding active_grievance
Filed-active db mid req id f =
    let test : GrievanceCase → Bool = λ g.
      g.tenant_id == req.tenant_id
      && (g.original_published_result_id == f.published.id && is_active_grievance g.status) in
    let hit : test f.case ≡ true =
      rw (f.in_tenant, f.against, f.is_active, ==_refl req.tenant_id, ==_refl f.published.id)
        refl in
    first_of_Any test {xs = mid.grievances} (
      subst (λ l. Any (λ g. test g ≡ true) l) (sym f.grievances)
        (Any-append_right db.grievances (here hit)))

-- After a grievance against a published result was filed, a second one against it is refused as
-- a duplicate, whoever in the tenant files it and whatever it says.
pub second_grievance_refused :
    (db mid : Store) (req : Request) (user_id now id : ℕ) (who why next_who next_why : String)
    (case : GrievanceCase)
    → create_grievance db req id who why ≡ ok (mid, case)
    → create_grievance mid (record req { user_id = user_id; now = now }) id next_who next_why
      ≡ err duplicate_grievance
unfolding load_published active_grievance
second_grievance_refused db mid req user_id now id who why next_who next_why case h =
    let f = create_grievance-Filed db mid req id who why case h in
    let (dup, active) = Filed-active db mid req id f in
    refused mid (record req { user_id = user_id; now = now }) id next_who next_why
      (ap (λ l. first (λ p. p.id == id && p.tenant_id == req.tenant_id) l) f.results ∙ f.found)
      f.is_current active
