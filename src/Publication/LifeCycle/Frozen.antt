-- ===== src/Publication/LifeCycle/Frozen.antt =====
-- What every change of the table keeps.
use eduvijna_paper_evaluatio.Prelude.{
  Bool, ◌≡◌, ◌⊎◌, inl, inr, refl, sym, ◌∙◌, ap, true, List, [], ◌∷◌, ◌==◌, ==_iff, update, All,
  All-Any, All-append, All-update, Any, here, there, Any-append_left, Bool-cases,
}
use eduvijna_paper_evaluatio.Grading.Published.{PublishedStatus, PublishedResult}
use eduvijna_paper_evaluatio.Publication.Tables.{Outside}
use eduvijna_paper_evaluatio.Publication.Pipeline.{is_waiting, generating, generated}
use eduvijna_paper_evaluatio.Publication.Publish.{stamped}
use eduvijna_paper_evaluatio.Publication.LifeCycle.{
  IsHashed, Move, begin, fail, generate, publish, supersede, Change, add, move, Changes, nothing,
  then_change,
}

Any-update_or {ℓ κ} :
    {A : Type ℓ} (P : A → Type κ) (test : A → Bool) (new : A) (xs : List A)
    → ((x : A) → P x → test x ≡ true → P new)
    → Any P xs
    → Any P (update test (λ x. new) xs)
unfolding update
Any-update_or P test new [] f m = elim m [ ]
Any-update_or P test new (x ∷ xs) f (here p) =
    here (elim (Bool-cases (test x)) [ inl hit ↦ rw hit (f x p hit) | inr miss ↦ rw miss p ])
Any-update_or P test new (x ∷ xs) f (there m) = there (Any-update_or P test new xs f m)

module _ (o : Outside) where
  Move-IsHashed : {r s : PublishedResult} → Move o r s → IsHashed o r → IsHashed o s
  unfolding generating generated stamped
  Move-IsHashed (begin r w) h = record {
    canonical = h.canonical;
    hashed = h.hashed;
    total = h.total;
    max = h.max;
  }
  Move-IsHashed (fail r code g) h = record {
    canonical = h.canonical;
    hashed = h.hashed;
    total = h.total;
    max = h.max;
  }
  Move-IsHashed (generate r c made g e) h = record {
    canonical = c;
    hashed = e;
    total = refl;
    max = refl;
  }
  Move-IsHashed (publish r req g) h = record {
    canonical = h.canonical;
    hashed = h.hashed;
    total = h.total;
    max = h.max;
  }
  Move-IsHashed (supersede r p) h = record {
    canonical = h.canonical;
    hashed = h.hashed;
    total = h.total;
    max = h.max;
  }

  Move-same_id : {r s : PublishedResult} → Move o r s → s.id ≡ r.id
  unfolding generating generated stamped
  Move-same_id (begin r w) = refl
  Move-same_id (fail r code g) = refl
  Move-same_id (generate r c made g e) = refl
  Move-same_id (publish r req g) = refl
  Move-same_id (supersede r p) = refl

  Change-IsHashed :
      {rows after : List PublishedResult}
      → Change o rows after
      → All (IsHashed o) rows
      → All (IsHashed o) after
  Change-IsHashed {rows} (add r ready fresh h) hs = All-append (IsHashed o) rows (r ∷ []) hs (h, tt)
  Change-IsHashed {rows} (move r s m mv) hs =
      All-update (IsHashed o) (λ x. x.id == s.id) {x = s} rows
        (Move-IsHashed mv (All-Any (IsHashed o) r rows hs m)) hs

  pub Changes-IsHashed :
      {rows after : List PublishedResult}
      → Changes o rows after
      → All (IsHashed o) rows
      → All (IsHashed o) after
  Changes-IsHashed nothing hs = hs
  Changes-IsHashed (then_change cs c) hs = Change-IsHashed c (Changes-IsHashed cs hs)

-- The row, or the row with nothing changed but its status, which is SUPERSEDED.
abbrev pub Kept : PublishedResult → PublishedResult → Type 0
Kept r x = (x ≡ r) ⊎ (x ≡ record r { status = PublishedStatus.superseded })

-- The row is in the table, perhaps superseded, and no other row has its identifier.
pub record IsFrozen (r : PublishedResult) (rows : List PublishedResult) : Type 0 where
  pub is_published : r.status ≡ PublishedStatus.published
  pub there : Any (Kept r) rows
  pub only : All (λ (x : PublishedResult). x.id ≡ r.id → Kept r x) rows

Kept-same_id : (r x : PublishedResult) → Kept r x → x.id ≡ r.id
Kept-same_id r x (inl e) = ap (λ (y : PublishedResult). y.id) e
Kept-same_id r x (inr e) = ap (λ (y : PublishedResult). y.id) e

abbrev Released : PublishedResult → Type 0
Released x = (x.status ≡ PublishedStatus.published) ⊎ (x.status ≡ PublishedStatus.superseded)

Kept-Released :
    (r x : PublishedResult) → r.status ≡ PublishedStatus.published → Kept r x → Released x
Kept-Released r x p (inl e) = inl (ap (λ (z : PublishedResult). z.status) e ∙ p)
Kept-Released r x p (inr e) = inr (ap (λ (z : PublishedResult). z.status) e)

Released-not_waiting : (x : PublishedResult) → Released x → ¬ (is_waiting x.status ≡ true)
unfolding is_waiting
Released-not_waiting x (inl e) w = cc (ap is_waiting (sym e) ∙ w)
Released-not_waiting x (inr e) w = cc (ap is_waiting (sym e) ∙ w)

Released-not_generating :
    (x : PublishedResult) → Released x → ¬ (x.status ≡ PublishedStatus.generating)
Released-not_generating x (inl e) g = cc
Released-not_generating x (inr e) g = cc

Released-not_generated :
    (x : PublishedResult) → Released x → ¬ (x.status ≡ PublishedStatus.generated)
Released-not_generated x (inl e) g = cc
Released-not_generated x (inr e) g = cc

Any-All {ℓ κ μ ν} :
    {A : Type ℓ} (P : A → Type κ) (Q : A → Type μ) {R : Type ν} {xs : List A}
    → ((x : A) → P x → Q x → R)
    → Any P xs
    → All Q xs
    → R
Any-All P Q f (here p) h = f _ p h.0
Any-All P Q f (there m) h = Any-All P Q f m h.1

module _ (o : Outside) where
  -- Of a row that is kept the one move there is supersedes it.
  Move-Kept :
      (r : PublishedResult) {x y : PublishedResult}
      → r.status ≡ PublishedStatus.published
      → Move o x y
      → Kept r x
      → Kept r y
  Move-Kept r p (begin x w) k = absurd (Released-not_waiting x (Kept-Released r x p k) w)
  Move-Kept r p (fail x code g) k = absurd (Released-not_generating x (Kept-Released r x p k) g)
  Move-Kept r p (generate x c made g e) k =
      absurd (Released-not_generating x (Kept-Released r x p k) g)
  Move-Kept r p (publish x req g) k = absurd (Released-not_generated x (Kept-Released r x p k) g)
  Move-Kept r p (supersede x q) (inl e) =
      inr (ap (λ (z : PublishedResult). record z { status = PublishedStatus.superseded }) e)
  Move-Kept r p (supersede x q) (inr e) =
      inr (ap (λ (z : PublishedResult). record z { status = PublishedStatus.superseded }) e)

  Change-IsFrozen :
      (r : PublishedResult) {rows after : List PublishedResult}
      → Change o rows after
      → IsFrozen r rows
      → IsFrozen r after
  Change-IsFrozen r {rows} (add s ready fresh h) f = record {
    is_published = f.is_published;
    there = Any-append_left (s ∷ []) f.there;
    only =
        All-append (λ (x : PublishedResult). x.id ≡ r.id → Kept r x) rows (s ∷ []) f.only
          (
            (λ e.
                Any-All (Kept r) _ (λ x k fresh'. absurd (fresh' (Kept-same_id r x k ∙ sym e)))
                  f.there fresh),
            tt,
          );
  }
  Change-IsFrozen r {rows} (move x y m mv) f =
      let here' = All-Any (λ (z : PublishedResult). z.id ≡ r.id → Kept r z) x rows f.only m in
      let kept : y.id ≡ r.id → Kept r y =
        λ e. Move-Kept r f.is_published mv (here' (sym (Move-same_id o mv) ∙ e)) in
      record {
        is_published = f.is_published;
        there =
            Any-update_or (Kept r) (λ z. z.id == y.id) y rows
              (λ z k hit. kept (sym ((==_iff z.id y.id).0 hit) ∙ Kept-same_id r z k)) f.there;
        only =
            All-update (λ (z : PublishedResult). z.id ≡ r.id → Kept r z) (λ z. z.id == y.id) {x = y}
              rows kept f.only;
      }

  pub Changes-IsFrozen :
      (r : PublishedResult) {rows after : List PublishedResult}
      → Changes o rows after
      → IsFrozen r rows
      → IsFrozen r after
  Changes-IsFrozen r nothing f = f
  Changes-IsFrozen r (then_change cs c) f = Change-IsFrozen r c (Changes-IsFrozen r cs f)
