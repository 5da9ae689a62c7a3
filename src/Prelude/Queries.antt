-- ===== src/Prelude/Queries.antt =====
-- What a query selects, by a property of its rows instead of a test.
use mathlib.Core.Path.{◌≡◌, refl, ap}
use mathlib.Core.Logic.{inl, inr}
use mathlib.Core.Bool.{Bool, true, false, ◌&&◌}
use mathlib.Core.List.{List, [], ◌∷◌}
use mathlib.Core.Option.{some}
use native.Mathlib.Omega.{arith}
use eduvijna_paper_evaluatio.Prelude.Tests.{Bool-cases}
use eduvijna_paper_evaluatio.Prelude.Lists.{select, first}

-- The second list has the elements of the first with the property, in their order.
pub data Selected {ℓ κ} {A : Type ℓ} (P : A → Type κ) : List A → List A → Type (ℓ ⊔ κ) where
  at_end : Selected P [] []
  kept : {x : A} {xs ys : List A} → P x → Selected P xs ys → Selected P (x ∷ xs) (x ∷ ys)
  left : {x : A} {xs ys : List A} → ¬ P x → Selected P xs ys → Selected P (x ∷ xs) ys

module _ {ℓ κ} {A : Type ℓ} (P : A → Type κ) (test : A → Bool) where
  pub select-Selected :
      ((x : A) → test x ≡ true → P x)
      → ((x : A) → test x ≡ false → ¬ P x)
      → (xs : List A) → Selected P xs (select test xs)
  unfolding select
  select-Selected sound complete [] = at_end
  select-Selected sound complete (x ∷ xs) = elim (Bool-cases (test x)) [
    | inl yes' ↦ rw yes' (kept (sound x yes') (select-Selected sound complete xs))
    | inr no' ↦ rw no' (left (complete x no') (select-Selected sound complete xs))
  ]

  pub Selected-select :
      ((x : A) → test x ≡ true → P x)
      → ((x : A) → test x ≡ false → ¬ P x)
      → {xs ys : List A} → Selected P xs ys
      → ys ≡ select test xs
  unfolding select
  Selected-select sound complete at_end = refl
  Selected-select sound complete (kept {x = x} {xs = xs} p rest) = elim (Bool-cases (test x)) [
    | inl yes' ↦ rw yes' (ap (λ zs. x ∷ zs) (Selected-select sound complete rest))
    | inr no' ↦ absurd (complete x no' p)
  ]
  Selected-select sound complete (left {x = x} {xs = xs} n rest) = elim (Bool-cases (test x)) [
    | inl yes' ↦ absurd (n (sound x yes'))
    | inr no' ↦ rw no' (Selected-select sound complete rest)
  ]

-- The first element with the property.
pub data FirstOf {ℓ κ} {A : Type ℓ} (P : A → Type κ) (a : A) : List A → Type (ℓ ⊔ κ) where
  found : {x : A} {xs : List A} → x ≡ a → P x → FirstOf P a (x ∷ xs)
  later : {x : A} {xs : List A} → ¬ P x → FirstOf P a xs → FirstOf P a (x ∷ xs)

module _ {ℓ κ} {A : Type ℓ} (P : A → Type κ) (test : A → Bool) where
  pub first-FirstOf :
      ((x : A) → test x ≡ true → P x)
      → ((x : A) → test x ≡ false → ¬ P x)
      → (xs : List A) {a : A} → first test xs ≡ some a
      → FirstOf P a xs
  unfolding first
  first-FirstOf sound complete [] h = cc
  first-FirstOf sound complete (x ∷ xs) h = elim (Bool-cases (test x)) [
    | inl yes' ↦ found (ground arith) (sound x yes')
    | inr no' ↦ later (complete x no') (first-FirstOf sound complete xs (ground arith))
  ]

  pub FirstOf-first :
      ((x : A) → test x ≡ true → P x)
      → ((x : A) → test x ≡ false → ¬ P x)
      → {a : A} {xs : List A} → FirstOf P a xs
      → first test xs ≡ some a
  unfolding first
  FirstOf-first sound complete (found {x = x} e p) = elim (Bool-cases (test x)) [
    | inl yes' ↦ rw (yes', e) refl
    | inr no' ↦ absurd (complete x no' p)
  ]
  FirstOf-first sound complete (later {x = x} n rest) = elim (Bool-cases (test x)) [
    | inl yes' ↦ absurd (n (sound x yes'))
    | inr no' ↦ rw no' (FirstOf-first sound complete rest)
  ]

pub select_twice {ℓ} :
    {A : Type ℓ} (f g : A → Bool) (xs : List A)
    → select f (select g xs) ≡ select (λ x. g x && f x) xs
unfolding select
select_twice f g [] = refl
select_twice f g (x ∷ xs) = elim (Bool-cases (g x)) [
  | inl yes' ↦ elim (Bool-cases (f x)) [
    | inl hit ↦ rw (yes', hit) (ap (λ zs. x ∷ zs) (select_twice f g xs))
    | inr miss ↦ rw (yes', miss) (select_twice f g xs)
  ]
  | inr no' ↦ rw no' (select_twice f g xs)
]
