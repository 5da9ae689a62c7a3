-- ===== src/Prelude/Sort.antt =====
-- `sorted` and `order_by` by a number: a stable insertion sort.
use Prim.Native.Nat.{ℕ}
use Prim.Native.Nat.{◌≤◌}
use mathlib.Core.Path.{◌≡◌}
use mathlib.Core.Option.{some}
use native.Mathlib.Omega.{arith}
use eduvijna_paper_evaluatio.Prelude.Quantifiers.{All-imp}
use mathlib.Core.Bool.{true, false}
use mathlib.Core.Logic.{◌⊎◌, inl, inr}
use mathlib.Core.List.{List, [], ◌∷◌}
use eduvijna_paper_evaluatio.Prelude.Tests.{Bool-cases, leb→le, leb, if◌then◌else◌}
use eduvijna_paper_evaluatio.Prelude.Lists.{first, All, Any, here, there}

module _ {ℓ} {A : Type ℓ} (key : A → ℕ) where
  unfoldable pub insert_by : A → List A → List A
  insert_by x [] = x ∷ []
  insert_by x (y ∷ ys) =
      let rest = insert_by x ys in if leb (key x) (key y) then x ∷ y ∷ ys else y ∷ rest

  unfoldable pub sort_by : List A → List A
  unfolding insert_by
  sort_by [] = []
  sort_by (x ∷ xs) = insert_by x (sort_by xs)

  module _ {κ} (P : A → Type κ) where
    All-insert_by : (x : A) (ys : List A) → P x → All P ys → All P (insert_by x ys)
    unfolding insert_by
    All-insert_by x [] p h = (p, tt)
    All-insert_by x (y ∷ ys) p (q, qs) =
        elim (leb (key x) (key y)) as (λ b. All P (if b then x ∷ y ∷ ys else y ∷ insert_by x ys)) [
          | true ↦ (p, (q, qs))
          | false ↦ (q, All-insert_by x ys p qs)
        ]

    insert_by-All : (x : A) (ys : List A) → All P (insert_by x ys) → P x × All P ys
    unfolding insert_by
    insert_by-All x [] h = h
    insert_by-All x (y ∷ ys) h =
        elim (leb (key x) (key y))
            as (λ b. All P (if b then x ∷ y ∷ ys else y ∷ insert_by x ys) → P x × All P (y ∷ ys)) [
              | true ↦ λ k. k
              | false ↦ λ k. let (p, qs) = insert_by-All x ys k.1 in (p, (k.0, qs))
            ]
          h

    pub All-sort_by : (xs : List A) → All P xs → All P (sort_by xs)
    unfolding sort_by
    All-sort_by [] h = h
    All-sort_by (x ∷ xs) (p, ps) = All-insert_by x (sort_by xs) p (All-sort_by xs ps)

    -- Sorting loses no element.
    pub sort_by-All : (xs : List A) → All P (sort_by xs) → All P xs
    unfolding sort_by
    sort_by-All [] h = h
    sort_by-All (x ∷ xs) h = let (p, ps) = insert_by-All x (sort_by xs) h in (p, sort_by-All xs ps)

    Any-insert_by : (x : A) (ys : List A) → Any P (insert_by x ys) → P x ⊎ Any P ys
    unfolding insert_by
    Any-insert_by x [] (here p) = inl p
    Any-insert_by x [] (there h) = elim h [ ]
    Any-insert_by x (y ∷ ys) h =
        elim (leb (key x) (key y))
            as (λ b. Any P (if b then x ∷ y ∷ ys else y ∷ insert_by x ys) → P x ⊎ Any P (y ∷ ys)) [
              | true ↦ λ k. elim k [ here p ↦ inl p | there q ↦ inr q ]
              | false ↦ λ k. elim k [
                | here q ↦ inr (here q)
                | there q ↦ elim (Any-insert_by x ys q) [ inl p ↦ inl p | inr r ↦ inr (there r) ]
              ]
            ]
          h

    -- Sorting adds no element.
    pub Any-sort_by : (xs : List A) → Any P (sort_by xs) → Any P xs
    unfolding sort_by
    Any-sort_by [] h = elim h [ ]
    Any-sort_by (x ∷ xs) h = elim (Any-insert_by x (sort_by xs) h) [
      | inl p ↦ here p
      | inr q ↦ there (Any-sort_by xs q)
    ]

  abbrev pub IsSorted : List A → Type 0
  IsSorted [] = Unit
  IsSorted (x ∷ xs) = All (λ y. key x ≤ key y) xs × IsSorted xs

  below_below :
      (x y : A) (ys : List A)
      → key x ≤ key y
      → All (λ z. key y ≤ key z) ys
      → All (λ z. key x ≤ key z) ys
  below_below x y ys h = All-imp (λ z k. omega (arith, h, k)) ys

  insert_by-IsSorted : (x : A) (ys : List A) → IsSorted ys → IsSorted (insert_by x ys)
  unfolding insert_by
  insert_by-IsSorted x [] h = (tt, tt)
  insert_by-IsSorted x (y ∷ ys) (below, rest) = elim (Bool-cases (leb (key x) (key y))) [
    | inl yes' ↦ rw yes' (
      (leb→le (key x) (key y) yes', below_below x y ys (leb→le (key x) (key y) yes') below),
      (below, rest),
    )
    | inr no' ↦
        rw no' (
          All-insert_by (λ z. key y ≤ key z) x ys (ground arith) below,
          insert_by-IsSorted x ys rest,
        )
  ]

  pub sort_by-IsSorted : (xs : List A) → IsSorted (sort_by xs)
  unfolding sort_by
  sort_by-IsSorted [] = tt
  sort_by-IsSorted (x ∷ xs) = insert_by-IsSorted x (sort_by xs) (sort_by-IsSorted xs)

  head-least :
      (xs : List A) {x : A}
      → IsSorted xs
      → first (λ y. true) xs ≡ some x
      → All (λ y. key x ≤ key y) xs
  unfolding first
  head-least [] s h = tt
  head-least (y ∷ ys) {x} (below, s) h =
      let e : y ≡ x = ground arith in
      mathlib.Core.Path.subst (λ z. All (λ w. key z ≤ key w) (y ∷ ys)) e (omega arith, below)

  -- The first element in the order has the least key.
  pub first-sort_by :
      (xs : List A) {x : A} → first (λ y. true) (sort_by xs) ≡ some x → All (λ y. key x ≤ key y) xs
  first-sort_by xs {x} h =
      sort_by-All (λ y. key x ≤ key y) xs (head-least (sort_by xs) (sort_by-IsSorted xs) h)
