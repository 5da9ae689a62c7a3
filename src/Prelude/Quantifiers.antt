-- ===== src/Prelude/Quantifiers.antt =====
-- What the Boolean searches over a list decide.
use mathlib.Core.Path.{◌∙◌, ap, ◌≡◌, refl}
use mathlib.Core.Logic.{◌≢◌, ◌⊎◌, inl, inr}
use Prim.Native.Nat.{ℕ}
use mathlib.Core.Bool.{Bool, true, false, ◌&&◌}
use mathlib.Core.List.{List, [], ◌∷◌, ◌++◌}
use mathlib.Core.Option.{none, some}
use native.Mathlib.Omega.{arith}
use eduvijna_paper_evaluatio.Prelude.Tests.{Bool-cases, if◌then◌else◌, ◌==◌, ==_iff, &&-eq-true}
use eduvijna_paper_evaluatio.Prelude.Lists.{select, update, any, all, first, All, Any, here, there}

module _ {ℓ κ μ} {A : Type ℓ} {P : A → Type κ} {Q : A → Type μ} (f : (x : A) → P x → Q x) where
  pub All-imp : (xs : List A) → All P xs → All Q xs
  All-imp [] h = tt
  All-imp (x ∷ xs) h = (f x h.0, All-imp xs h.1)

  pub Any-imp : {xs : List A} → Any P xs → Any Q xs
  Any-imp (here p) = here (f _ p)
  Any-imp (there h) = there (Any-imp h)

module _ {ℓ} {A : Type ℓ} (test : A → Bool) where
  pub any→Any : (xs : List A) → any test xs ≡ true → Any (λ x. test x ≡ true) xs
  unfolding any
  any→Any [] h = cc
  any→Any (x ∷ xs) h = elim (Bool-cases (test x)) [
    | inl yes' ↦ here yes'
    | inr no' ↦ there (any→Any xs (ground arith))
  ]

  pub Any→any : {xs : List A} → Any (λ x. test x ≡ true) xs → any test xs ≡ true
  unfolding any
  Any→any (here e) = ground arith
  Any→any (there h) = ground (arith, Any→any h)

  pub any_false→All : (xs : List A) → any test xs ≡ false → All (λ x. test x ≡ false) xs
  unfolding any
  any_false→All [] h = tt
  any_false→All (x ∷ xs) h = (ground arith, any_false→All xs (ground arith))

  pub All→any_false : (xs : List A) → All (λ x. test x ≡ false) xs → any test xs ≡ false
  unfolding any
  All→any_false [] h = refl
  All→any_false (x ∷ xs) h = ground (arith, All→any_false xs h.1)

  pub all→All : (xs : List A) → all test xs ≡ true → All (λ x. test x ≡ true) xs
  unfolding all
  all→All [] h = tt
  all→All (x ∷ xs) h = (ground arith, all→All xs (ground arith))

  pub All→all : (xs : List A) → All (λ x. test x ≡ true) xs → all test xs ≡ true
  unfolding all
  All→all [] h = refl
  All→all (x ∷ xs) h = ground (arith, All→all xs h.1)

  -- the row that a query returns passes its test
  pub first-test : (xs : List A) {x : A} → first test xs ≡ some x → test x ≡ true
  unfolding first
  first-test [] h = cc
  first-test (y ∷ ys) h = elim (Bool-cases (test y)) [
    | inl yes' ↦ ground arith
    | inr no' ↦ first-test ys (ground arith)
  ]

  pub first-none : (xs : List A) → first test xs ≡ none → All (λ x. test x ≡ false) xs
  unfolding first
  first-none [] h = tt
  first-none (y ∷ ys) h = (ground arith, first-none ys (ground arith))

  pub first-none_of_All : (xs : List A) → All (λ x. test x ≡ false) xs → first test xs ≡ none
  unfolding first
  first-none_of_All [] h = refl
  first-none_of_All (y ∷ ys) h = ground (arith, first-none_of_All ys h.1)

  pub first-Any : (xs : List A) {x : A} → first test xs ≡ some x → Any (λ y. y ≡ x) xs
  unfolding first
  first-Any [] h = cc
  first-Any (y ∷ ys) h = elim (Bool-cases (test y)) [
    | inl yes' ↦ here (ground arith)
    | inr no' ↦ there (first-Any ys (ground arith))
  ]

  pub first_hit : (xs : List A) {x : A} → first test xs ≡ some x → Any (λ y. test y ≡ true) xs
  unfolding first
  first_hit [] h = cc
  first_hit (y ∷ ys) {x} h = elim (Bool-cases (test y)) [
    | inl yes' ↦ here yes'
    | inr no' ↦ there (first_hit ys {x = x} (ground arith))
  ]

  pub first_of_Any :
      {xs : List A} → Any (λ x. test x ≡ true) xs → (x : A) × (first test xs ≡ some x)
  unfolding first
  first_of_Any {xs = []} m = elim m [ ]
  first_of_Any {xs = x ∷ xs} (here e) = (x, ground arith)
  first_of_Any {xs = x ∷ xs} (there h) = elim (Bool-cases (test x)) [
    | inl yes' ↦ (x, ground arith)
    | inr no' ↦ let (y, e) = first_of_Any h in (y, ground arith)
  ]

module _ {ℓ κ} {A : Type ℓ} (P : A → Type κ) where
  pub All-Any : (x : A) (xs : List A) → All P xs → Any (λ y. y ≡ x) xs → P x
  All-Any x [] h m = elim m [ ]
  All-Any x (y ∷ ys) h (here e) = mathlib.Core.Path.subst P e h.0
  All-Any x (y ∷ ys) h (there m) = All-Any x ys h.1 m

  pub All-of_Any : (xs : List A) → ((x : A) → Any (λ y. y ≡ x) xs → P x) → All P xs
  All-of_Any [] h = tt
  All-of_Any (x ∷ xs) h = (h x (here refl), All-of_Any xs (λ y m. h y (there m)))

  pub All-append : (xs ys : List A) → All P xs → All P ys → All P (xs ++ ys)
  All-append [] ys h k = k
  All-append (x ∷ xs) ys h k = (h.0, All-append xs ys h.1 k)

module _ {ℓ κ μ ν} {A : Type ℓ} {P : A → Type κ} {Q : A → Type μ} {R : A → Type ν} where
  pub All-both : ((x : A) → P x → Q x → R x) → (xs : List A) → All P xs → All Q xs → All R xs
  All-both f [] h k = tt
  All-both f (x ∷ xs) h k = (f x h.0 k.0, All-both f xs h.1 k.1)

module _ {ℓ κ} {A : Type ℓ} (P : A → Type κ) where
  -- Rows that are replaced by a row with the property leave all rows with it.
  pub All-update :
      (test : A → Bool) {x : A} (xs : List A) → P x → All P xs → All P (update test (λ r. x) xs)
  unfolding update
  All-update test [] p h = h
  All-update test {x} (y ∷ ys) p (h, hs) = (
    elim (test y) as (λ b. P (if b then x else y)) [ true ↦ p | false ↦ h ],
    All-update test ys p hs,
  )

  pub first-All : (test : A → Bool) {x : A} (xs : List A) → first test xs ≡ some x → All P xs → P x
  unfolding first
  first-All test [] h ps = cc
  first-All test {x} (y ∷ ys) h (p, ps) = elim (Bool-cases (test y)) [
    | inl yes' ↦ let e : x ≡ y = ground arith in rw e p
    | inr no' ↦ first-All test ys (ground arith) ps
  ]

module _ {ℓ κ} {A : Type ℓ} {P : A → Type κ} where
  pub Any-append_left : {xs : List A} (ys : List A) → Any P xs → Any P (xs ++ ys)
  Any-append_left ys (here p) = here p
  Any-append_left ys (there h) = there (Any-append_left ys h)

  pub Any-append_right : (xs : List A) {ys : List A} → Any P ys → Any P (xs ++ ys)
  Any-append_right [] h = h
  Any-append_right (x ∷ xs) h = there (Any-append_right xs h)

module _ {ℓ} {A : Type ℓ} (test : A → Bool) where
  pub All-select : (xs : List A) → All (λ x. test x ≡ true) (select test xs)
  unfolding select
  All-select [] = tt
  All-select (x ∷ xs) = elim (Bool-cases (test x)) [
    | inl yes' ↦ rw yes' (yes', All-select xs)
    | inr no' ↦ rw no' (All-select xs)
  ]

  -- What holds of the selected rows holds of every row that passes the test.
  pub select-All {κ} :
      (P : A → Type κ) (xs : List A) → All P (select test xs) → All (λ x. test x ≡ true → P x) xs
  unfolding select
  select-All P [] h = tt
  select-All P (x ∷ xs) h =
      elim (test x)
          as (λ b.
            All P (if b then x ∷ select test xs else select test xs)
            → (b ≡ true → P x) × All (λ y. test y ≡ true → P y) xs) [
              | true ↦ λ k. ((λ e. k.0), select-All P xs k.1)
              | false ↦ λ k. ((λ e. cc), select-All P xs k)
            ]
        h

-- A row that a statement hits is in the table as the statement leaves it.
pub Any-update {ℓ} :
    {A : Type ℓ} (test : A → Bool) (new : A) {old : A} (xs : List A)
    → test old ≡ true
    → Any (λ x. x ≡ old) xs
    → Any (λ x. x ≡ new) (update test (λ x. new) xs)
unfolding update
Any-update test new [] hit m = elim m [ ]
Any-update test new (x ∷ xs) hit (here e) = here (rw e (ground arith))
Any-update test new (x ∷ xs) hit (there m) = there (Any-update test new xs hit m)

-- The selected rows are rows of the table.
pub select_members {ℓ} :
    {A : Type ℓ} (test : A → Bool) (xs : List A) → All (λ y. Any (λ x. x ≡ y) xs) (select test xs)
unfolding select
select_members test [] = tt
select_members test (x ∷ xs) =
    let rest = All-imp (λ y m. there m) (select test xs) (select_members test xs) in
    elim (test x)
      as (λ b.
        All (λ y. Any (λ z. z ≡ y) (x ∷ xs)) (if b then x ∷ select test xs else select test xs)) [
          | true ↦ (here refl, rest)
          | false ↦ rest
        ]

-- A row that a statement misses stays.
pub Any-update_miss {ℓ} :
    {A : Type ℓ} (test : A → Bool) (new : A) {old : A} (xs : List A)
    → test old ≡ false
    → Any (λ x. x ≡ old) xs
    → Any (λ x. x ≡ old) (update test (λ x. new) xs)
unfolding update
Any-update_miss test new [] miss m = elim m [ ]
Any-update_miss test new (x ∷ xs) miss (here e) = here (rw (ap test e ∙ miss) e)
Any-update_miss test new (x ∷ xs) miss (there m) = there (Any-update_miss test new xs miss m)

-- The rows of a grown table, and of a selection.
pub Any-append_one {ℓ} :
    {A : Type ℓ} {a x : A} (xs : List A)
    → Any (λ y. y ≡ a) (xs ++ x ∷ [])
    → Any (λ y. y ≡ a) xs ⊎ (x ≡ a)
Any-append_one [] (here e) = inr e
Any-append_one [] (there m) = elim m [ ]
Any-append_one (y ∷ ys) (here e) = inl (here e)
Any-append_one (y ∷ ys) (there m) = elim (Any-append_one ys m) [
  | inl k ↦ inl (there k)
  | inr e ↦ inr e
]

module _ {ℓ} {A : Type ℓ} (test : A → Bool) where
  pub select-Any : {a : A} (xs : List A) → Any (λ y. y ≡ a) (select test xs) → Any (λ y. y ≡ a) xs
  unfolding select
  select-Any [] m = m
  select-Any {a} (x ∷ xs) m =
      elim (test x)
          as (λ b.
            Any (λ y. y ≡ a) (if b then x ∷ select test xs else select test xs)
            → Any (λ y. y ≡ a) (x ∷ xs)) [
              | true ↦ λ k. elim k [ here e ↦ here e | there n ↦ there (select-Any xs n) ]
              | false ↦ λ k. there (select-Any xs k)
            ]
        m

  pub select-append_one :
      (x : A) (xs : List A) → test x ≡ false → select test (xs ++ x ∷ []) ≡ select test xs
  unfolding select
  select-append_one x [] miss = rw miss refl
  select-append_one x (y ∷ ys) miss = rw (select-append_one x ys miss) refl

  -- A selection that keeps the rows that pass another test changes nothing for that test.
  pub select-select :
      (kept : A → Bool) (xs : List A)
      → All (λ x. test x ≡ true → kept x ≡ true) xs
      → select test (select kept xs) ≡ select test xs
  unfolding select
  select-select kept [] h = refl
  select-select kept (x ∷ xs) (k, ks) = elim (Bool-cases (test x)) [
    | inl hit ↦ rw (k hit, hit, select-select kept xs ks) refl
    | inr miss ↦ elim (Bool-cases (kept x)) [
      | inl stays ↦ rw (stays, miss, select-select kept xs ks) refl
      | inr goes ↦ rw (goes, miss, select-select kept xs ks) refl
    ]
  ]

-- The row that a query by identifier and tenant returns.
pub first_keyed {ℓ} :
    {A : Type ℓ} (key tenant : A → ℕ) (id tenant_id : ℕ) (xs : List A) {x : A}
    → first (λ y. key y == id && tenant y == tenant_id) xs ≡ some x
    → Any (λ y. y ≡ x) xs × (key x ≡ id) × (tenant x ≡ tenant_id)
first_keyed key tenant id tenant_id xs {x} h =
    let (same, in_tenant) = &&-eq-true (key x == id) (tenant x == tenant_id) (first-test _ xs h) in
    (first-Any _ xs h, (==_iff _ _).0 same, (==_iff _ _).0 in_tenant)

-- Every row with the identifier is as the statement leaves it.
pub update-All {ℓ κ} :
    {A : Type ℓ} (P : A → Type κ) (key : A → ℕ) (id : ℕ) (f : A → A) (xs : List A)
    → ((x : A) → P (f x))
    → All (λ x. (key x ≢ id) ⊎ P x) (update (λ x. key x == id) f xs)
unfolding update
update-All P key id f [] h = tt
update-All P key id f (x ∷ xs) h = elim (Bool-cases (key x == id)) [
  | inl yes' ↦ rw yes' (inr (h x), update-All P key id f xs h)
  | inr no' ↦ rw no' (inl (λ e. cc (no', (==_iff (key x) id).1 e)), update-All P key id f xs h)
]
