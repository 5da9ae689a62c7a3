-- ===== src/Prelude/Results.antt =====
-- Code that may raise returns a `Result`, over the type of what its exceptions carry.
use mathlib.Core.Path.{◌≡◌, refl}
use mathlib.Core.Option.{Option, none, some}
use mathlib.Core.Bool.{Bool, true, false}

pub data Result {ℓ} (E R : Type ℓ) : Type ℓ where
  err : E → Result E R
  ok : R → Result E R

module _ {ℓ} {E R S : Type ℓ} where
  infixl 5 ◌>>=◌ ◌>>◌
  -- an exception ends the block, a value goes on to the next statement
  abbrev pub ◌>>=◌ : Result E R → (R → Result E S) → Result E S
  ◌>>=◌ (err raised) next = err raised
  ◌>>=◌ (ok value) next = next value

  abbrev pub ◌>>◌ : Result E R → Result E S → Result E S
  step >> last = step >>= λ _. last

  -- A block that returned ran its first statement, and the rest at the value of that.
  pub >>=-eq-ok :
      (step : Result E R) (next : R → Result E S) {s : S}
      → (step >>= next) ≡ ok s
      → (r : R) × (step ≡ ok r) × (next r ≡ ok s)
  >>=-eq-ok (ok r) next returned = (r, refl, returned)
  >>=-eq-ok (err raised) next returned = cc

module _ {ℓ} {E : Type ℓ} where
  -- `if not test: raise e`
  abbrev pub guard : Bool → E → Result E (Unit {ℓ})
  guard false e = err e
  guard true e = ok tt

  pub guard-eq-ok : (test : Bool) (e : E) {u : Unit {ℓ}} → guard test e ≡ ok u → test ≡ true
  guard-eq-ok false e returned = cc
  guard-eq-ok true e returned = refl

module _ {ℓ} {E R : Type ℓ} where
  -- `if found is None: raise e`
  abbrev pub require : Option R → E → Result E R
  require (some row) e = ok row
  require none e = err e

  pub require-eq-ok :
      (found : Option R) (e : E) {row : R} → require found e ≡ ok row → found ≡ some row
  require-eq-ok (some r) e returned = cc
  require-eq-ok none e returned = cc

  pub ok-injective : {r s : R} → ◌≡◌ {A = Result E R} (ok r) (ok s) → r ≡ s
  ok-injective h = cc
