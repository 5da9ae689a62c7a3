-- ===== src/Prelude/Decimal.antt =====
-- `Decimal` quotients that are quantized: a half goes to the even neighbour, the default rounding.
use eduvijna_paper_evaluatio.Prelude.Tests.{ltb, ◌==◌, if◌then◌else◌}
use Prim.Native.Nat.{ℕ, ◌+◌, ◌*◌, ◌/◌, ◌%◌, ◌≤◌, ◌<◌}
use mathlib.Core.Path.{◌≡◌}
use native.Mathlib.Omega.{arith}
use native.Mathlib.Decide.{dec_lt}
use native.Mathlib.Nat.{
  div-add-mod', div-le_of_le-mul, mul-div_cancel, mul-mod_left, mul-le-mul_right, mul_comm,
}

-- `(Decimal(n) / Decimal(d)).quantize(1)`, for a `d` that is not 0. The context's 28 digits leave
-- quotients of the marks' size exact enough that the first rounding makes no half.
unfoldable pub round_half_even : ℕ → ℕ → ℕ
round_half_even n d =
    if ltb (2 * (n % d)) d
    then n / d
    else if ltb d (2 * (n % d))
    then n / d + 1
    else if n / d % 2 == 0
    then n / d
    else n / d + 1

no_remainder : (n k d : ℕ) → n ≤ k * d → k ≤ n / d → n % d ≡ 0
no_remainder n k d h g = grind (arith, div-add-mod' n d, mul-le-mul_right d g)

-- Rounding does not pass a whole bound.
pub round_half_even-le : (n k d : ℕ) → 0 < d → n ≤ k * d → round_half_even n d ≤ k
unfolding round_half_even
round_half_even-le n k d pos h =
    let below : n / d ≤ k = div-le_of_le-mul d (rw mul_comm h) in
    elim (dec_lt (n / d) k) [
      | yes lt ↦ ground arith
      | no ge ↦ rw (no_remainder n k d h (omega arith)) (ground arith)
    ]

-- A whole quotient is kept.
pub round_half_even-mul : (k d : ℕ) → 0 < d → round_half_even (k * d) d ≡ k
unfolding round_half_even
round_half_even-mul k d pos = rw (mul-div_cancel k pos, mul-mod_left k d) (ground arith)
