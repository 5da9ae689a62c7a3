-- ===== src/Mastery/Scores.antt =====
-- The checks of the score, the ratio, and which scripts make a signal STRONG.
use native.Mathlib.Nat.{mul_comm}
use eduvijna_paper_evaluatio.Prelude.{
  round_half_even-mul, ◌∙◌, round_half_even-le, ok, ◌<◌, ◌≤◌, ◌*◌, round_half_even, ◌⊎◌, ℕ, ◌≡◌,
  ◌↔◌, Bool, List, String, arith, err,
}
use eduvijna_paper_evaluatio.Prelude.Int.{pos_part, ℤ, pos, ◌≤ℤ◌}
use eduvijna_paper_evaluatio.Mastery.Derivation.{
  DerivedSignals, max_mark_not_positive, final_score_out_of_range, decided, uniform,
  derive_in_range, derive_b8_v1_signals,
}

-- The call is refused for its maximum exactly if that is not positive, and otherwise for its score
-- exactly if that is negative or above the maximum.
pub derive_b8_v1_signals_errors :
    (final_score max_mark : ℤ) (codes : List String) (is_blank : Bool)
    → ((derive_b8_v1_signals final_score max_mark codes is_blank ≡ err max_mark_not_positive)
        ↔ (max_mark ≤ℤ pos 0))
      × ((derive_b8_v1_signals final_score max_mark codes is_blank ≡ err final_score_out_of_range)
          ↔ (¬ (max_mark ≤ℤ pos 0) × ((¬ (pos 0 ≤ℤ final_score)) ⊎ (¬ (final_score ≤ℤ max_mark)))))
unfolding derive_b8_v1_signals
derive_b8_v1_signals_errors final_score max_mark codes is_blank = ground arith

-- What a call that returns has checked.
pub record InRange (final_score max_mark : ℤ) : Type 0 where
  pub max_pos : 0 < pos_part max_mark
  pub below : pos_part final_score ≤ pos_part max_mark

pub derive-eq-ok :
    (final_score max_mark : ℤ) (codes : List String) (is_blank : Bool) {s : DerivedSignals}
    → derive_b8_v1_signals final_score max_mark codes is_blank ≡ ok s
    → InRange final_score max_mark
      × (derive_in_range (pos_part final_score) (pos_part max_mark) codes is_blank ≡ s)
unfolding derive_b8_v1_signals
derive-eq-ok f m codes is_blank h = ground arith

ratio-derive :
    (f m : ℕ) (codes : List String) (is_blank : Bool)
    → (derive_in_range f m codes is_blank).score_ratio ≡ round_half_even (f * 1_000_000) m
unfolding derive_in_range uniform decided
ratio-derive f m codes is_blank = ground arith

scaled : (f m : ℕ) → f ≤ m → f * 1_000_000 ≤ 1_000_000 * m
scaled f m h = omega arith

-- The ratio of a call that returns is at most one (a million millionths), and is one for full marks.
pub score_ratio_bounds :
    (final_score max_mark : ℤ) (codes : List String) (is_blank : Bool) (s : DerivedSignals)
    → derive_b8_v1_signals final_score max_mark codes is_blank ≡ ok s
    → (s.score_ratio ≤ 1_000_000) × (final_score ≡ max_mark → s.score_ratio ≡ 1_000_000)
score_ratio_bounds f m codes is_blank s h =
    let (range, e) = derive-eq-ok f m codes is_blank h in
    let ratio : s.score_ratio ≡ round_half_even (pos_part f * 1_000_000) (pos_part m) =
      rw (← e) (ratio-derive (pos_part f) (pos_part m) codes is_blank) in
    (
      rw ratio (round_half_even-le _ 1_000_000 (pos_part m) range.max_pos (scaled _ _ range.below)),
      λ full.
          ratio ∙ (rw (full, mul_comm) (round_half_even-mul 1_000_000 (pos_part m) range.max_pos)),
    )
