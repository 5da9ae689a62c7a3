-- ===== src/Assessment/Rubric/Envelope.antt =====
-- The mark envelope of a rubric, as the semantics in the docstring of `reconcile_rubric` states it.
use eduvijna_paper_evaluatio.Prelude.{
  ◌↔◌, here, any_false→All, any→Any, All-both, All-imp, All→any_false, Any-imp, Any→any, ℕ, ◌+◌,
  ◌≡◌, ◌≤◌, ◌≢◌, refl, Bool, true, false, List, [], ◌∷◌, arith, All, Any,
}
use mathlib.Core.List.{cons≢nil}
use eduvijna_paper_evaluatio.Assessment.Rubric.{
  reconcile_rubric, ScoringMode, additive, deductive, all_or_nothing, RubricCriterion, is_mode, has,
  total_of, all_full, reconcile_modes,
}

abbrev pub InMode : ScoringMode → List RubricCriterion → Type 0
InMode m = All (λ c. c.scoring_mode ≡ m)

-- The marks of the criteria of a mode, added up without the code's filter.
abbrev pub marks_in : ScoringMode → List RubricCriterion → ℕ
marks_in m [] = 0
marks_in additive (c ∷ cs) =
    (elim c.scoring_mode [ additive ↦ c.max_marks | _ ↦ 0 ]) + marks_in additive cs
marks_in deductive (c ∷ cs) =
    (elim c.scoring_mode [ deductive ↦ c.max_marks | _ ↦ 0 ]) + marks_in deductive cs
marks_in all_or_nothing (c ∷ cs) =
    (elim c.scoring_mode [ all_or_nothing ↦ c.max_marks | _ ↦ 0 ]) + marks_in all_or_nothing cs

-- One constructor for each bullet of the docstring.
pub data Reconciles (cs : List RubricCriterion) (question_max : ℕ) : Type 0 where
  awards :
      cs ≢ []
      → InMode additive cs
      → marks_in additive cs ≡ question_max
      → Reconciles cs question_max
  deductions :
      cs ≢ []
      → InMode deductive cs
      → marks_in deductive cs ≡ question_max
      → Reconciles cs question_max
  bands :
      cs ≢ []
      → InMode all_or_nothing cs
      → All (λ c. c.max_marks ≡ question_max) cs
      → Reconciles cs question_max
  mixed :
      Any (λ c. c.scoring_mode ≡ additive) cs
      → Any (λ c. c.scoring_mode ≡ deductive) cs
      → All (λ c. c.scoring_mode ≢ all_or_nothing) cs
      → marks_in additive cs ≡ question_max
      → marks_in deductive cs ≤ question_max
      → Reconciles cs question_max

total_of-additive : (cs : List RubricCriterion) → total_of cs additive ≡ marks_in additive cs
unfolding total_of
total_of-additive [] = refl
total_of-additive (c ∷ cs) = ground (arith, total_of-additive cs)

total_of-deductive : (cs : List RubricCriterion) → total_of cs deductive ≡ marks_in deductive cs
unfolding total_of
total_of-deductive [] = refl
total_of-deductive (c ∷ cs) = ground (arith, total_of-deductive cs)

mode_eq : (m n : ScoringMode) → is_mode m n ≡ true → n ≡ m
unfolding is_mode
mode_eq m n h = ground arith

mode_self : (m n : ScoringMode) → n ≡ m → is_mode m n ≡ true
unfolding is_mode
mode_self m n h = ground arith

mode_ne : (m n : ScoringMode) → is_mode m n ≡ false → n ≢ m
unfolding is_mode
mode_ne m n h e = ground arith

ne_mode : (m n : ScoringMode) → n ≢ m → is_mode m n ≡ false
unfolding is_mode
ne_mode m n h = ground arith

module _ (m : ScoringMode) (cs : List RubricCriterion) where
  has→Any : has cs m ≡ true → Any (λ c. c.scoring_mode ≡ m) cs
  unfolding has
  has→Any h = Any-imp (λ c. mode_eq m c.scoring_mode) (any→Any _ cs h)

  Any→has : Any (λ c. c.scoring_mode ≡ m) cs → has cs m ≡ true
  unfolding has
  Any→has h = Any→any _ (Any-imp (λ c. mode_self m c.scoring_mode) h)

  hasnt→All : has cs m ≡ false → All (λ c. c.scoring_mode ≢ m) cs
  unfolding has
  hasnt→All h = All-imp (λ c. mode_ne m c.scoring_mode) cs (any_false→All _ cs h)

  All→hasnt : All (λ c. c.scoring_mode ≢ m) cs → has cs m ≡ false
  unfolding has
  All→hasnt h = All→any_false _ cs (All-imp (λ c. ne_mode m c.scoring_mode) cs h)

-- With two modes absent, the third is everywhere, and the other way round.
third : (l m n : ScoringMode) → l ≢ m → l ≢ n → m ≢ n → (x : ScoringMode) → x ≢ m → x ≢ n → x ≡ l
third l m n a b c x p q = ground arith

other : (l m x : ScoringMode) → l ≢ m → x ≡ l → x ≢ m
other l m x ne e p = ground arith

some_of_All :
    {P : RubricCriterion → Type 0} (cs : List RubricCriterion) → cs ≢ [] → All P cs → Any P cs
some_of_All [] ne h = absurd (ne refl)
some_of_All (c ∷ cs) ne h = here h.0

not-Reconciles-nil : (q : ℕ) → Reconciles [] q → ⊥
not-Reconciles-nil q (awards ne _ _) = ne refl
not-Reconciles-nil q (deductions ne _ _) = ne refl
not-Reconciles-nil q (bands ne _ _) = ne refl
not-Reconciles-nil q (mixed a _ _ _ _) = elim a [ ]

full→All :
    (q : ℕ) (cs : List RubricCriterion)
    → InMode all_or_nothing cs
    → all_full cs q ≡ true
    → All (λ c. c.max_marks ≡ q) cs
unfolding all_full
full→All q [] m h = tt
full→All q (c ∷ cs) m h = (ground arith, full→All q cs m.1 (ground arith))

All→full :
    (q : ℕ) (cs : List RubricCriterion)
    → InMode all_or_nothing cs
    → All (λ c. c.max_marks ≡ q) cs
    → all_full cs q ≡ true
unfolding all_full
All→full q [] m h = refl
All→full q (c ∷ cs) m h = ground (arith, All→full q cs m.1 h.1)

module _ (cs : List RubricCriterion) (q : ℕ) (some_criterion : cs ≢ []) where
  only :
      (l m n : ScoringMode)
      → l ≢ m
      → l ≢ n
      → m ≢ n
      → has cs m ≡ false
      → has cs n ≡ false
      → InMode l cs
  only l m n a b c h k =
      All-both (λ x. third l m n a b c x.scoring_mode) cs (hasnt→All m cs h) (hasnt→All n cs k)

  modes-Reconciles :
      (a d n : Bool)
      → has cs additive ≡ a
      → has cs deductive ≡ d
      → has cs all_or_nothing ≡ n
      → (reconcile_modes a d n (total_of cs additive) (total_of cs deductive) q (all_full cs q)).0
        ≡ true
      → Reconciles cs q
  unfolding reconcile_modes
  modes-Reconciles true false false ha hd hn h =
      awards some_criterion
        (only additive deductive all_or_nothing (ground arith) (ground arith) (ground arith) hd hn)
        (ground (arith, total_of-additive cs))
  modes-Reconciles false true false ha hd hn h =
      deductions some_criterion
        (only deductive additive all_or_nothing (ground arith) (ground arith) (ground arith) ha hn)
        (ground (arith, total_of-deductive cs))
  modes-Reconciles false false true ha hd hn h =
      let aon =
        only all_or_nothing additive deductive (ground arith) (ground arith) (ground arith) ha hd in
      bands some_criterion aon (full→All q cs aon h)
  modes-Reconciles true true false ha hd hn h =
      mixed (has→Any additive cs ha) (has→Any deductive cs hd) (hasnt→All all_or_nothing cs hn)
        (ground (arith, total_of-additive cs)) (ground (arith, total_of-deductive cs))
  modes-Reconciles true true true ha hd hn h = cc
  modes-Reconciles true false true ha hd hn h = cc
  modes-Reconciles false true true ha hd hn h = cc
  modes-Reconciles false false false ha hd hn h = cc

  InMode-has : (m : ScoringMode) → InMode m cs → has cs m ≡ true
  unfolding has
  InMode-has m h = Any→has m cs (some_of_All cs some_criterion h)

  InMode-hasnt : (l m : ScoringMode) → l ≢ m → InMode l cs → has cs m ≡ false
  InMode-hasnt l m ne h = All→hasnt m cs (All-imp (λ c e. other l m c.scoring_mode ne e) cs h)

  Reconciles-modes :
      Reconciles cs q
      → (reconcile_modes
          (has cs additive)
          (has cs deductive)
          (has cs all_or_nothing)
          (total_of cs additive)
          (total_of cs deductive)
          q
          (all_full cs q)).0
        ≡ true
  unfolding reconcile_modes
  Reconciles-modes (awards _ m e) =
      rw
        (
          InMode-has additive m,
          InMode-hasnt additive deductive (ground arith) m,
          InMode-hasnt additive all_or_nothing (ground arith) m,
        )
        (ground (arith, total_of-additive cs))
  Reconciles-modes (deductions _ m e) =
      rw
        (
          InMode-has deductive m,
          InMode-hasnt deductive additive (ground arith) m,
          InMode-hasnt deductive all_or_nothing (ground arith) m,
        )
        (ground (arith, total_of-deductive cs))
  Reconciles-modes (bands _ m e) =
      rw
        (
          InMode-has all_or_nothing m,
          InMode-hasnt all_or_nothing additive (ground arith) m,
          InMode-hasnt all_or_nothing deductive (ground arith) m,
        )
        (All→full q cs m e)
  Reconciles-modes (mixed a d n e le) =
      rw (Any→has additive cs a, Any→has deductive cs d, All→hasnt all_or_nothing cs n)
        (ground (arith, total_of-additive cs, total_of-deductive cs))

-- `reconcile_rubric` answers valid exactly for the rubrics that the documented semantics admits.
pub reconcile_rubric-Reconciles :
    (cs : List RubricCriterion) (question_max : ℕ)
    → ((reconcile_rubric cs question_max).0 ≡ true) ↔ Reconciles cs question_max
unfolding reconcile_rubric
reconcile_rubric-Reconciles [] q = (λ h. cc, λ h. absurd (not-Reconciles-nil q h))
reconcile_rubric-Reconciles (c ∷ cs) q = (
  modes-Reconciles (c ∷ cs) q cons≢nil _ _ _ refl refl refl,
  Reconciles-modes (c ∷ cs) q cons≢nil,
)
