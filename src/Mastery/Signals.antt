-- ===== src/Mastery/Signals.antt =====
-- Which codes make a signal weak.
use eduvijna_paper_evaluatio.Prelude.{
  ok, ◌&&◌, ltb, ◌==◌, ◌*◌, round_half_even, ◌∙◌, ℕ, ◌≡◌, ◌↔◌, refl, Bool, true, false, not, ◌||◌,
  List, [], ◌∷◌, String, arith, eq_iff, all, select, has_text, meets, within, sorted_unique,
  insert_text,
}
use eduvijna_paper_evaluatio.Prelude.Int.{ℤ, pos_part}
use eduvijna_paper_evaluatio.Mastery.Scores.{derive-eq-ok}
use eduvijna_paper_evaluatio.Mastery.Codes.{
  review_inconclusive_codes, concept_weak_codes, execution_weak_codes, procedure_weak_codes,
  non_concept_weakness_codes,
}
use eduvijna_paper_evaluatio.Mastery.Derivation.{
  strong, derive_b8_v1_signals, Strength, weak, DerivedSignals, review_codes, academic_codes,
  is_academic, is_empty, decided, uniform, derive_in_range,
}

-- A code of one set is in none of the sets that it shares no code with.
disjoint :
    (ns cs : List String) (t : String)
    → all (λ n. not (has_text cs n)) ns ≡ true
    → has_text ns t ≡ true
    → has_text cs t ≡ false
unfolding has_text all
disjoint [] cs t a h = cc
disjoint (n ∷ ns) cs t a h = ground (arith, eq_iff n t, disjoint ns cs t)

module _ (cs : List String) (nonempty : has_text cs "" ≡ false) where
  meets-insert_text :
      (s : String) (ts : List String) → meets (insert_text s ts) cs ≡ (has_text cs s || meets ts cs)
  unfolding meets insert_text
  meets-insert_text s [] = refl
  meets-insert_text s (t ∷ ts) = ground (arith, eq_iff s t, meets-insert_text s ts)

  meets-sorted_unique : (ts : List String) → meets (sorted_unique ts) cs ≡ meets ts cs
  unfolding meets sorted_unique
  meets-sorted_unique [] = refl
  meets-sorted_unique (t ∷ ts) =
      ground (arith, eq_iff t "", meets-sorted_unique ts, meets-insert_text t (sorted_unique ts))

  meets-select :
      (test : String → Bool) (ts : List String)
      → ((t : String) → has_text cs t ≡ true → test t ≡ true)
      → meets (select test ts) cs ≡ meets ts cs
  unfolding meets select
  meets-select test [] keep = refl
  meets-select test (t ∷ ts) keep = ground (arith, keep t, meets-select test ts keep)

all-has_text :
    (test : String → Bool) (cs : List String) (t : String)
    → all test cs ≡ true
    → has_text cs t ≡ true
    → test t ≡ true
unfolding has_text all
all-has_text test [] t a h = cc
all-has_text test (c ∷ cs) t a h = ground (arith, eq_iff c t, all-has_text test cs t)

-- The filter for academic codes loses no code of a set without review conditions and BLANK.
meets-academic :
    (cs codes : List String)
    → has_text cs "" ≡ false
    → all is_academic cs ≡ true
    → meets (academic_codes codes) cs ≡ meets codes cs
unfolding academic_codes
meets-academic cs codes ne a =
    meets-sorted_unique cs ne (select is_academic codes)
    ∙ meets-select cs ne is_academic codes (λ t. all-has_text is_academic cs t a)

is_empty-insert_text : (s : String) (ts : List String) → is_empty (insert_text s ts) ≡ false
unfolding insert_text
is_empty-insert_text s [] = refl
is_empty-insert_text s (t ∷ ts) = ground arith

is_empty-select :
    (cs : List String)
    → has_text cs "" ≡ false
    → (ts : List String) → is_empty (sorted_unique (select (has_text cs) ts)) ≡ not (meets ts cs)
unfolding meets select sorted_unique
is_empty-select cs ne [] = refl
is_empty-select cs ne (t ∷ ts) = ground (
  arith,
  eq_iff t "",
  is_empty-select cs ne ts,
  is_empty-insert_text t (sorted_unique (select (has_text cs) ts)),
)

is_empty-review :
    (codes : List String)
    → is_empty (review_codes codes) ≡ not (meets codes review_inconclusive_codes)
unfolding review_codes
is_empty-review codes = is_empty-select review_inconclusive_codes refl codes

-- Codes that lie within one set meet no set that is disjoint from it.
within-meets :
    (ns cs ts : List String)
    → all (λ n. not (has_text cs n)) ns ≡ true
    → within ts ns ≡ true
    → meets ts cs ≡ false
unfolding within meets
within-meets ns cs [] a h = refl
within-meets ns cs (t ∷ ts) a h = ground (arith, disjoint ns cs t a, within-meets ns cs ts a)

module _ (academic review : List String) (ratio : ℕ) (cw ew pw full zero positive : Bool) where
  abbrev outcome : DerivedSignals
  outcome = decided academic review ratio cw ew pw full zero positive

  decided-weak :
      (within academic non_concept_weakness_codes ≡ true
        → (cw ≡ false) × (ew ≡ false) × (pw ≡ false))
      → ((outcome.concept ≡ weak) ↔ (cw ≡ true))
        × ((outcome.execution ≡ weak) ↔ (ew ≡ true))
        × ((outcome.procedure ≡ weak) ↔ (pw ≡ true))
  unfolding decided
  decided-weak apart = ground arith

-- The script is neither blank nor under a review condition.
abbrev pub IsDecisive : List String → Bool → Type 0
IsDecisive codes is_blank = (is_blank ≡ false) × (meets codes review_inconclusive_codes ≡ false)

abbrev pub WeakBy : Strength → List String → Bool → List String → Type 0
WeakBy s codes is_blank set = (s ≡ weak) ↔ (IsDecisive codes is_blank × (meets codes set ≡ true))

module _ (final_score max_mark : ℕ) (codes : List String) where
  separate :
      within (academic_codes codes) non_concept_weakness_codes ≡ true
      → (meets (academic_codes codes) concept_weak_codes ≡ false)
        × (meets (academic_codes codes) execution_weak_codes ≡ false)
        × (meets (academic_codes codes) procedure_weak_codes ≡ false)
  unfolding has_text all
  separate h = (
    within-meets non_concept_weakness_codes concept_weak_codes (academic_codes codes) refl h,
    within-meets non_concept_weakness_codes execution_weak_codes (academic_codes codes) refl h,
    within-meets non_concept_weakness_codes procedure_weak_codes (academic_codes codes) refl h,
  )

  in_range-weak :
      (is_blank : Bool)
      → WeakBy
          (derive_in_range final_score max_mark codes is_blank).concept
          codes
          is_blank
          concept_weak_codes
        × WeakBy
            (derive_in_range final_score max_mark codes is_blank).execution
            codes
            is_blank
            execution_weak_codes
        × WeakBy
            (derive_in_range final_score max_mark codes is_blank).procedure
            codes
            is_blank
            procedure_weak_codes
  unfolding derive_in_range uniform has_text all
  in_range-weak is_blank = ground (
    arith,
    is_empty-review codes,
    meets-academic concept_weak_codes codes refl refl,
    meets-academic execution_weak_codes codes refl refl,
    meets-academic procedure_weak_codes codes refl refl,
    decided-weak (academic_codes codes) (review_codes codes)
        (round_half_even (final_score * 1_000_000) max_mark)
        (meets (academic_codes codes) concept_weak_codes)
        (meets (academic_codes codes) execution_weak_codes)
        (meets (academic_codes codes) procedure_weak_codes) (final_score == max_mark)
        (final_score == 0) (ltb 0 final_score) separate,
  )

abbrev pub StrongBy : Strength → List String → Bool → List String → Bool → Type 0
StrongBy s codes is_blank set earned =
    (s ≡ strong) ↔ (IsDecisive codes is_blank × (meets codes set ≡ false) × (earned ≡ true))

module _ (academic review : List String) (ratio : ℕ) (cw ew pw full zero positive : Bool) where
  decided-strong :
      (within academic non_concept_weakness_codes ≡ true
        → (cw ≡ false) × (ew ≡ false) × (pw ≡ false))
      → (((outcome academic review ratio cw ew pw full zero positive).concept ≡ strong)
          ↔ ((cw ≡ false) × ((full || (ew && positive)) ≡ true)))
        × (((outcome academic review ratio cw ew pw full zero positive).execution ≡ strong)
            ↔ ((ew ≡ false) × (full ≡ true)))
        × (((outcome academic review ratio cw ew pw full zero positive).procedure ≡ strong)
            ↔ ((pw ≡ false) × (full ≡ true)))
  unfolding decided
  decided-strong apart = ground arith

module _ (final_score max_mark : ℕ) (codes : List String) where
  abbrev pub slip : Bool
  slip = meets codes execution_weak_codes && ltb 0 final_score

  in_range-strong :
      (is_blank : Bool)
      → StrongBy
          (derive_in_range final_score max_mark codes is_blank).concept
          codes
          is_blank
          concept_weak_codes
          ((final_score == max_mark) || slip)
        × StrongBy
            (derive_in_range final_score max_mark codes is_blank).execution
            codes
            is_blank
            execution_weak_codes
            (final_score == max_mark)
        × StrongBy
            (derive_in_range final_score max_mark codes is_blank).procedure
            codes
            is_blank
            procedure_weak_codes
            (final_score == max_mark)
  unfolding derive_in_range uniform has_text all
  in_range-strong is_blank = ground (
    arith,
    is_empty-review codes,
    meets-academic concept_weak_codes codes refl refl,
    meets-academic execution_weak_codes codes refl refl,
    meets-academic procedure_weak_codes codes refl refl,
    decided-strong (academic_codes codes) (review_codes codes)
        (round_half_even (final_score * 1_000_000) max_mark)
        (meets (academic_codes codes) concept_weak_codes)
        (meets (academic_codes codes) execution_weak_codes)
        (meets (academic_codes codes) procedure_weak_codes) (final_score == max_mark)
        (final_score == 0) (ltb 0 final_score) (separate final_score max_mark codes),
  )

-- For every score in range, each signal is WEAK exactly if the script is neither blank nor under
-- a review condition and carries a code of that signal's own set.
pub derive_b8_v1_signals-weak :
    (final_score max_mark : ℤ) (codes : List String) (is_blank : Bool) (s : DerivedSignals)
    → derive_b8_v1_signals final_score max_mark codes is_blank ≡ ok s
    → WeakBy s.concept codes is_blank concept_weak_codes
      × WeakBy s.execution codes is_blank execution_weak_codes
      × WeakBy s.procedure codes is_blank procedure_weak_codes
derive_b8_v1_signals-weak final_score max_mark codes is_blank s h =
    let (range, e) = derive-eq-ok final_score max_mark codes is_blank h in
    rw (← e) (in_range-weak (pos_part final_score) (pos_part max_mark) codes is_blank)

-- For every score in range and a script that is neither blank nor under a review condition, a
-- signal is STRONG exactly if no code of its own set is there and the marks are full, or, for the
-- concept alone, the score is positive and an execution code explains the loss.
pub derive_b8_v1_signals-strong :
    (final_score max_mark : ℤ) (codes : List String) (is_blank : Bool) (s : DerivedSignals)
    → derive_b8_v1_signals final_score max_mark codes is_blank ≡ ok s
    → StrongBy s.concept codes is_blank concept_weak_codes (
        (pos_part final_score == pos_part max_mark)
        || slip (pos_part final_score) (pos_part max_mark) codes)
      × StrongBy s.execution codes is_blank execution_weak_codes
          (pos_part final_score == pos_part max_mark)
      × StrongBy s.procedure codes is_blank procedure_weak_codes
          (pos_part final_score == pos_part max_mark)
derive_b8_v1_signals-strong final_score max_mark codes is_blank s h =
    let (range, e) = derive-eq-ok final_score max_mark codes is_blank h in
    rw (← e) (in_range-strong (pos_part final_score) (pos_part max_mark) codes is_blank)
