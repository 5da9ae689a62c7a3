-- ===== src/Prelude/Text.antt =====
-- Sets and sorted tuples of code strings.
use mathlib.Core.Logic.{inl, inr}
use eduvijna_paper_evaluatio.Prelude.Lists.{Any, here, there}
use Prim.Native.Nat.{Ordering}
use Prim.Native.String.{String, compare}
use mathlib.Core.Path.{◌≡◌, refl}
use mathlib.Core.Bool.{Bool, true, false, not, ◌&&◌, ◌||◌}
use mathlib.Core.List.{List, [], ◌∷◌}
use native.Mathlib.Omega.{arith}
use text.Mathlib.Text.{◌==◌ as str_eq}
use text.Mathlib.TextEquality.{eq_iff}
use eduvijna_paper_evaluatio.Prelude.Tests.{if◌then◌else◌, ||-eq-true}

-- `s in texts`
unfoldable pub has_text : List String → String → Bool
has_text [] s = false
has_text (t ∷ ts) s = str_eq t s || has_text ts s

-- `bool(set(texts) & set(codes))`
unfoldable pub meets : List String → List String → Bool
unfolding has_text
meets [] codes = false
meets (t ∷ ts) codes = has_text codes t || meets ts codes

-- `set(texts).issubset(codes)`
unfoldable pub within : List String → List String → Bool
unfolding has_text
within [] codes = true
within (t ∷ ts) codes = has_text codes t && within ts codes

abbrev pub str_lt : String → String → Bool
str_lt s t = elim (compare s t) [ Ordering.lt ↦ true | _ ↦ false ]

-- insertion into a sorted tuple without repeats
unfoldable pub insert_text : String → List String → List String
insert_text s [] = s ∷ []
insert_text s (t ∷ ts) =
    let rest = t ∷ insert_text s ts in
    if str_eq s t then t ∷ ts else if str_lt s t then s ∷ t ∷ ts else rest

-- `tuple(sorted({c for c in codes if c}))`
unfoldable pub sorted_unique : List String → List String
unfolding insert_text
sorted_unique [] = []
sorted_unique (c ∷ cs) =
    let rest = sorted_unique cs in if str_eq c "" then rest else insert_text c rest

pub has_text-insert_text :
    (s : String) (ts : List String) (u : String)
    → has_text (insert_text s ts) u ≡ (str_eq s u || has_text ts u)
unfolding has_text insert_text
has_text-insert_text s [] u = refl
has_text-insert_text s (t ∷ ts) u =
    ground (arith, eq_iff s t, eq_iff s u, eq_iff t u, has_text-insert_text s ts u)

-- Sorting and dropping repeats changes nothing but the empty text in what a tuple contains.
pub has_text-sorted_unique :
    (cs : List String) (u : String)
    → has_text (sorted_unique cs) u ≡ (not (str_eq u "") && has_text cs u)
unfolding has_text sorted_unique
has_text-sorted_unique [] u = ground arith
has_text-sorted_unique (c ∷ cs) u = ground (
  arith,
  eq_iff c "",
  eq_iff u "",
  eq_iff c u,
  has_text-sorted_unique cs u,
  has_text-insert_text c (sorted_unique cs) u,
)

pub has_text→Any : (ts : List String) (s : String) → has_text ts s ≡ true → Any (λ t. t ≡ s) ts
unfolding has_text
has_text→Any [] s h = cc
has_text→Any (t ∷ ts) s h = elim (||-eq-true (str_eq t s) (has_text ts s) h) [
  | inl same ↦ here ((eq_iff t s).0 same)
  | inr rest ↦ there (has_text→Any ts s rest)
]

pub meets→Any :
    (ts codes : List String) → meets ts codes ≡ true → Any (λ t. Any (λ c. c ≡ t) codes) ts
unfolding meets
meets→Any [] codes h = cc
meets→Any (t ∷ ts) codes h = elim (||-eq-true (has_text codes t) (meets ts codes) h) [
  | inl hit ↦ here (has_text→Any codes t hit)
  | inr rest ↦ there (meets→Any ts codes rest)
]
