-- ===== src/Grading/Proposal/Valid.antt =====
-- What a result that passes the validation says of each criterion, and what the ledger takes of it.
use mathlib.Core.Path.{subst}
use eduvijna_paper_evaluatio.Prelude.{
  ℕ, ◌≡◌, ◌≢◌, refl, sym, ap, ◌∙◌, true, false, Bool, not, ◌&&◌, ==_iff, Option, some, none, List,
  [], ◌∷◌, ok, All, All-imp, guard, require, >>=-eq-ok, ok-injective, require-eq-ok, guard-eq-ok,
  contains, all, arith,
}
use eduvijna_paper_evaluatio.Prelude.Int.{ℤ, pos, ◌+ℤ◌, ◌≤ℤ◌, ltb_ℤ, +ℤ_parts}
use eduvijna_paper_evaluatio.Grading.Proposal.{
  ScoredCriterion, Proposal, ProviderResult, reject, is_known, is_known_or_none, is_within,
  has_no_ecf, criterion_of, check_proposal, add_marks, check_proposals, is_close, conclude_total,
  validate_provider_result,
}

-- The proposal gives its criterion of the rubric marks between 0 and the criterion's maximum.
pub record Scored (criteria : List ScoredCriterion) (p : Proposal) : Type 0 where
  pub criterion : ScoredCriterion
  pub found : criterion_of criteria p.rubric_criterion_id ≡ some criterion
  pub marks : ℤ
  pub given : p.proposed_marks ≡ some marks
  pub low : pos 0 ≤ℤ marks
  pub high : marks ≤ℤ criterion.max_marks

-- No two proposals are for one criterion.
abbrev pub Distinct : List Proposal → Type 0
Distinct [] = Unit
Distinct (p ∷ ps) =
    All (λ (q : Proposal). q.rubric_criterion_id ≢ p.rubric_criterion_id) ps × Distinct ps

abbrev pub marks_or_zero : Proposal → ℤ
marks_or_zero p = elim p.proposed_marks [ some m ↦ m | none ↦ pos 0 ]

unfoldable pub marks_total : List Proposal → ℤ
unfolding ◌+ℤ◌
marks_total [] = pos 0
marks_total (p ∷ ps) = marks_or_zero p +ℤ marks_total ps

is_within-bounds : (high x : ℤ) → is_within high (some x) ≡ true → (pos 0 ≤ℤ x) × (x ≤ℤ high)
unfolding is_within
is_within-bounds high x h = ground arith

marks_given : (p : Proposal) (m : ℤ) → p.proposed_marks ≡ some m → m ≡ marks_or_zero p
marks_given p m e = rw e refl

module _ (criteria : List ScoredCriterion) (ecf_applied : Bool) where
  check_proposal-Scored :
      (seen : List ℕ) (p : Proposal) (m : ℤ) {u : Unit {0}}
      → check_proposal criteria ecf_applied seen p ≡ ok u
      → p.proposed_marks ≡ some m
      → Scored criteria p × (contains seen p.rubric_criterion_id ≡ false)
  unfolding check_proposal
  check_proposal-Scored seen p m h e =
      let (c, found, h₁) =
        >>=-eq-ok (require (criterion_of criteria p.rubric_criterion_id) reject) _ h in
      let (a, unseen, h₂) =
        >>=-eq-ok (guard (not (contains seen p.rubric_criterion_id)) reject) _ h₁ in
      let (b, known, h₃) = >>=-eq-ok (guard (is_known_or_none p.error_code) reject) _ h₂ in
      let (d, within, h₄) =
        >>=-eq-ok (guard (is_within c.max_marks p.proposed_marks) reject) _ h₃ in
      let (low, high) =
        is_within-bounds c.max_marks m
          (ap (is_within c.max_marks) (sym e) ∙ guard-eq-ok _ _ within) in
      let fresh = guard-eq-ok (not (contains seen p.rubric_criterion_id)) reject unseen in
      (
        record {
          criterion = c;
          found = require-eq-ok _ _ found;
          marks = m;
          given = e;
          low = low;
          high = high;
        },
        ground arith,
      )

  record Checked (seen : List ℕ) (ps : List Proposal) (t : ℤ) : Type 0 where
    scored : All (Scored criteria) ps
    unseen : All (λ (q : Proposal). contains seen q.rubric_criterion_id ≡ false) ps
    distinct : Distinct ps
    total : t ≡ marks_total ps

  seen_split :
      (x : ℕ) (seen : List ℕ) (q : Proposal)
      → contains (x ∷ seen) q.rubric_criterion_id ≡ false
      → (q.rubric_criterion_id ≢ x) × (contains seen q.rubric_criterion_id ≡ false)
  unfolding contains
  seen_split x seen q h = ((λ e. ground (arith, ==_iff x q.rubric_criterion_id)), ground arith)

  added_marks :
      (marks : Option ℤ) (sums : ℤ × Bool) (t : ℤ)
      → ◌≡◌ {A = ℤ × Bool} (add_marks marks sums) (t, false)
      → (m : ℤ) × (marks ≡ some m) × (t ≡ m +ℤ sums.0) × (sums.1 ≡ false)
  unfolding add_marks
  added_marks none sums t h = cc (ap (λ (p : ℤ × Bool). p.1) h)
  added_marks (some m) sums t h =
      (m, refl, sym (ap (λ (p : ℤ × Bool). p.0) h), ap (λ (p : ℤ × Bool). p.1) h)

  check_proposals-Checked :
      (seen : List ℕ) (ps : List Proposal) (t : ℤ)
      → check_proposals criteria ecf_applied seen ps ≡ ok (t, false)
      → Checked seen ps t
  unfolding check_proposals marks_total
  check_proposals-Checked seen [] t h = record {
    scored = tt;
    unseen = tt;
    distinct = tt;
    total = sym (ap (λ (p : ℤ × Bool). p.0) (ok-injective h));
  }
  check_proposals-Checked seen (p ∷ ps) t h =
      let (u, one, h₁) = >>=-eq-ok (check_proposal criteria ecf_applied seen p) _ h in
      let (rest, later, h₂) =
        >>=-eq-ok (check_proposals criteria ecf_applied (p.rubric_criterion_id ∷ seen) ps) _ h₁ in
      let (m, given, total, full) = added_marks p.proposed_marks rest t (ok-injective h₂) in
      let checked =
        check_proposals-Checked (p.rubric_criterion_id ∷ seen) ps rest.0
          (later ∙ ap (λ (b : Bool). ok (rest.0, b)) full) in
      let (scored, unseen) = check_proposal-Scored seen p m one given in
      record {
        scored = (scored, checked.scored);
        unseen = (
          unseen,
          All-imp (λ q e. (seen_split p.rubric_criterion_id seen q e).1) ps checked.unseen,
        );
        distinct = (
          All-imp (λ q e. (seen_split p.rubric_criterion_id seen q e).0) ps checked.unseen,
          checked.distinct,
        );
        total =
            total
            ∙ (ap (λ (x : ℤ). m +ℤ x) checked.total
                ∙ ap (λ (x : ℤ). x +ℤ marks_total ps) (marks_given p m given));
      }

-- Marks between 0 and their maxima add up to no negative total.
Scored-total :
    (criteria : List ScoredCriterion) (ps : List Proposal)
    → All (Scored criteria) ps
    → pos 0 ≤ℤ marks_total ps
unfolding marks_total
Scored-total criteria [] h = omega arith
Scored-total criteria (p ∷ ps) (s, ss) =
    let rest = Scored-total criteria ps ss in
    let first = subst (λ (x : ℤ). pos 0 ≤ℤ x) (marks_given p s.marks s.given) s.low in
    omega (arith, +ℤ_parts (marks_or_zero p) (marks_total ps))

-- Every proposal is for a criterion of the rubric and gives it marks within its range, no two are
-- for one criterion, and the total is the sum of the marks, between 0 and the maximum of the
-- question, and at most a ten-thousandth away from the provider's.
pub record Valid (r : ProviderResult) (criteria : List ScoredCriterion) (max_mark t : ℤ)
    : Type 0 where
  pub scored : All (Scored criteria) r.criterion_proposals
  pub distinct : Distinct r.criterion_proposals
  pub total : t ≡ marks_total r.criterion_proposals
  pub low : pos 0 ≤ℤ t
  pub high : t ≤ℤ max_mark
  pub proposed : ℤ
  pub proposed_total : r.proposed_total ≡ some proposed
  pub close : is_close proposed t ≡ true
  pub known : all is_known r.error_codes ≡ true

concluded :
    (max_mark : ℤ) (proposed_total : Option ℤ) (sums : ℤ × Bool) (t : ℤ)
    → conclude_total max_mark proposed_total sums ≡ ok (some t)
    → (sums ≡ (t, false))
      × (t ≤ℤ max_mark)
      × (x : ℤ) × (proposed_total ≡ some x)
      × (is_close x t ≡ true)
unfolding conclude_total
concluded max_mark proposed_total (s, true) t h = cc (ok-injective h)
concluded max_mark none (s, false) t h = cc (ok-injective h)
concluded max_mark (some x) (s, false) t h =
    let (u, below, h₁) = >>=-eq-ok (guard (not (ltb_ℤ max_mark s)) reject) _ h in
    let (v, near, h₂) = >>=-eq-ok (guard (is_close x s) reject) _ h₁ in
    let same : s ≡ t = cc (ok-injective h₂) in
    let under = guard-eq-ok (not (ltb_ℤ max_mark s)) reject below in
    (
      ap (λ (y : ℤ). (y, false)) same,
      subst (λ (y : ℤ). y ≤ℤ max_mark) same (ground arith),
      x,
      refl,
      ap (is_close x) (sym same) ∙ guard-eq-ok _ _ near,
    )

pub validate_provider_result-Valid :
    (r : ProviderResult) (criteria : List ScoredCriterion) (max_mark t : ℤ)
    → validate_provider_result r criteria max_mark ≡ ok (some t)
    → Valid r criteria max_mark t
unfolding validate_provider_result
validate_provider_result-Valid r criteria max_mark t h =
    let (a, confident, h₁) =
      >>=-eq-ok (guard (is_within (pos 10_000) r.evaluation_confidence) reject) _ h in
    let (b, known, h₂) = >>=-eq-ok (guard (all is_known r.error_codes) reject) _ h₁ in
    let (sums, checked, h₃) =
      >>=-eq-ok (check_proposals criteria r.ecf_applied [] r.criterion_proposals) _ h₂ in
    let (c, allowed, h₄) =
      >>=-eq-ok (guard (not (r.ecf_applied && all has_no_ecf criteria)) reject) _ h₃ in
    let (whole, high, x, proposed, close) = concluded max_mark r.proposed_total sums t h₄ in
    let k =
      check_proposals-Checked criteria r.ecf_applied [] r.criterion_proposals t
        (checked ∙ ap ok whole) in
    record {
      scored = k.scored;
      distinct = k.distinct;
      total = k.total;
      low =
          subst (λ (y : ℤ). pos 0 ≤ℤ y) (sym k.total)
            (Scored-total criteria r.criterion_proposals k.scored);
      high = high;
      proposed = x;
      proposed_total = proposed;
      close = close;
      known = guard-eq-ok _ _ known;
    }
