-- ===== src/Assessment/Readiness/Needs.antt =====
-- What readiness asks of the rows: leaves, approved versions and criteria, apart from the queries of
-- readiness.py.
use mathlib.Core.Path.{subst}
use eduvijna_paper_evaluatio.Prelude.{
  ℕ, ◌≡◌, ◌≢◌, refl, ap, sym, Bool, true, false, ◌&&◌, Option, none, some, List, [], ◌∷◌, ◌==◌,
  ==_iff, Bool-cases, inl, inr, All, contains, select, Selected, select-Selected, Selected-select,
  select_twice, arith, ◌∙◌,
}
use eduvijna_paper_evaluatio.Assessment.Marks.{
  QuestionMode, leaf_scorable, container_derived, QuestionVersion, is_leaf_scorable, cons_parent,
  parent_ids, is_leaf, leaves,
}
use eduvijna_paper_evaluatio.Assessment.Rubric.{RubricCriterion}
use eduvijna_paper_evaluatio.Assessment.Readiness.{
  VersionStatus, AnswerKeyVersion, RubricVersion, AssessmentVersion, Tables, is_approved,
  questions_of,
}

module _ (tenant_id : ℕ) where
  pub record IsQuestion (v : AssessmentVersion) (q : QuestionVersion) : Type 0 where
    pub tenant : q.tenant_id ≡ tenant_id
    pub version : q.assessment_version_id ≡ v.id

  -- A question of the version that has the other as its parent.
  pub record IsPart (v : AssessmentVersion) (q part : QuestionVersion) : Type 0 where
    pub question : IsQuestion v part
    pub parent : part.parent_question_version_id ≡ some q.id

  pub record IsApprovedKey (q : QuestionVersion) (k : AnswerKeyVersion) : Type 0 where
    pub tenant : k.tenant_id ≡ tenant_id
    pub question : k.question_version_id ≡ q.id
    pub approved : k.status ≡ VersionStatus.approved

  pub record IsApprovedRubric (q : QuestionVersion) (r : RubricVersion) : Type 0 where
    pub tenant : r.tenant_id ≡ tenant_id
    pub question : r.question_version_id ≡ q.id
    pub approved : r.status ≡ VersionStatus.approved

  pub record IsCriterion (r : RubricVersion) (c : RubricCriterion) : Type 0 where
    pub tenant : c.tenant_id ≡ tenant_id
    pub rubric : c.rubric_version_id ≡ r.id

-- A scorable question of the version that is the parent of no other.
pub record IsLeaf (db : Tables) (tenant_id : ℕ) (v : AssessmentVersion) (q : QuestionVersion)
    : Type 0 where
  pub question : IsQuestion tenant_id v q
  pub scorable : q.scoring_mode ≡ leaf_scorable
  pub childless : All (λ p. ¬ IsPart tenant_id v q p) db.questions

pub both_keys : (a b c d : ℕ) → (a == b && c == d) ≡ true → (a ≡ b) × (c ≡ d)
both_keys a b c d h = (ground (arith, ==_iff a b), ground (arith, ==_iff c d))

pub keys_test : (a b c d : ℕ) → a ≡ b → c ≡ d → (a == b && c == d) ≡ true
keys_test a b c d e f = ground (arith, ==_iff a b, ==_iff c d)

pub approved_status : (s : VersionStatus) → is_approved s ≡ true → s ≡ VersionStatus.approved
unfolding is_approved
approved_status VersionStatus.approved h = refl
approved_status VersionStatus.draft h = cc
approved_status VersionStatus.review_required h = cc
approved_status VersionStatus.superseded h = cc

scorable_mode : (m : QuestionMode) → is_leaf_scorable m ≡ true → m ≡ leaf_scorable
unfolding is_leaf_scorable
scorable_mode leaf_scorable h = refl
scorable_mode container_derived h = cc

no_parent :
    (o : Option ℕ) (ids : List ℕ) (id : ℕ)
    → contains (cons_parent o ids) id ≡ false
    → (o ≢ some id) × (contains ids id ≡ false)
unfolding cons_parent contains
no_parent none ids id h = (λ e. cc, h)
no_parent (some p) ids id h =
    (λ e. let same : p ≡ id = cc e in ground (arith, ==_iff p id), ground arith)

not_parented :
    (o : Option ℕ) (ids : List ℕ) (id : ℕ)
    → o ≢ some id
    → contains ids id ≡ false
    → contains (cons_parent o ids) id ≡ false
unfolding cons_parent contains
not_parented none ids id n h = h
not_parented (some p) ids id n h = elim (Bool-cases (p == id)) [
  | inl yes' ↦ absurd (n (ap some ((==_iff p id).0 yes')))
  | inr no' ↦ ground arith
]

module _ (db : Tables) (tenant_id : ℕ) (v : AssessmentVersion) where
  abbrev is_of : QuestionVersion → Bool
  is_of q = q.tenant_id == tenant_id && q.assessment_version_id == v.id

  is_of-IsQuestion : (q : QuestionVersion) → is_of q ≡ true → IsQuestion tenant_id v q
  is_of-IsQuestion q h =
      let (tenant, version) = both_keys q.tenant_id tenant_id q.assessment_version_id v.id h in
      record { tenant = tenant; version = version }

  IsQuestion-is_of : (q : QuestionVersion) → IsQuestion tenant_id v q → is_of q ≡ true
  IsQuestion-is_of q i =
      keys_test q.tenant_id tenant_id q.assessment_version_id v.id i.tenant i.version

  childless :
      (q : QuestionVersion) (qs : List QuestionVersion)
      → contains (parent_ids (select is_of qs)) q.id ≡ false
      → All (λ p. ¬ IsPart tenant_id v q p) qs
  unfolding select parent_ids
  childless q [] h = tt
  childless q (p ∷ ps) h = elim (Bool-cases (is_of p)) [
    | inl yes' ↦
        let (other, rest) =
          no_parent p.parent_question_version_id (parent_ids (select is_of ps)) q.id
            (rw yes' at h) in
        (λ i. other i.parent, childless q ps rest)
    | inr no' ↦
        let rest = childless q ps (rw no' at h) in
        (λ i. cc (no', IsQuestion-is_of p i.question), rest)
  ]

  no_part :
      (q : QuestionVersion) (qs : List QuestionVersion)
      → All (λ p. ¬ IsPart tenant_id v q p) qs
      → contains (parent_ids (select is_of qs)) q.id ≡ false
  unfolding select parent_ids contains
  no_part q [] h = refl
  no_part q (p ∷ ps) (n, ns) = elim (Bool-cases (is_of p)) [
    | inl yes' ↦ rw yes' (
        not_parented p.parent_question_version_id (parent_ids (select is_of ps)) q.id
          (λ e. n (record { question = is_of-IsQuestion p yes'; parent = e })) (no_part q ps ns))
    | inr no' ↦ rw no' (no_part q ps ns)
  ]

  abbrev leaf_test : QuestionVersion → Bool
  leaf_test q = is_of q && is_leaf (parent_ids (select is_of db.questions)) q

  leaf_test-IsLeaf : (q : QuestionVersion) → leaf_test q ≡ true → IsLeaf db tenant_id v q
  unfolding is_leaf
  leaf_test-IsLeaf q h = record {
    question = is_of-IsQuestion q (ground arith);
    scorable = scorable_mode q.scoring_mode (ground arith);
    childless = childless q db.questions (ground arith);
  }

  not-IsLeaf : (q : QuestionVersion) → leaf_test q ≡ false → ¬ IsLeaf db tenant_id v q
  unfolding is_leaf is_leaf_scorable
  not-IsLeaf q h leaf = ground (
    arith,
    IsQuestion-is_of q leaf.question,
    ap is_leaf_scorable leaf.scorable,
    no_part q db.questions leaf.childless,
  )

  leaves_test : leaves (questions_of db tenant_id v) ≡ select leaf_test db.questions
  unfolding leaves questions_of
  leaves_test = select_twice (is_leaf (parent_ids (select is_of db.questions))) is_of db.questions

  pub leaves-Selected :
      Selected (IsLeaf db tenant_id v) db.questions (leaves (questions_of db tenant_id v))
  leaves-Selected =
      subst (Selected (IsLeaf db tenant_id v) db.questions) (sym leaves_test)
        (select-Selected (IsLeaf db tenant_id v) leaf_test leaf_test-IsLeaf not-IsLeaf db.questions)

  pub Selected-leaves :
      {qs : List QuestionVersion}
      → Selected (IsLeaf db tenant_id v) db.questions qs
      → leaves (questions_of db tenant_id v) ≡ qs
  Selected-leaves s =
      leaves_test
      ∙ sym (Selected-select (IsLeaf db tenant_id v) leaf_test leaf_test-IsLeaf not-IsLeaf s)
