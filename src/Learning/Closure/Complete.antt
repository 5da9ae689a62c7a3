-- ===== src/Learning/Closure/Complete.antt =====
-- What lies behind the target is collected by the search.
use mathlib.Core.Path.{subst}
use eduvijna_paper_evaluatio.Prelude.{
  ℕ, zero, suc, ◌≡◌, refl, ap, ◌∙◌, Bool, true, false, ◌==◌, ==_iff, ==_refl, some, List, [], ◌∷◌,
  contains, All, Any, All-imp, All-Any, select-All, Bool-cases, inl, inr, ◌⊎◌, length, arith,
}
use eduvijna_paper_evaluatio.Learning.Graph.{
  RelationshipType, PrerequisiteEdge, same_type, edges_by_dependent,
}
use eduvijna_paper_evaluatio.Learning.Closure.{
  Search, visit_edges, search, transitive_prerequisites,
}
use eduvijna_paper_evaluatio.Learning.Closure.Fuel.{edges_of}
use eduvijna_paper_evaluatio.Learning.Closure.Reachable.{
  Leads, at_target, through, IsBehind, some-injective,
}
use eduvijna_paper_evaluatio.Learning.Closure.Invariants.{
  IsKeyed, Collected, Seen, Kept, Closed, Settled, visit_edges-Kept, visit_edges-Settled,
  visit_edges-Grows,
}

contains-All {κ} : (P : ℕ → Type κ) (xs : List ℕ) (k : ℕ) → All P xs → contains xs k ≡ true → P k
unfolding contains
contains-All P [] k h c = cc
contains-All P (x ∷ xs) k (p, ps) c = elim (Bool-cases (x == k)) [
  | inl yes' ↦ subst P ((==_iff x k).0 yes') p
  | inr no' ↦ contains-All P xs k ps (ground arith)
]

nothing_waits : (k : ℕ) → ¬ (contains [] k ≡ true)
unfolding contains
nothing_waits k e = cc

first_or_later :
    (k : ℕ) (queue : List ℕ) (j : ℕ) {C : Type 0}
    → contains (k ∷ queue) j ≡ true
    → ((k == j) ≡ true) ⊎ ((contains queue j ≡ true) ⊎ C)
unfolding contains
first_or_later k queue j w = elim (Bool-cases (k == j)) [
  | inl yes' ↦ inl yes'
  | inr no' ↦ inr (inl (ground arith))
]

module _ (edges : List PrerequisiteEdge) (relationship : RelationshipType)
    (keyed : IsKeyed edges) where
  abbrev nothing : ℕ → Bool
  nothing j = false

  popped :
      (k : ℕ) (queue : List ℕ) (s : Search)
      → k ∷ queue ≡ s.queue
      → Settled edges relationship keyed nothing s
      → Settled edges relationship keyed (λ j. k == j) (record s { queue = queue })
  unfolding contains
  popped k queue s same =
      All-imp
        (λ j o. elim o [
          | inl p ↦ cc
          | inr q ↦ elim q [
            | inl w ↦ first_or_later k queue j (ap (λ l. contains l j) same ∙ w)
            | inr c ↦ inr (inr c)
          ]
        ])
        s.seen_nodes

  pushed :
      (k : ℕ) (s : Search)
      → Closed edges relationship keyed s k
      → Settled edges relationship keyed (λ j. k == j) s
      → Settled edges relationship keyed nothing s
  pushed k s closed =
      All-imp
        (λ j o. elim o [
          | inl p ↦
              inr (inr (subst (λ i. Closed edges relationship keyed s i) ((==_iff k j).0 p) closed))
          | inr q ↦ inr q
        ])
        s.seen_nodes

  -- The state in which a search ends.
  record Ended (target_id : ℕ) (found : List PrerequisiteEdge) : Type 0 where
    last : Search
    collected : last.collected ≡ found
    kept : Kept edges relationship last
    closed : All (Closed edges relationship keyed last) last.seen_nodes
    seen : Seen last target_id

  search-Ended :
      (target_id fuel : ℕ) (queue : List ℕ) (s : Search) {found : List PrerequisiteEdge}
      → queue ≡ s.queue
      → Kept edges relationship s
      → Settled edges relationship keyed nothing s
      → Seen s target_id
      → search relationship edges fuel queue s ≡ some found
      → Ended target_id found
  unfolding search contains edges_by_dependent
  search-Ended target_id fuel [] s same kept settled seen e = record {
    last = s;
    collected = some-injective e;
    kept = kept;
    closed =
        All-imp
          (λ j o. elim o [
            | inl p ↦ cc
            | inr q ↦ elim q [
              | inl w ↦ absurd (nothing_waits j (ap (λ l. contains l j) same ∙ w))
              | inr c ↦ c
            ]
          ])
          s.seen_nodes settled;
    seen = seen;
  }
  search-Ended target_id zero (k ∷ queue) s same kept settled seen e = cc
  search-Ended target_id (suc fuel) (k ∷ queue) s same kept settled seen e =
      let now : Search = record s { queue = queue } in
      let out = edges_by_dependent edges k in
      let next = visit_edges relationship out now in
      let (kept', collected) =
        visit_edges-Kept edges relationship keyed out now (edges_of edges relationship k) kept in
      let settled' =
        visit_edges-Settled edges relationship keyed (λ j. k == j) out now
          (popped k queue s same settled) in
      search-Ended target_id fuel next.queue next refl kept'
        (pushed k next (select-All _ _ edges collected) settled')
        ((visit_edges-Grows edges relationship out now).seen target_id seen) e

  module _ (target_id : ℕ) {found : List PrerequisiteEdge} (end' : Ended target_id found) where
    Leads-Collected :
        (e : PrerequisiteEdge)
        → Any (λ x. x ≡ e) edges
        → same_type e.relationship_type relationship ≡ true
        → Seen end'.last e.dependent_node_id
        → Collected end'.last e
    Leads-Collected e m typed seen =
        All-Any _ e edges
          (contains-All (Closed edges relationship keyed end'.last) end'.last.seen_nodes
            e.dependent_node_id end'.closed seen)
          m (==_refl e.dependent_node_id) typed

    Leads-Seen : {k : ℕ} → Leads edges relationship target_id k → Seen end'.last k
    Leads-Seen at_target = end'.seen
    Leads-Seen (through e m typed l) =
        (All-Any _ e end'.last.collected end'.kept (Leads-Collected e m typed (Leads-Seen l))).1

  -- Every edge of the asked relationship from which a chain of such edges leads to the target is
  -- among the edges that the search collects, if identifiers of edges are unique.
  pub transitive_prerequisites_complete :
      (target_id : ℕ) (found : List PrerequisiteEdge)
      → transitive_prerequisites relationship edges target_id ≡ some found
      → (e : PrerequisiteEdge) → IsBehind edges relationship target_id e
      → Any (λ c. c ≡ e) found
  unfolding transitive_prerequisites contains
  transitive_prerequisites_complete target_id found h e behind =
      let ended =
        search-Ended target_id (suc (length edges)) (target_id ∷ []) _ refl tt
          (inr (inl (rw (==_refl target_id) refl)), tt) (rw (==_refl target_id) refl) h in
      subst (λ l. Any (λ c. c ≡ e) l) ended.collected
        (Leads-Collected target_id ended e behind.edge behind.typed
          (Leads-Seen target_id ended behind.leads))
