-- ===== src/Learning/Closure/Invariants.antt =====
-- What the search keeps true of its queue, of the nodes it saw and of the edges it collected.
use eduvijna_paper_evaluatio.Prelude.{
  ℕ, ◌≡◌, refl, Bool, true, false, not, ◌&&◌, ◌==◌, ==_iff, ==_refl, List, [], ◌∷◌, ◌++◌, contains,
  map, All, Any, here, there, All-append, All-imp, All-Any, Any-append_left, Any-append_right,
  Bool-cases, inl, inr, ◌⊎◌, arith,
}
use eduvijna_paper_evaluatio.Learning.Graph.{RelationshipType, PrerequisiteEdge, same_type}
use eduvijna_paper_evaluatio.Learning.Closure.{
  Search, seen_edge, reach, collect, visit_edge, visit_edges,
}

contains_append_left :
    (xs ys : List ℕ) (k : ℕ) → contains xs k ≡ true → contains (xs ++ ys) k ≡ true
unfolding contains
contains_append_left [] ys k h = cc
contains_append_left (x ∷ xs) ys k h = ground (arith, contains_append_left xs ys k)

contains_append_last : (xs : List ℕ) (k : ℕ) → contains (xs ++ k ∷ []) k ≡ true
unfolding contains
contains_append_last [] k = rw (==_refl k) refl
contains_append_last (x ∷ xs) k = ground (arith, contains_append_last xs k)

contains_id :
    (cs : List PrerequisiteEdge) (i : ℕ)
    → contains (map (λ (c : PrerequisiteEdge). c.id) cs) i ≡ true
    → Any (λ c. c.id ≡ i) cs
unfolding contains
contains_id [] i h = cc
contains_id (c ∷ cs) i h = elim (Bool-cases (c.id == i)) [
  | inl yes' ↦ here ((==_iff c.id i).0 yes')
  | inr no' ↦ there (contains_id cs i (ground arith))
]

-- An edge is found by its identifier, the primary key of its table.
abbrev pub IsKeyed : List PrerequisiteEdge → Type 0
IsKeyed edges = All (λ e. All (λ f. e.id ≡ f.id → e ≡ f) edges) edges

same_edge :
    (edges : List PrerequisiteEdge) (e f : PrerequisiteEdge)
    → IsKeyed edges
    → Any (λ x. x ≡ e) edges
    → Any (λ x. x ≡ f) edges
    → e.id ≡ f.id
    → e ≡ f
same_edge edges e f keyed m n h =
    All-Any (λ y. e.id ≡ y.id → e ≡ y) f edges
      (All-Any (λ x. All (λ y. x.id ≡ y.id → x ≡ y) edges) e edges keyed m) n h

abbrev pub Collected : Search → PrerequisiteEdge → Type 0
Collected s e = Any (λ c. c ≡ e) s.collected

Any-with {ℓ κ μ ν} :
    {A : Type ℓ} {P : A → Type κ} {Q : A → Type μ} {R : A → Type ν}
    → ((x : A) → P x → Q x → R x)
    → (xs : List A) → All P xs
    → Any Q xs
    → Any R xs
Any-with f [] h m = elim m [ ]
Any-with f (x ∷ xs) (p, ps) (here q) = here (f x p q)
Any-with f (x ∷ xs) (p, ps) (there m) = there (Any-with f xs ps m)

abbrev pub Seen : Search → ℕ → Type 0
Seen s k = contains s.seen_nodes k ≡ true

-- The search goes on and forgets nothing.
pub record Grows (s t : Search) : Type 0 where
  pub collected : (e : PrerequisiteEdge) → Collected s e → Collected t e
  pub queued : (k : ℕ) → contains s.queue k ≡ true → contains t.queue k ≡ true
  pub seen : (k : ℕ) → Seen s k → Seen t k

Grows-trans : {s t u : Search} → Grows s t → Grows t u → Grows s u
Grows-trans g h = record {
  collected = λ e m. h.collected e (g.collected e m);
  queued = λ k m. h.queued k (g.queued k m);
  seen = λ k m. h.seen k (g.seen k m);
}

abbrev added : PrerequisiteEdge → Search → Search
added e s = record s { collected = s.collected ++ e ∷ [] }

abbrev queued_too : PrerequisiteEdge → Search → Search
queued_too e s = record (added e s) {
  queue = s.queue ++ e.prerequisite_node_id ∷ [];
  seen_nodes = e.prerequisite_node_id ∷ s.seen_nodes;
}

module _ (edges : List PrerequisiteEdge) (relationship : RelationshipType) where
  abbrev taken : PrerequisiteEdge → Search → Bool
  taken e s = same_type e.relationship_type relationship && not (seen_edge s e)

  -- the three ways through the body of the inner loop
  visit_edge-cases {κ} :
      (P : Search → Type κ) (e : PrerequisiteEdge) (s : Search)
      → (taken e s ≡ false → P s)
      → (taken e s ≡ true → Seen s e.prerequisite_node_id → P (added e s))
      → (taken e s ≡ true → P (queued_too e s))
      → P (visit_edge relationship e s)
  unfolding visit_edge collect reach
  visit_edge-cases P e s skip add queue = elim (Bool-cases (taken e s)) [
    | inr no' ↦ rw no' (skip no')
    | inl yes' ↦ elim (Bool-cases (contains s.seen_nodes e.prerequisite_node_id)) [
      | inl old ↦ rw (yes', old) (add yes' old)
      | inr new ↦ rw (yes', new) (queue yes')
    ]
  ]

  added-Grows : (e : PrerequisiteEdge) (s : Search) → Grows s (added e s)
  added-Grows e s = record {
    collected = λ f m. Any-append_left (e ∷ []) m;
    queued = λ k h. h;
    seen = λ k h. h;
  }

  queued_too-Grows : (e : PrerequisiteEdge) (s : Search) → Grows s (queued_too e s)
  unfolding contains
  queued_too-Grows e s = record {
    collected = λ f m. Any-append_left (e ∷ []) m;
    queued = contains_append_left s.queue (e.prerequisite_node_id ∷ []);
    seen = λ k h. ground (arith, h);
  }

  visit_edge-Grows : (e : PrerequisiteEdge) (s : Search) → Grows s (visit_edge relationship e s)
  visit_edge-Grows e s =
      visit_edge-cases (Grows s) e s
        (λ no'. record { collected = λ f m. m; queued = λ k h. h; seen = λ k h. h })
        (λ yes' old. added-Grows e s) (λ yes'. queued_too-Grows e s)

  pub visit_edges-Grows :
      (es : List PrerequisiteEdge) (s : Search) → Grows s (visit_edges relationship es s)
  unfolding visit_edges
  visit_edges-Grows [] s = record { collected = λ f m. m; queued = λ k h. h; seen = λ k h. h }
  visit_edges-Grows (e ∷ es) s =
      Grows-trans (visit_edge-Grows e s) (visit_edges-Grows es (visit_edge relationship e s))

  -- The edges that were collected come from the graph, and their nodes were seen.
  abbrev pub Kept : Search → Type 0
  Kept s = All (λ c. Any (λ x. x ≡ c) edges × Seen s c.prerequisite_node_id) s.collected

  visit_edge-Kept :
      (e : PrerequisiteEdge) (s : Search)
      → Any (λ x. x ≡ e) edges
      → Kept s
      → Kept (visit_edge relationship e s)
  unfolding contains
  visit_edge-Kept e s m h =
      visit_edge-cases Kept e s (λ no'. h)
        (λ yes' old. All-append _ s.collected (e ∷ []) h ((m, old), tt))
        (λ yes'.
          All-append _ s.collected (e ∷ [])
            (All-imp (λ c k. (k.0, (queued_too-Grows e s).seen c.prerequisite_node_id k.1))
              s.collected h)
            ((m, rw (==_refl e.prerequisite_node_id) refl), tt))

  module _ (keyed : IsKeyed edges) where
    was-Collected :
        (e : PrerequisiteEdge) (s : Search)
        → Any (λ x. x ≡ e) edges
        → Kept s
        → seen_edge s e ≡ true
        → Collected s e
    unfolding seen_edge
    was-Collected e s m kept h =
        Any-with (λ c k same. same_edge edges c e keyed k.0 m same) s.collected kept
          (contains_id s.collected e.id h)

    -- After its visit an edge of the relationship is collected.
    visit_edge-Collected :
        (e : PrerequisiteEdge) (s : Search)
        → Any (λ x. x ≡ e) edges
        → Kept s
        → same_type e.relationship_type relationship ≡ true
        → Collected (visit_edge relationship e s) e
    visit_edge-Collected e s m kept typed =
        visit_edge-cases (λ t. Collected t e) e s (λ no'. was-Collected e s m kept (ground arith))
          (λ yes' old. Any-append_right s.collected (here refl))
          (λ yes'. Any-append_right s.collected (here refl))

    pub visit_edges-Kept :
        (es : List PrerequisiteEdge) (s : Search)
        → All (λ e. Any (λ x. x ≡ e) edges) es
        → Kept s
        → Kept (visit_edges relationship es s)
          × All
              (λ e.
                same_type e.relationship_type relationship ≡ true
                → Collected (visit_edges relationship es s) e)
              es
    unfolding visit_edges
    visit_edges-Kept [] s h kept = (kept, tt)
    visit_edges-Kept (e ∷ es) s (m, ms) kept =
        let next = visit_edge relationship e s in
        let (kept', collected) = visit_edges-Kept es next ms (visit_edge-Kept e s m kept) in
        (
          kept',
          (
            (λ typed.
                (visit_edges-Grows es next).collected e (visit_edge-Collected e s m kept typed)),
            collected,
          ),
        )

    -- All edges of the relationship that end at the node are collected.
    abbrev pub Closed : Search → ℕ → Type 0
    Closed s k =
        All
          (λ e.
            (e.dependent_node_id == k) ≡ true
            → same_type e.relationship_type relationship ≡ true
            → Collected s e)
          edges

    Closed-Grows : {s t : Search} (k : ℕ) → Grows s t → Closed s k → Closed t k
    Closed-Grows k g h = All-imp (λ e f at typed. g.collected e (f at typed)) edges h

    -- A seen node waits in the queue or is closed, unless it is passed over.
    abbrev pub Settled : (ℕ → Bool) → Search → Type 0
    Settled pass s =
        All (λ k. (pass k ≡ true) ⊎ ((contains s.queue k ≡ true) ⊎ Closed s k)) s.seen_nodes

    settled_on :
        {s t : Search} (pass : ℕ → Bool) (nodes : List ℕ)
        → Grows s t
        → All (λ k. (pass k ≡ true) ⊎ ((contains s.queue k ≡ true) ⊎ Closed s k)) nodes
        → All (λ k. (pass k ≡ true) ⊎ ((contains t.queue k ≡ true) ⊎ Closed t k)) nodes
    settled_on pass nodes g h =
        All-imp
          (λ k o. elim o [
            | inl p ↦ inl p
            | inr q ↦ elim q [
              | inl w ↦ inr (inl (g.queued k w))
              | inr c ↦ inr (inr (Closed-Grows k g c))
            ]
          ])
          nodes h

    visit_edge-Settled :
        (pass : ℕ → Bool) (e : PrerequisiteEdge) (s : Search)
        → Settled pass s
        → Settled pass (visit_edge relationship e s)
    visit_edge-Settled pass e s h =
        visit_edge-cases (Settled pass) e s (λ no'. h)
          (λ yes' old. settled_on pass s.seen_nodes (added-Grows e s) h)
          (λ yes'. (
            inr (inl (contains_append_last s.queue e.prerequisite_node_id)),
            settled_on pass s.seen_nodes (queued_too-Grows e s) h,
          ))

    pub visit_edges-Settled :
        (pass : ℕ → Bool) (es : List PrerequisiteEdge) (s : Search)
        → Settled pass s
        → Settled pass (visit_edges relationship es s)
    unfolding visit_edges
    visit_edges-Settled pass [] s h = h
    visit_edges-Settled pass (e ∷ es) s h =
        visit_edges-Settled pass es (visit_edge relationship e s) (visit_edge-Settled pass e s h)
