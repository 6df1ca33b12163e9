-- ===== src/Graph/Indexed.antt =====
-- The key index and the slot index of the graph, and what each change of them preserves.
use hopr_impls.Base.{
  ℕ, ◌≡◌, ◌≢◌, refl, sym, ◌∙◌, subst, ap, none, some, List, [], ◌∷◌, ◌++◌, arith, Has, if_lem, inl,
  inr, ◌⊎◌, ◌==◌, ==_iff, Bool-cases, if◌then◌else◌, Has-append_left, Has-append_last,
}
use hopr_impls.Base.Keyed.{nat_key, get, insert, get-insert, Distinct, insert-Distinct}
use hopr_impls.Graph.Petgraph.{Petgraph}
use hopr_impls.Graph.Defs.{InnerGraph, contains, claim, encode, claim_slot, insert_node, bi_insert}
use hopr_impls.Graph.Claims.{
  IsDistinct, contains-Has, Has-append, append-IsDistinct, other_indices-fresh, claimants,
  claim_slot-claimants,
}

claim-Has : (i j : ℕ) (l : List ℕ) → Has j l → Has j (claim i l)
claim-Has i j l h = if_lem (Has j) (contains i l) (λ _. h) (λ _. Has-append_left j l (i ∷ []) h)

claim-own : (i : ℕ) (l : List ℕ) → Has i (claim i l)
claim-own i l = if_lem (Has i) (contains i l) (contains-Has i l) (λ _. Has-append_last i l)

claim-IsDistinct : (i : ℕ) (l : List ℕ) → IsDistinct l → IsDistinct (claim i l)
claim-IsDistinct i l d = if_lem IsDistinct (contains i l) (λ _. d) (λ h. append-IsDistinct i l h d)

claim-cases : (i j : ℕ) (l : List ℕ) → Has j (claim i l) → (j ≡ i) ⊎ Has j l
claim-cases i j l h = elim (Bool-cases (contains i l)) [
  | inl e ↦ inr (subst (λ b. Has j (if b then l else l ++ (i ∷ []))) e h)
  | inr e ↦
      elim (Has-append j l (i ∷ []) (subst (λ b. Has j (if b then l else l ++ (i ∷ []))) e h)) [
        | inl k ↦ inr k
        | inr (inl k) ↦ inl k
        | inr (inr k) ↦ elim k [ ]
      ]
]

module _ {W : Type 0} (pg : Petgraph W) (as_ref : ℕ → List ℕ) where
  -- The index of a key whose slot is the given one.
  abbrev pub IsHolder : ℕ → ℕ → InnerGraph pg → Type 0
  IsHolder slot i s = (k : ℕ) × (get k s.indices ≡ some i) × (encode as_ref k ≡ slot)

  -- The claimants of each slot are the indices of the keys that encode to it, each once, and the
  -- graph has the key at its index.
  pub record IsIndexed (s : InnerGraph pg) : Type 0 where
    pub once : Distinct s.indices
    pub claimed : (t i : ℕ) → Has i (claimants pg as_ref t s) → IsHolder t i s
    pub claims :
        (k i : ℕ) → get k s.indices ≡ some i → Has i (claimants pg as_ref (encode as_ref k) s)
    pub single : (t : ℕ) → IsDistinct (claimants pg as_ref t s)
    pub named : (k i : ℕ) → get k s.indices ≡ some i → pg.node_weight i s.graph ≡ some k

  pub named_injective :
      (s : InnerGraph pg) (k j i : ℕ)
      → IsIndexed s
      → get k s.indices ≡ some i
      → get j s.indices ≡ some i
      → k ≡ j
  named_injective s k j i w h h' = ground (arith, w.named k i h, w.named j i h')

  -- A change of the graph that keeps its nodes.
  pub graph-IsIndexed :
      (s : InnerGraph pg) (g : pg.G)
      → ((i : ℕ) → pg.node_weight i g ≡ pg.node_weight i s.graph)
      → IsIndexed s
      → IsIndexed (record s { graph = g })
  graph-IsIndexed s g same w = record {
    once = w.once;
    claimed = w.claimed;
    claims = w.claims;
    single = w.single;
    named = λ k i h. same i ∙ w.named k i h;
  }

  module _ (key : ℕ) (s : InnerGraph pg) (w : IsIndexed s) (absent : get key s.indices ≡ none) where
    abbrev idx : ℕ
    idx = (pg.add_node key s.graph).0

    abbrev added : InnerGraph pg
    added = (insert_node pg as_ref key s).1

    idx_unused : (k : ℕ) → get k s.indices ≢ some idx
    idx_unused k h = ground (arith, w.named k idx h, pg.add_node_new key s.graph)

    added-indices : added.indices ≡ insert key idx s.indices
    unfolding claim_slot
    added-indices = ap (insert key idx) (other_indices-fresh idx s.indices w.once idx_unused)

    pub added-get : (k : ℕ) → get k added.indices ≡ (if key == k then some idx else get k s.indices)
    added-get k = ap (get k) added-indices ∙ get-insert key k idx s.indices

    pub added-graph : added.graph ≡ (pg.add_node key s.graph).1
    unfolding claim_slot
    added-graph = refl

    pub added-node :
        (i : ℕ)
        → pg.node_weight i added.graph ≡ (if idx == i then some key else pg.node_weight i s.graph)
    added-node i = ap (pg.node_weight i) added-graph ∙ pg.add_node_weight key i s.graph

    added-claimants :
        (t : ℕ)
        → claimants pg as_ref t added ≡ (
            if encode as_ref key == t
            then claim idx (claimants pg as_ref t s)
            else claimants pg as_ref t s)
    added-claimants t =
        claim_slot-claimants pg as_ref key idx t
          (record s { graph = (pg.add_node key s.graph).1; indices = bi_insert key idx s.indices })

    old-IsHolder : (t i : ℕ) → IsHolder t i s → IsHolder t i added
    old-IsHolder t i (k, h, e) = (k, added-get k ∙ ground (arith, h, absent), e)

    own-IsHolder : (t i : ℕ) → encode as_ref key ≡ t → i ≡ idx → IsHolder t i added
    own-IsHolder t i e q = (key, added-get key ∙ ground (arith, q), e)

    added-claimed : (t i : ℕ) → Has i (claimants pg as_ref t added) → IsHolder t i added
    added-claimed t i h = elim (Bool-cases (encode as_ref key == t)) [
      | inr e ↦
          old-IsHolder t i (w.claimed t i (subst (Has i) (added-claimants t ∙ ground (arith, e)) h))
      | inl e ↦
          elim (claim-cases idx i (claimants pg as_ref t s)
            (subst (Has i) (added-claimants t ∙ ground (arith, e)) h)) [
              | inl q ↦ own-IsHolder t i ((==_iff (encode as_ref key) t).0 e) q
              | inr k ↦ old-IsHolder t i (w.claimed t i k)
            ]
    ]

    added-kept : (t i : ℕ) → Has i (claimants pg as_ref t s) → Has i (claimants pg as_ref t added)
    added-kept t i h = subst (Has i) (sym (added-claimants t)) (
        if_lem (Has i) (encode as_ref key == t) (λ _. claim-Has idx i (claimants pg as_ref t s) h)
          (λ _. h))

    added-own : Has idx (claimants pg as_ref (encode as_ref key) added)
    added-own =
        subst (Has idx) (sym (added-claimants (encode as_ref key) ∙ ground arith))
          (claim-own idx (claimants pg as_ref (encode as_ref key) s))

    added-claims :
        (k i : ℕ)
        → get k added.indices ≡ some i
        → Has i (claimants pg as_ref (encode as_ref k) added)
    added-claims k i h = elim (Bool-cases (key == k)) [
      | inl e ↦
          let at : idx ≡ i = ground (arith, sym (added-get k) ∙ h, e) in
          subst (λ x. Has i (claimants pg as_ref (encode as_ref x) added)) ((==_iff key k).0 e)
            (subst (λ x. Has x (claimants pg as_ref (encode as_ref key) added)) at added-own)
      | inr e ↦
          added-kept (encode as_ref k) i (w.claims k i (ground (arith, sym (added-get k) ∙ h, e)))
    ]

    pub insert_node-IsIndexed : IsIndexed added
    insert_node-IsIndexed = record {
      once = subst Distinct (sym added-indices) (insert-Distinct key idx s.indices w.once);
      claimed = added-claimed;
      claims = added-claims;
      single = λ t. subst IsDistinct (sym (added-claimants t)) (
          if_lem IsDistinct (encode as_ref key == t)
            (λ _. claim-IsDistinct idx (claimants pg as_ref t s) (w.single t)) (λ _. w.single t));
      named = λ k i h. ground (
        arith,
        sym (added-get k) ∙ h,
        added-node i,
        w.named k i,
        pg.add_node_new key s.graph,
        w.named k idx,
      );
    }
