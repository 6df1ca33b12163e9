-- ===== src/Graph/Removed.antt =====
-- The key index and the slot index of the graph after a node is removed.
use hopr_impls.Base.{
  ℕ, ◌≡◌, ◌≢◌, refl, sym, ◌∙◌, subst, ap, none, some, List, [], ◌∷◌, ◌++◌, arith, Has, if_lem, inl,
  inr, ◌==◌, Bool-cases, if◌then◌else◌,
}
use hopr_impls.Base.Keyed.{nat_key, get, remove, get-remove, remove-Distinct}
use hopr_impls.Graph.Petgraph.{Petgraph}
use hopr_impls.Graph.Defs.{InnerGraph, without, encode, release_slot, remove_found, remove_edges}
use hopr_impls.Graph.Claims.{
  IsDistinct, without-Has, Has-without, without-IsDistinct, claimants, release_slot-claimants,
}
use hopr_impls.Graph.Indexed.{IsHolder, IsIndexed, named_injective}

module _ {W : Type 0} (pg : Petgraph W) (as_ref : ℕ → List ℕ) where
  pub remove_edges-node :
      (i : ℕ) (es : List ℕ) (g : pg.G)
      → pg.node_weight i (remove_edges pg as_ref es g) ≡ pg.node_weight i g
  unfolding remove_edges
  remove_edges-node i [] g = refl
  remove_edges-node i (e ∷ es) g =
      remove_edges-node i es (pg.remove_edge e g) ∙ pg.remove_edge_node e i g

  module _ (key i : ℕ) (s : InnerGraph pg) (w : IsIndexed pg as_ref s)
      (present : get key s.indices ≡ some i) where
    abbrev removed : InnerGraph pg
    removed = remove_found pg as_ref key (some i) s

    removed-indices : removed.indices ≡ remove key s.indices
    unfolding release_slot
    removed-indices = refl

    pub removed-get : (k : ℕ) → get k removed.indices ≡ (if key == k then none else get k s.indices)
    removed-get k = ap (get k) removed-indices ∙ get-remove key k s.indices

    removed-claimants :
        (t : ℕ)
        → claimants pg as_ref t removed ≡ (
            if encode as_ref key == t
            then without i (claimants pg as_ref t s)
            else claimants pg as_ref t s)
    removed-claimants t =
        release_slot-claimants pg as_ref key i t (record s { indices = remove key s.indices })

    other-IsHolder :
        (t j k : ℕ)
        → key ≢ k
        → get k s.indices ≡ some j
        → encode as_ref k ≡ t
        → IsHolder pg as_ref t j removed
    other-IsHolder t j k n h e = (k, removed-get k ∙ ground (arith, n, h), e)

    removed-claimed :
        (t j : ℕ) → Has j (claimants pg as_ref t removed) → IsHolder pg as_ref t j removed
    removed-claimed t j h = elim (Bool-cases (encode as_ref key == t)) [
      | inl e ↦
          let (n, h') =
            without-Has i j (claimants pg as_ref t s)
              (subst (Has j) (removed-claimants t ∙ ground (arith, e)) h) in
          let (k, at, c) = w.claimed t j h' in
          other-IsHolder t j k (λ q. ground (arith, at, q, present, n)) at c
      | inr e ↦
          let (k, at, c) =
            w.claimed t j (subst (Has j) (removed-claimants t ∙ ground (arith, e)) h) in
          other-IsHolder t j k (λ q. ground (arith, ap (encode as_ref) q, c, e)) at c
    ]

    removed-claims :
        (k j : ℕ)
        → get k removed.indices ≡ some j
        → Has j (claimants pg as_ref (encode as_ref k) removed)
    removed-claims k j h =
        let at : get k s.indices ≡ some j = ground (arith, sym (removed-get k) ∙ h) in
        let apart : key ≢ k = λ q. ground (arith, sym (removed-get k) ∙ h, q) in
        subst (Has j) (sym (removed-claimants (encode as_ref k))) (
          if_lem (Has j) (encode as_ref key == encode as_ref k)
            (λ _.
              Has-without i j (claimants pg as_ref (encode as_ref k) s)
                (λ q. apart (named_injective pg as_ref s key k i w present (at ∙ ap some q)))
                (w.claims k j at))
            (λ _. w.claims k j at))

    pub remove_found-IsIndexed : IsIndexed pg as_ref removed
    unfolding release_slot
    remove_found-IsIndexed = record {
      once = remove-Distinct key s.indices w.once;
      claimed = removed-claimed;
      claims = removed-claims;
      single = λ t. subst IsDistinct (sym (removed-claimants t)) (
          if_lem IsDistinct (encode as_ref key == t)
            (λ _. without-IsDistinct i (claimants pg as_ref t s) (w.single t)) (λ _. w.single t));
      named = λ k j h.
          remove_edges-node j (pg.outgoing i s.graph ++ pg.incoming i s.graph) s.graph
          ∙ w.named k j (ground (arith, sym (removed-get k) ∙ h));
    }
