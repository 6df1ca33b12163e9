-- ===== src/Graph/Edges.antt =====
-- The map from pairs of keys to edges, after each call.
use hopr_impls.Base.{
  ℕ, ◌≡◌, refl, sym, ◌∙◌, ap, Option, none, some, List, arith, inl, inr, ◌==◌, Option-cases,
  if_cong, if◌then◌else◌,
}
use hopr_impls.Base.Keyed.{nat_key, get}
use hopr_impls.Graph.Petgraph.{Petgraph}
use hopr_impls.Graph.Defs.{
  InnerGraph, add_missing_edge, edge, insert_node, find_or_insert, ensure_node, upsert_edge,
}
use hopr_impls.Graph.Joined.{IsSimple, ends-IsSimple, add_missing_lem}
use hopr_impls.Graph.Indexed.{added-get, added-graph, named_injective}
use hopr_impls.Graph.Calls.{IsSound, ensure_node_lem}
use hopr_impls.Graph.Lookup.{lookup, same_ends, lookup-update}
use hopr_impls.Graph.EdgeMap.{or_default, same_keys, at_indices, lookup-add_missing, grown_lem}

module _ {W : Type 0} (pg : Petgraph W) (as_ref : ℕ → List ℕ) (default : W) where
  insert_node-edge :
      (key src dest : ℕ) (s : InnerGraph pg)
      → IsSound pg as_ref default s
      → get key s.indices ≡ none
      → edge pg as_ref src dest (insert_node pg as_ref key s).1 ≡ edge pg as_ref src dest s
  unfolding edge
  insert_node-edge key src dest s w absent =
      let s' = (insert_node pg as_ref key s).1 in
      let moved = added-get pg as_ref key s w.indexed absent in
      ap (λ i. at_indices pg as_ref i (get dest s'.indices) s'.graph) (moved src)
      ∙ ap
          (λ j.
            at_indices pg as_ref
              (if key == src then some (insert_node pg as_ref key s).0 else get src s.indices) j
              s'.graph)
          (moved dest)
      ∙ ap
          (at_indices pg as_ref
            (if key == src then some (insert_node pg as_ref key s).0 else get src s.indices)
            (if key == dest then some (insert_node pg as_ref key s).0 else get dest s.indices))
          (added-graph pg as_ref key s w.indexed absent)
      ∙ grown_lem pg as_ref key s w.indexed w.joined absent src dest

  find_or_insert-edge :
      (key src dest : ℕ) (found : Option ℕ) (s : InnerGraph pg)
      → IsSound pg as_ref default s
      → get key s.indices ≡ found
      → edge pg as_ref src dest (find_or_insert pg as_ref key found s).1 ≡ edge pg as_ref src dest s
  find_or_insert-edge key src dest none s w h = insert_node-edge key src dest s w h
  find_or_insert-edge key src dest (some i) s w h = refl

  pub ensure_node-edge :
      (key src dest : ℕ) (s : InnerGraph pg)
      → IsSound pg as_ref default s
      → edge pg as_ref src dest (ensure_node pg as_ref key s).1 ≡ edge pg as_ref src dest s
  unfolding ensure_node
  ensure_node-edge key src dest s w = find_or_insert-edge key src dest (get key s.indices) s w refl

  pub edge_at :
      (a b x y : ℕ) (s : InnerGraph pg) (g : pg.G)
      → get a s.indices ≡ some x
      → get b s.indices ≡ some y
      → edge pg as_ref a b (record s { graph = g }) ≡ lookup pg as_ref x y g
  unfolding edge
  edge_at a b x y s g h k =
      ap (λ o. at_indices pg as_ref o (get b s.indices) g) h
      ∙ ap (λ o. at_indices pg as_ref (some x) o g) k

  -- The update of the edge between two registered nodes.
  module _ (src dest i j : ℕ) (f : W → W) (s : InnerGraph pg) (w : IsSound pg as_ref default s)
      (at : get src s.indices ≡ some i) (at' : get dest s.indices ≡ some j) where
    abbrev made : ℕ × pg.G
    made = add_missing_edge pg as_ref default i j (pg.find_edge i j s.graph) s.graph

    abbrev updated : pg.G
    updated = pg.update_edge made.0 f made.1

    made-lookup :
        (x y : ℕ)
        → lookup pg as_ref x y made.1 ≡ (
            if same_ends x y i j
            then some (or_default default (lookup pg as_ref i j s.graph))
            else lookup pg as_ref x y s.graph)
    made-lookup x y =
        lookup-add_missing pg as_ref default x y i j (pg.find_edge i j s.graph) s.graph refl
          w.joined.simple

    made_lem : (pg.edge_endpoints made.0 made.1 ≡ some (i, j)) × IsSimple pg as_ref made.1
    made_lem =
        let (ends, simple, _, _) =
          add_missing_lem pg as_ref default i j (pg.find_edge i j s.graph) s.graph refl
            w.joined.simple in
        (ends, simple)

    updated-lookup :
        (x y : ℕ)
        → lookup pg as_ref x y updated ≡ (
            if same_ends x y i j
            then some (f (or_default default (lookup pg as_ref i j s.graph)))
            else lookup pg as_ref x y s.graph)
    updated-lookup x y = ground (
      arith,
      lookup-update pg as_ref x y i j made.0 f made.1 made_lem.1
          (ends-IsSimple pg as_ref made.1 updated (λ e. pg.update_edge_ends made.0 f e made.1)
            made_lem.1)
          made_lem.0,
      made-lookup x y,
      made-lookup i j,
    )

    -- Two keys have the indices of the pair only if they are the pair.
    same_indices :
        (a b x y : ℕ)
        → get a s.indices ≡ some x
        → get b s.indices ≡ some y
        → same_ends x y i j ≡ same_keys a b src dest
    same_indices a b x y h k = ground (
      arith,
      named_injective pg as_ref s a src i w.indexed,
      named_injective pg as_ref s b dest j w.indexed,
      h,
      k,
      at,
      at',
    )

    updated-edge :
        (a b : ℕ)
        → edge pg as_ref a b (record s { graph = updated }) ≡ (
            if same_keys a b src dest
            then some (f (or_default default (edge pg as_ref src dest s)))
            else edge pg as_ref a b s)
    unfolding edge
    updated-edge a b = elim (Option-cases (get a s.indices)) [
      | inl h ↦ ground (arith, h, at)
      | inr (x, h) ↦ elim (Option-cases (get b s.indices)) [
        | inl k ↦ ground (arith, h, k, at')
        | inr (y, k) ↦
            let whole : some (f (or_default default (lookup pg as_ref i j s.graph)))
                ≡ some (f (or_default default (edge pg as_ref src dest s))) =
              ap (λ o. some (f (or_default default o)))
                (sym (edge_at src dest i j s s.graph at at')) in
            edge_at a b x y s updated h k
            ∙ updated-lookup x y
            ∙ if_cong (same_indices a b x y h k) whole (sym (edge_at a b x y s s.graph h k))
      ]
    ]

  -- After an upsert, the edge of the pair is the update of what it was, or of the default if there
  -- was none, and the edges of all other pairs are as they were. The nodes are added if they are
  -- missing.
  pub edge-upsert_edge :
      (src dest a b : ℕ) (f : W → W) (s : InnerGraph pg)
      → IsSound pg as_ref default s
      → edge pg as_ref a b (upsert_edge pg as_ref default src dest f s) ≡ (
          if same_keys a b src dest
          then some (f (or_default default (edge pg as_ref src dest s)))
          else edge pg as_ref a b s)
  unfolding upsert_edge
  edge-upsert_edge src dest a b f s w =
      let (i, s1) = ensure_node pg as_ref src s in
      let (w1, at, kept) = ensure_node_lem pg as_ref default src s w in
      let (j, s2) = ensure_node pg as_ref dest s1 in
      let (w2, at', kept') = ensure_node_lem pg as_ref default dest s1 w1 in
      let same : (x y : ℕ) → edge pg as_ref x y s2 ≡ edge pg as_ref x y s =
        λ x y. ensure_node-edge dest x y s1 w1 ∙ ensure_node-edge src x y s w in
      updated-edge src dest i j f s2 w2 (kept' src i at) at' a b
      ∙ if_cong refl (ap (λ o. some (f (or_default default o))) (same src dest)) (same a b)
