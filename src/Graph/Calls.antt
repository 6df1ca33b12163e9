-- ===== src/Graph/Calls.antt =====
-- The graph over any history of its calls.
use hopr_impls.Base.{
  ℕ, ◌≡◌, refl, sym, ◌∙◌, ap, Option, none, some, List, [], ◌∷◌, arith, inl, inr, Option-cases,
}
use hopr_impls.Base.Keyed.{nat_key, get}
use hopr_impls.Graph.Petgraph.{Petgraph}
use hopr_impls.Graph.Defs.{
  InnerGraph, add_node, remove_node, remove_found, add_edge, add_edge_between, remove_edge,
  remove_edge_found, edge_of, upsert_edge, ensure_node, find_or_insert, insert_node,
  add_missing_edge,
}
use hopr_impls.Graph.Indexed.{
  IsIndexed, graph-IsIndexed, insert_node-IsIndexed, added-get, added-graph,
}
use hopr_impls.Graph.Removed.{remove_found-IsIndexed}
use hopr_impls.Graph.Joined.{
  IsJoined, ends-IsSimple, ends-IsBetween, remove_edge-IsJoined, remove_found-IsJoined,
  add_missing_lem,
}

pub data Call (W : Type 0) : Type 0 where
  adds_node removes_node : ℕ → Call W
  adds_edge removes_edge : (src dest : ℕ) → Call W
  upserts_edge : (src dest : ℕ) → (W → W) → Call W

module _ {W : Type 0} (pg : Petgraph W) (as_ref : ℕ → List ℕ) (default : W) where
  abbrev pub apply : Call W → InnerGraph pg → InnerGraph pg
  apply (adds_node key) s = add_node pg as_ref key s
  apply (removes_node key) s = remove_node pg as_ref key s
  apply (adds_edge src dest) s = (add_edge pg as_ref default src dest s).1
  apply (removes_edge src dest) s = remove_edge pg as_ref src dest s
  apply (upserts_edge src dest f) s = upsert_edge pg as_ref default src dest f s

  unfoldable pub run : List (Call W) → InnerGraph pg → InnerGraph pg
  run [] s = s
  run (c ∷ cs) s = run cs (apply c s)

  -- Both invariants of the graph.
  pub record IsSound (s : InnerGraph pg) : Type 0 where
    pub indexed : IsIndexed pg as_ref s
    pub joined : IsJoined pg as_ref s

  insert_node-IsSound :
      (key : ℕ) (s : InnerGraph pg)
      → get key s.indices ≡ none
      → IsSound s
      → IsSound (insert_node pg as_ref key s).1
  insert_node-IsSound key s absent w =
      let s' = (insert_node pg as_ref key s).1 in
      let same : (e : ℕ) → pg.edge_endpoints e s'.graph ≡ pg.edge_endpoints e s.graph = λ e.
        ap (pg.edge_endpoints e) (added-graph pg as_ref key s w.indexed absent)
        ∙ pg.add_node_ends key e s.graph in
      record {
        indexed = insert_node-IsIndexed pg as_ref key s w.indexed absent;
        joined = record {
          between =
              ends-IsBetween pg as_ref s.graph s'.graph s.indices s'.indices same
                (λ k i h.
                  (k, added-get pg as_ref key s w.indexed absent k ∙ ground (arith, h, absent)))
                w.joined.between;
          simple = ends-IsSimple pg as_ref s.graph s'.graph same w.joined.simple;
        };
      }

  pub add_node-IsSound :
      (key : ℕ) (s : InnerGraph pg) → IsSound s → IsSound (add_node pg as_ref key s)
  unfolding add_node
  add_node-IsSound key s w = elim (Option-cases (get key s.indices)) [
    | inl e ↦ rw e (insert_node-IsSound key s e w)
    | inr (i, e) ↦ rw e w
  ]

  remove_node-IsSound :
      (key : ℕ) (s : InnerGraph pg) → IsSound s → IsSound (remove_node pg as_ref key s)
  unfolding remove_node
  remove_node-IsSound key s w = go (get key s.indices) refl
    where
      go :
          (found : Option ℕ)
          → get key s.indices ≡ found
          → IsSound (remove_found pg as_ref key found s)
      go none h = w
      go (some i) h = record {
        indexed = remove_found-IsIndexed pg as_ref key i s w.indexed h;
        joined = remove_found-IsJoined pg as_ref key i s w.indexed h w.joined;
      }

  -- The node that is found or added is registered at its index, and no other one moves.
  find_or_insert_lem :
      (key : ℕ) (found : Option ℕ) (s : InnerGraph pg)
      → get key s.indices ≡ found
      → IsSound s
      → let (i, s') = find_or_insert pg as_ref key found s in
        IsSound s'
        × (get key s'.indices ≡ some i)
        × ((k j : ℕ) → get k s.indices ≡ some j → get k s'.indices ≡ some j)
  find_or_insert_lem key (some i) s h w = (w, h, λ k j l. l)
  find_or_insert_lem key none s h w =
      let moved = added-get pg as_ref key s w.indexed h in
      (
        insert_node-IsSound key s h w,
        moved key ∙ ground arith,
        λ k j l. moved k ∙ ground (arith, h, l),
      )

  pub ensure_node_lem :
      (key : ℕ) (s : InnerGraph pg)
      → IsSound s
      → let (i, s') = ensure_node pg as_ref key s in
        IsSound s'
        × (get key s'.indices ≡ some i)
        × ((k j : ℕ) → get k s.indices ≡ some j → get k s'.indices ≡ some j)
  unfolding ensure_node
  ensure_node_lem key s w = find_or_insert_lem key (get key s.indices) s refl w

  pub add_missing-IsSound :
      (d : W) (src dest i j : ℕ) (s : InnerGraph pg)
      → get src s.indices ≡ some i
      → get dest s.indices ≡ some j
      → IsSound s
      → IsSound (record s {
        graph = (add_missing_edge pg as_ref d i j (pg.find_edge i j s.graph) s.graph).1;
      })
  add_missing-IsSound d src dest i j s h k w =
      let g' = (add_missing_edge pg as_ref d i j (pg.find_edge i j s.graph) s.graph).1 in
      let (at, simple, cases, nodes) =
        add_missing_lem pg as_ref d i j (pg.find_edge i j s.graph) s.graph refl w.joined.simple in
      record {
        indexed = graph-IsIndexed pg as_ref s g' nodes w.indexed;
        joined = record {
          between = λ x a b l. elim (cases x (a, b) l) [
            | inl old ↦ w.joined.between x a b old
            | inr q ↦
                ((src, h ∙ ap (λ p. some p.0) (sym q)), (dest, k ∙ ap (λ p. some p.1) (sym q)))
          ];
          simple = simple;
        };
      }

  pub update_edge-IsSound :
      (e : ℕ) (f : W → W) (s : InnerGraph pg)
      → IsSound s
      → IsSound (record s { graph = pg.update_edge e f s.graph })
  update_edge-IsSound e f s w =
      let g' = pg.update_edge e f s.graph in
      let same : (x : ℕ) → pg.edge_endpoints x g' ≡ pg.edge_endpoints x s.graph =
        λ x. pg.update_edge_ends e f x s.graph in
      record {
        indexed = graph-IsIndexed pg as_ref s g' (λ i. pg.update_edge_node e f i s.graph) w.indexed;
        joined = record {
          between =
              ends-IsBetween pg as_ref s.graph g' s.indices s.indices same (λ k i h. (k, h))
                w.joined.between;
          simple = ends-IsSimple pg as_ref s.graph g' same w.joined.simple;
        };
      }

  add_edge-IsSound :
      (src dest : ℕ) (s : InnerGraph pg)
      → IsSound s
      → IsSound (add_edge pg as_ref default src dest s).1
  unfolding add_edge
  add_edge-IsSound src dest s w = go (get src s.indices) (get dest s.indices) refl refl
    where
      go :
          (i j : Option ℕ)
          → get src s.indices ≡ i
          → get dest s.indices ≡ j
          → IsSound (add_edge_between pg as_ref default src dest i j s).1
      go none j h k = w
      go (some i) none h k = w
      go (some i) (some j) h k = add_missing-IsSound default src dest i j s h k w

  remove_edge-IsSound :
      (src dest : ℕ) (s : InnerGraph pg) → IsSound s → IsSound (remove_edge pg as_ref src dest s)
  unfolding remove_edge
  remove_edge-IsSound src dest s w = go (edge_of pg as_ref src dest s)
    where
      go : (e : Option ℕ) → IsSound (remove_edge_found pg as_ref e s)
      go none = w
      go (some e) = record {
        indexed =
            graph-IsIndexed pg as_ref s (pg.remove_edge e s.graph)
              (λ i. pg.remove_edge_node e i s.graph) w.indexed;
        joined = remove_edge-IsJoined pg as_ref e s w.joined;
      }

  pub upsert_edge-IsSound :
      (src dest : ℕ) (f : W → W) (s : InnerGraph pg)
      → IsSound s
      → IsSound (upsert_edge pg as_ref default src dest f s)
  unfolding upsert_edge
  upsert_edge-IsSound src dest f s w =
      let (i, s1) = ensure_node pg as_ref src s in
      let (w1, at, kept) = ensure_node_lem src s w in
      let (j, s2) = ensure_node pg as_ref dest s1 in
      let (w2, at', kept') = ensure_node_lem dest s1 w1 in
      let (e, g) = add_missing_edge pg as_ref default i j (pg.find_edge i j s2.graph) s2.graph in
      update_edge-IsSound e f (record s2 { graph = g })
        (add_missing-IsSound default src dest i j s2 (kept' src i at) at' w2)

  pub apply-IsSound : (c : Call W) (s : InnerGraph pg) → IsSound s → IsSound (apply c s)
  apply-IsSound (adds_node key) s w = add_node-IsSound key s w
  apply-IsSound (removes_node key) s w = remove_node-IsSound key s w
  apply-IsSound (adds_edge src dest) s w = add_edge-IsSound src dest s w
  apply-IsSound (removes_edge src dest) s w = remove_edge-IsSound src dest s w
  apply-IsSound (upserts_edge src dest f) s w = upsert_edge-IsSound src dest f s w

  pub run-IsSound : (cs : List (Call W)) (s : InnerGraph pg) → IsSound s → IsSound (run cs s)
  unfolding run
  run-IsSound [] s w = w
  run-IsSound (c ∷ cs) s w = run-IsSound cs (apply c s) (apply-IsSound c s w)
