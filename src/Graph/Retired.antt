-- ===== src/Graph/Retired.antt =====
-- An index that has named a node never names another one, whatever happens to the graph.
use hopr_impls.Base.{ℕ, ◌≡◌, refl, ◌∙◌, Option, none, some, List, [], ◌∷◌, ◌++◌, arith, if_lem}
use hopr_impls.Base.Keyed.{nat_key, get}
use hopr_impls.Graph.Petgraph.{Petgraph}
use hopr_impls.Graph.Defs.{
  InnerGraph, new, claim_slot, add_node, remove_node, remove_found, add_edge, add_edge_between,
  remove_edge, remove_edge_found, edge_of, upsert_edge, ensure_node, find_or_insert, insert_node,
  add_missing_edge, is_some,
}
use hopr_impls.Graph.Removed.{remove_edges-node}
use hopr_impls.Graph.Calls.{
  Call, adds_node, removes_node, adds_edge, removes_edge, upserts_edge, apply, run, run-IsSound,
  IsSound,
}
use hopr_impls.Graph.Slots.{new-IsSound}

module _ {W : Type 0} (pg : Petgraph W) (as_ref : ℕ → List ℕ) (default : W) (i k : ℕ) where
  -- The index is that of a node with the key.
  abbrev Names : InnerGraph pg → Type 0
  Names s = pg.node_weight i s.graph ≡ some k

  insert_node-Names :
      (key : ℕ) (s : InnerGraph pg) → Names s → Names (insert_node pg as_ref key s).1
  unfolding claim_slot
  insert_node-Names key s h =
      ground (arith, h, pg.add_node_weight key i s.graph, pg.add_node_new key s.graph)

  find_or_insert-Names :
      (key : ℕ) (found : Option ℕ) (s : InnerGraph pg)
      → Names s
      → Names (find_or_insert pg as_ref key found s).1
  find_or_insert-Names key none s h = insert_node-Names key s h
  find_or_insert-Names key (some j) s h = h

  remove_found-Names :
      (key : ℕ) (found : Option ℕ) (s : InnerGraph pg)
      → Names s
      → Names (remove_found pg as_ref key found s)
  remove_found-Names key none s h = h
  remove_found-Names key (some j) s h =
      remove_edges-node pg as_ref i (pg.outgoing j s.graph ++ pg.incoming j s.graph) s.graph ∙ h

  add_missing-Names :
      (a b : ℕ) (found : Option ℕ) (g : pg.G)
      → pg.node_weight i (add_missing_edge pg as_ref default a b found g).1 ≡ pg.node_weight i g
  add_missing-Names a b none g = pg.add_edge_node a b default i g
  add_missing-Names a b (some e) g = refl

  add_between-Names :
      (src dest : ℕ) (a b : Option ℕ) (s : InnerGraph pg)
      → Names s
      → Names (add_edge_between pg as_ref default src dest a b s).1
  add_between-Names src dest none b s h = h
  add_between-Names src dest (some a) none s h = h
  add_between-Names src dest (some a) (some b) s h =
      add_missing-Names a b (pg.find_edge a b s.graph) s.graph ∙ h

  remove_edge_found-Names :
      (e : Option ℕ) (s : InnerGraph pg) → Names s → Names (remove_edge_found pg as_ref e s)
  remove_edge_found-Names none s h = h
  remove_edge_found-Names (some e) s h = pg.remove_edge_node e i s.graph ∙ h

  apply-Names : (c : Call W) (s : InnerGraph pg) → Names s → Names (apply pg as_ref default c s)
  unfolding add_node remove_node add_edge remove_edge upsert_edge ensure_node
  apply-Names (adds_node key) s h =
      if_lem Names (is_some (get key s.indices)) (λ _. h) (λ _. insert_node-Names key s h)
  apply-Names (removes_node key) s h = remove_found-Names key (get key s.indices) s h
  apply-Names (adds_edge a b) s h = add_between-Names a b (get a s.indices) (get b s.indices) s h
  apply-Names (removes_edge a b) s h = remove_edge_found-Names (edge_of pg as_ref a b s) s h
  apply-Names (upserts_edge a b f) s h =
      let (x, s1) = ensure_node pg as_ref a s in
      let (y, s2) = ensure_node pg as_ref b s1 in
      let (e, g) = add_missing_edge pg as_ref default x y (pg.find_edge x y s2.graph) s2.graph in
      pg.update_edge_node e f i g
      ∙ add_missing-Names x y (pg.find_edge x y s2.graph) s2.graph
      ∙ find_or_insert-Names b (get b s1.indices) s1 (find_or_insert-Names a (get a s.indices) s h)

  run-Names :
      (cs : List (Call W)) (s : InnerGraph pg) → Names s → Names (run pg as_ref default cs s)
  unfolding run
  run-Names [] s h = h
  run-Names (c ∷ cs) s h = run-Names cs (apply pg as_ref default c s) (apply-Names c s h)

  -- If a key has an index after some history of the graph, then whatever the calls after it are,
  -- removals of the key and new nodes included, no other key ever has that index.
  pub index_retired :
      (me j : ℕ) (before after : List (Call W))
      → let s = run pg as_ref default before (new pg as_ref me) in
        get k s.indices ≡ some i → get j (run pg as_ref default after s).indices ≡ some i → j ≡ k
  index_retired me j before after h h' =
      let s = run pg as_ref default before (new pg as_ref me) in
      let w : IsSound pg as_ref default s =
        run-IsSound pg as_ref default before (new pg as_ref me)
          (new-IsSound pg as_ref default me) in
      let later : Names (run pg as_ref default after s) =
        run-Names after s (w.indexed.named k i h) in
      ground (arith, later, (run-IsSound pg as_ref default after s w).indexed.named j i h')
