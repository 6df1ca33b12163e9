-- ===== src/Graph/Joined.antt =====
-- The edges of the graph: between registered nodes, and at most one from one node to another.
use hopr_impls.Base.{
  ℕ, ◌≡◌, ◌≢◌, refl, sym, ◌∙◌, ap, Option, none, some, List, [], ◌∷◌, ◌++◌, arith, Has, Nowhere,
  inl, inr, ◌⊎◌, ◌==◌, ==_iff, Bool-cases, Has-append_left, Has-append_right,
}
use hopr_impls.Base.Keyed.{nat_key, get}
use hopr_impls.Graph.Petgraph.{Petgraph}
use hopr_impls.Graph.Defs.{InnerGraph, remove_edges, remove_found, add_missing_edge}
use hopr_impls.Graph.Indexed.{IsIndexed}
use hopr_impls.Graph.Removed.{removed-get}

module _ {W : Type 0} (pg : Petgraph W) (as_ref : ℕ → List ℕ) where
  abbrev pub IsRegistered : ℕ → List (ℕ × ℕ) → Type 0
  IsRegistered i indices = (k : ℕ) × (get k indices ≡ some i)

  abbrev pub IsBetween : pg.G → List (ℕ × ℕ) → Type 0
  IsBetween g indices =
      (e a b : ℕ)
      → pg.edge_endpoints e g ≡ some (a, b)
      → IsRegistered a indices × IsRegistered b indices

  abbrev pub IsSimple : pg.G → Type 0
  IsSimple g =
      (e e' : ℕ) (ends : ℕ × ℕ)
      → pg.edge_endpoints e g ≡ some ends
      → pg.edge_endpoints e' g ≡ some ends
      → e ≡ e'

  pub record IsJoined (s : InnerGraph pg) : Type 0 where
    pub between : IsBetween s.graph s.indices
    pub simple : IsSimple s.graph

  -- A change of the graph that keeps the ends of its edges.
  pub ends-IsSimple :
      (g g' : pg.G)
      → ((e : ℕ) → pg.edge_endpoints e g' ≡ pg.edge_endpoints e g)
      → IsSimple g
      → IsSimple g'
  ends-IsSimple g g' same w e e' ends h h' = w e e' ends (sym (same e) ∙ h) (sym (same e') ∙ h')

  pub ends-IsBetween :
      (g g' : pg.G) (indices indices' : List (ℕ × ℕ))
      → ((e : ℕ) → pg.edge_endpoints e g' ≡ pg.edge_endpoints e g)
      → ((k i : ℕ) → get k indices ≡ some i → IsRegistered i indices')
      → IsBetween g indices
      → IsBetween g' indices'
  ends-IsBetween g g' indices indices' same keeps w e a b h =
      let ((k, l), (m, n)) = w e a b (sym (same e) ∙ h) in (keeps k a l, keeps m b n)

  pub remove_edge-ends :
      (e x : ℕ) (ends : ℕ × ℕ) (g : pg.G)
      → pg.edge_endpoints x (pg.remove_edge e g) ≡ some ends
      → (pg.edge_endpoints x g ≡ some ends) × (e ≢ x)
  remove_edge-ends e x ends g h = (
    ground (arith, pg.remove_edge_ends e x g, h),
    λ q. ground (arith, pg.remove_edge_ends e x g, h, q),
  )

  pub remove_edges-ends :
      (es : List ℕ) (x : ℕ) (ends : ℕ × ℕ) (g : pg.G)
      → pg.edge_endpoints x (remove_edges pg as_ref es g) ≡ some ends
      → (pg.edge_endpoints x g ≡ some ends) × (Has x es → Nowhere {0})
  unfolding remove_edges
  remove_edges-ends [] x ends g h = (h, λ k. elim k [ ])
  remove_edges-ends (e ∷ es) x ends g h =
      let (h', out) = remove_edges-ends es x ends (pg.remove_edge e g) h in
      let (h'', n) = remove_edge-ends e x ends g h' in
      (h'', λ k. elim k [ inl q ↦ elim (n (sym q)) [ ] | inr k' ↦ out k' ])

  pub remove_edge-IsJoined :
      (e : ℕ) (s : InnerGraph pg)
      → IsJoined s
      → IsJoined (record s { graph = pg.remove_edge e s.graph })
  remove_edge-IsJoined e s w = record {
    between = λ x a b h. w.between x a b (remove_edge-ends e x (a, b) s.graph h).0;
    simple = λ x y ends h h'.
        w.simple x y ends (remove_edge-ends e x ends s.graph h).0
          (remove_edge-ends e y ends s.graph h').0;
  }

  -- No edge of the graph touches a removed node.
  incident_removed :
      (i x a b : ℕ) (g : pg.G)
      → pg.edge_endpoints x (remove_edges pg as_ref (pg.outgoing i g ++ pg.incoming i g) g)
        ≡ some (a, b)
      → (pg.edge_endpoints x g ≡ some (a, b)) × (a ≢ i) × (b ≢ i)
  incident_removed i x a b g h =
      let (old, out) = remove_edges-ends (pg.outgoing i g ++ pg.incoming i g) x (a, b) g h in
      (
        old,
        (λ q.
            elim (out (
              Has-append_left x (pg.outgoing i g) (pg.incoming i g)
                ((pg.outgoing_iff i x g).1 (b, ground (arith, old, q))))) [ ]),
        (λ q.
            elim (out (
              Has-append_right x (pg.outgoing i g) (pg.incoming i g)
                ((pg.incoming_iff i x g).1 (a, ground (arith, old, q))))) [ ]),
      )

  pub remove_found-IsJoined :
      (key i : ℕ) (s : InnerGraph pg)
      → IsIndexed pg as_ref s
      → get key s.indices ≡ some i
      → IsJoined s
      → IsJoined (remove_found pg as_ref key (some i) s)
  remove_found-IsJoined key i s v present w =
      let kept : (k j : ℕ)
          → get k s.indices ≡ some j
          → j ≢ i
          → IsRegistered j (remove_found pg as_ref key (some i) s).indices =
        λ k j h n. (k, removed-get pg as_ref key i s v present k ∙ ground (arith, h, n, present)) in
      record {
        between = λ x a b h.
            let (old, n, m) = incident_removed i x a b s.graph h in
            let ((k, l), (k', l')) = w.between x a b old in (kept k a l n, kept k' b l' m);
        simple = λ x y ends h h'.
            w.simple x y ends (incident_removed i x ends.0 ends.1 s.graph h).0
              (incident_removed i y ends.0 ends.1 s.graph h').0;
      }

  pub missing_lem :
      (i j y : ℕ) (g : pg.G) → pg.find_edge i j g ≡ none → pg.edge_endpoints y g ≢ some (i, j)
  missing_lem i j y g h k = let (e, found) = pg.find_complete i j y g k in ground (arith, found, h)

  pub add_edge-cases :
      (d : W) (i j x : ℕ) (ends : ℕ × ℕ) (g : pg.G)
      → pg.edge_endpoints x (pg.add_edge i j d g).1 ≡ some ends
      → (pg.edge_endpoints x g ≡ some ends) ⊎ (((pg.add_edge i j d g).0 ≡ x) × (ends ≡ (i, j)))
  add_edge-cases d i j x ends g h =
      let e = (pg.add_edge i j d g).0 in
      elim (Bool-cases (e == x)) [
        | inl c ↦ inr ((==_iff e x).0 c, ground (arith, pg.add_edge_ends i j d x g, c, h))
        | inr c ↦ inl (ground (arith, pg.add_edge_ends i j d x g, c, h))
      ]

  add_edge-IsSimple :
      (d : W) (i j : ℕ) (g : pg.G)
      → pg.find_edge i j g ≡ none
      → IsSimple g
      → IsSimple (pg.add_edge i j d g).1
  add_edge-IsSimple d i j g h w x y ends k k' = elim (add_edge-cases d i j x ends g k) [
    | inl o ↦ elim (add_edge-cases d i j y ends g k') [
      | inl o' ↦ w x y ends o o'
      | inr (e', q') ↦ elim (missing_lem i j x g h (o ∙ ap some q')) [ ]
    ]
    | inr (e, q) ↦ elim (add_edge-cases d i j y ends g k') [
      | inl o' ↦ elim (missing_lem i j y g h (o' ∙ ap some q)) [ ]
      | inr (e', q') ↦ sym e ∙ e'
    ]
  ]

  -- The edge found or added between two nodes, and the edges after it.
  pub add_missing_lem :
      (d : W) (i j : ℕ) (found : Option ℕ) (g : pg.G)
      → pg.find_edge i j g ≡ found
      → IsSimple g
      → let (e, g') = add_missing_edge pg as_ref d i j found g in
        (pg.edge_endpoints e g' ≡ some (i, j))
        × IsSimple g'
        × ((x : ℕ) (ends : ℕ × ℕ)
            → pg.edge_endpoints x g' ≡ some ends
            → (pg.edge_endpoints x g ≡ some ends) ⊎ (ends ≡ (i, j)))
        × ((x : ℕ) → pg.node_weight x g' ≡ pg.node_weight x g)
  add_missing_lem d i j (some e) g h w =
      (pg.find_sound i j e g h, w, (λ x ends k. inl k), λ x. refl)
  add_missing_lem d i j none g h w = (
    ground (arith, pg.add_edge_ends i j d (pg.add_edge i j d g).0 g),
    add_edge-IsSimple d i j g h w,
    (λ x ends k. elim (add_edge-cases d i j x ends g k) [ inl o ↦ inl o | inr (e, q) ↦ inr q ]),
    λ x. pg.add_edge_node i j d x g,
  )
