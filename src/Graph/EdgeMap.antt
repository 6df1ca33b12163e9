-- ===== src/Graph/EdgeMap.antt =====
-- The weight of the edge between two registered nodes, after each call.
use hopr_impls.Base.{
  ℕ, ◌≡◌, ◌≢◌, refl, sym, ◌∙◌, ap, Bool, false, ◌&&◌, Option, none, some, List, arith, inl, inr,
  ◌==◌, Bool-cases, if◌then◌else◌,
}
use hopr_impls.Base.Keyed.{nat_key, get}
use hopr_impls.Graph.Petgraph.{Petgraph}
use hopr_impls.Graph.Defs.{InnerGraph, weight_of, add_missing_edge, edge_between}
use hopr_impls.Graph.Joined.{IsSimple, IsJoined, ends-IsSimple, add_missing_lem}
use hopr_impls.Graph.Indexed.{IsIndexed}
use hopr_impls.Graph.Lookup.{
  lookup, lookup-some, lookup-none, lookup_frame, same_ends, same_ends_lem, other_ends_lem,
}

abbrev pub or_default : {A : Type 0} → A → Option A → A
or_default d none = d
or_default d (some a) = a

abbrev pub same_keys : (a b src dest : ℕ) → Bool
same_keys a b src dest = (a == src) && (b == dest)

module _ {W : Type 0} (pg : Petgraph W) (as_ref : ℕ → List ℕ) where
  pub lookup-add_missing :
      (d : W) (a b i j : ℕ) (found : Option ℕ) (g : pg.G)
      → pg.find_edge i j g ≡ found
      → IsSimple pg as_ref g
      → lookup pg as_ref a b (add_missing_edge pg as_ref d i j found g).1 ≡ (
          if same_ends a b i j
          then some (or_default d (lookup pg as_ref i j g))
          else lookup pg as_ref a b g)
  lookup-add_missing d a b i j (some e) g h w = elim (Bool-cases (same_ends a b i j)) [
    | inr c ↦ rw c refl
    | inl c ↦
        let (p, q) = same_ends_lem a b i j c in
        let (x, weight) = pg.weight_complete e g (i, j) (pg.find_sound i j e g h) in
        let at : lookup pg as_ref i j g ≡ some x = ap (λ o. weight_of pg as_ref o g) h ∙ weight in
        let after : lookup pg as_ref a b g ≡ some (or_default d (lookup pg as_ref i j g)) =
          ap (λ y. lookup pg as_ref y b g) p
          ∙ ap (λ y. lookup pg as_ref i y g) q
          ∙ at
          ∙ ap (λ o. some (or_default d o)) (sym at) in
        rw c after
  ]
  lookup-add_missing d a b i j none g h w =
      let g' = (pg.add_edge i j d g).1 in
      let new = (pg.add_edge i j d g).0 in
      let (ends, w', cases, nodes) = add_missing_lem pg as_ref d i j none g h w in
      elim (Bool-cases (same_ends a b i j)) [
        | inl c ↦
            let (p, q) = same_ends_lem a b i j c in
            let gone : lookup pg as_ref i j g ≡ none = ap (λ o. weight_of pg as_ref o g) h in
            let at : pg.edge_endpoints new g' ≡ some (a, b) = ground (arith, ends, p, q) in
            let after : lookup pg as_ref a b g' ≡ some (or_default d (lookup pg as_ref i j g)) =
              lookup-some pg as_ref a b new g' w' at
              ∙ (pg.add_edge_weight i j d new g ∙ ground arith)
              ∙ ap (λ o. some (or_default d o)) (sym gone) in
            rw c after
        | inr c ↦
            let n = other_ends_lem a b i j c in
            let after : lookup pg as_ref a b g' ≡ lookup pg as_ref a b g =
              lookup_frame pg as_ref a b g g' w w'
                (λ x l.
                  let apart : (new == x) ≡ false = ground (arith, pg.add_edge_new i j d g, l) in
                  (
                    pg.add_edge_ends i j d x g ∙ ground (arith, apart, l),
                    pg.add_edge_weight i j d x g ∙ ground (arith, apart),
                  ))
                (λ x l. elim (cases x (a, b) l) [ inl o ↦ o | inr e ↦ elim (n e) [ ] ]) in
            rw c after
      ]

  abbrev pub at_indices : Option ℕ → Option ℕ → pg.G → Option W
  at_indices i j g = weight_of pg as_ref (edge_between pg as_ref i j g) g

  no_target : (i j : Option ℕ) (g : pg.G) → j ≡ none → at_indices i j g ≡ none
  no_target none j g h = refl
  no_target (some i) j g h = ap (λ j. at_indices (some i) j g) h

  pub lookup-add_node :
      (k a b : ℕ) (g : pg.G)
      → IsSimple pg as_ref g
      → lookup pg as_ref a b (pg.add_node k g).1 ≡ lookup pg as_ref a b g
  lookup-add_node k a b g w =
      lookup_frame pg as_ref a b g (pg.add_node k g).1 w
        (ends-IsSimple pg as_ref g (pg.add_node k g).1 (λ e. pg.add_node_ends k e g) w)
        (λ e h. (pg.add_node_ends k e g ∙ h, pg.add_node_edge k e g))
        (λ e h. sym (pg.add_node_ends k e g) ∙ h)

  -- An index that no edge touches has none.
  untouched_lem :
      (s : InnerGraph pg) (i b : ℕ)
      → IsJoined pg as_ref s
      → ((k : ℕ) → get k s.indices ≢ some i)
      → (lookup pg as_ref i b s.graph ≡ none) × (lookup pg as_ref b i s.graph ≡ none)
  untouched_lem s i b w free = (
    lookup-none pg as_ref i b s.graph
        (λ e h. let ((k, l), _) = w.between e i b h in elim (free k l) [ ]),
    lookup-none pg as_ref b i s.graph
        (λ e h. let (_, (k, l)) = w.between e b i h in elim (free k l) [ ]),
  )

  module _ (key : ℕ) (s : InnerGraph pg) (v : IsIndexed pg as_ref s) (w : IsJoined pg as_ref s)
      (absent : get key s.indices ≡ none) where
    abbrev idx : ℕ
    idx = (pg.add_node key s.graph).0

    abbrev grown : pg.G
    grown = (pg.add_node key s.graph).1

    idx_unused : (k : ℕ) → get k s.indices ≢ some idx
    idx_unused k h = ground (arith, v.named k idx h, pg.add_node_new key s.graph)

    grown-same : (i j : Option ℕ) → at_indices i j grown ≡ at_indices i j s.graph
    grown-same none j = refl
    grown-same (some i) none = refl
    grown-same (some i) (some j) = lookup-add_node key i j s.graph w.simple

    grown-source : (j : Option ℕ) → at_indices (some idx) j grown ≡ none
    grown-source none = refl
    grown-source (some j) =
        lookup-add_node key idx j s.graph w.simple ∙ (untouched_lem s idx j w idx_unused).0

    grown-target : (i : Option ℕ) → at_indices i (some idx) grown ≡ none
    grown-target none = refl
    grown-target (some i) =
        lookup-add_node key i idx s.graph w.simple ∙ (untouched_lem s idx i w idx_unused).1

    pub grown_lem :
        (src dest : ℕ)
        → at_indices
            (if key == src then some idx else get src s.indices)
            (if key == dest then some idx else get dest s.indices)
            grown
          ≡ at_indices (get src s.indices) (get dest s.indices) s.graph
    grown_lem src dest = elim (Bool-cases (key == src)) [
      | inl e ↦
          let gone : get src s.indices ≡ none = ground (arith, e, absent) in
          rw (e, gone) (grown-source (if key == dest then some idx else get dest s.indices))
      | inr e ↦ elim (Bool-cases (key == dest)) [
        | inl e' ↦
            let gone : get dest s.indices ≡ none = ground (arith, e', absent) in
            rw (e, e')
              (grown-target (get src s.indices)
                ∙ sym (no_target (get src s.indices) (get dest s.indices) s.graph gone))
        | inr e' ↦ rw (e, e') (grown-same (get src s.indices) (get dest s.indices))
      ]
    ]
