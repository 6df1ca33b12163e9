-- ===== src/Graph/Slots.antt =====
-- What a path slot resolves to, over any history of the graph.
use hopr_impls.Base.{
  ℕ, ◌≡◌, ◌≢◌, ◌↔◌, refl, sym, ◌∙◌, subst, ap, Option, none, some, List, [], ◌∷◌, arith, Has,
  if_lem, inl, inr, ◌==◌, ==_iff, Bool-cases, if◌then◌else◌,
}
use hopr_impls.Base.Keyed.{nat_key, get}
use hopr_impls.Graph.Petgraph.{Petgraph}
use hopr_impls.Graph.Defs.{InnerGraph, new, encode, or_empty, only_claimant, resolve}
use hopr_impls.Graph.Claims.{IsDistinct, claimants, only_lem}
use hopr_impls.Graph.Indexed.{IsHolder, IsIndexed, named_injective}
use hopr_impls.Graph.Calls.{Call, run, run-IsSound, IsSound}

pub encode-nonzero : (as_ref : ℕ → List ℕ) (k : ℕ) → encode as_ref k ≢ 0
unfolding encode
encode-nonzero as_ref k h = ground (arith, h)

module _ {W : Type 0} (pg : Petgraph W) (as_ref : ℕ → List ℕ) where
  abbrev only_node : ℕ → ℕ
  only_node me = (pg.add_node me pg.empty).0

  new-claimed :
      (me t i : ℕ)
      → Has i (claimants pg as_ref t (new pg as_ref me))
      → IsHolder pg as_ref t i (new pg as_ref me)
  unfolding new get
  new-claimed me t i h = elim (Bool-cases (encode as_ref me == t)) [
    | inl e ↦
        elim (subst (λ b. Has i (or_empty (if b then some (only_node me ∷ []) else none))) e h) [
          | inl q ↦ (me, ground (arith, q), (==_iff (encode as_ref me) t).0 e)
          | inr k ↦ elim k [ ]
        ]
    | inr e ↦
        elim (subst (λ b. Has i (or_empty (if b then some (only_node me ∷ []) else none))) e h) [ ]
  ]

  pub new-IsSound : (default : W) (me : ℕ) → IsSound pg as_ref default (new pg as_ref me)
  unfolding new get
  new-IsSound default me = record {
    indexed = record {
      once = (refl, tt);
      claimed = new-claimed me;
      claims = λ k i h.
          if_lem (λ (o : Option (List ℕ)). Has i (or_empty o)) (encode as_ref me == encode as_ref k)
            (λ _. inl (ground (arith, h))) (λ e. ground (arith, h, e));
      single = λ t.
          if_lem (λ (o : Option (List ℕ)). IsDistinct (or_empty o)) (encode as_ref me == t)
            (λ _. ((λ k. elim k [ ]), tt)) (λ _. tt);
      named = λ k i h. ground (arith, h, pg.add_node_weight me i pg.empty);
    };
    joined = record {
      between = λ e a b h. ground (arith, h, pg.add_node_ends me e pg.empty, pg.empty_edge e);
      simple = λ e e' ends h h'. ground (arith, h, pg.add_node_ends me e pg.empty, pg.empty_edge e);
    };
  }

  only_claimant_lem :
      (i : ℕ) (held : Option (List ℕ)) → only_claimant held ≡ some i → or_empty held ≡ i ∷ []
  only_claimant_lem i none h = ground (arith, h)
  only_claimant_lem i (some []) h = ground (arith, h)
  only_claimant_lem i (some (j ∷ [])) h = ground (arith, h)
  only_claimant_lem i (some (j ∷ k ∷ rest)) h = ground (arith, h)

  lem-only_claimant :
      (i : ℕ) (held : Option (List ℕ)) → or_empty held ≡ i ∷ [] → only_claimant held ≡ some i
  lem-only_claimant i none h = ground (arith, h)
  lem-only_claimant i (some []) h = ground (arith, h)
  lem-only_claimant i (some (j ∷ [])) h = ground (arith, h)
  lem-only_claimant i (some (j ∷ k ∷ rest)) h = ground (arith, h)

  -- A registered key is the only one that encodes to its slot.
  abbrev pub IsOnlyHolder : (slot key : ℕ) → InnerGraph pg → Type 0
  IsOnlyHolder slot key s =
      (encode as_ref key ≡ slot)
      × ((j i : ℕ) → get j s.indices ≡ some i → encode as_ref j ≡ slot → j ≡ key)

  pub resolve_sound :
      (s : InnerGraph pg) (slot i : ℕ)
      → IsIndexed pg as_ref s
      → resolve pg as_ref s slot ≡ some i
      → (k : ℕ) × (get k s.indices ≡ some i) × IsOnlyHolder slot k s
  unfolding resolve
  resolve_sound s slot i w h =
      let only : claimants pg as_ref slot s ≡ i ∷ [] =
        only_claimant_lem i (get slot s.slots) (ground (arith, h)) in
      let (k, at, e) = w.claimed slot i (subst (Has i) (sym only) (inl refl)) in
      (
        k,
        at,
        (
          e,
          λ j i' at' e'.
              let here : Has i' (i ∷ []) =
                subst (Has i') (ap (λ t. claimants pg as_ref t s) e' ∙ only) (w.claims j i' at') in
              elim here [
                | inl q ↦ named_injective pg as_ref s j k i w (at' ∙ ap some q) at
                | inr x ↦ elim x [ ]
              ],
        ),
      )

  pub resolve_complete :
      (s : InnerGraph pg) (slot i k : ℕ)
      → IsIndexed pg as_ref s
      → get k s.indices ≡ some i
      → IsOnlyHolder slot k s
      → resolve pg as_ref s slot ≡ some i
  unfolding resolve
  resolve_complete s slot i k w at (e, only) =
      let list : claimants pg as_ref slot s ≡ i ∷ [] =
        only_lem i (claimants pg as_ref slot s) (w.single slot)
          (subst (λ t. Has i (claimants pg as_ref t s)) e (w.claims k i at))
          (λ j h.
            let (k', at', e') = w.claimed slot j h in ground (arith, at, at', only k' j at' e')) in
      ground (arith, encode-nonzero as_ref k, e, lem-only_claimant i (get slot s.slots) list)

  -- After any history of the graph, a slot resolves to an index exactly if the index is that of a
  -- registered key that encodes to the slot, and no other registered key does: padding, a slot that
  -- no node has, and one that two nodes share do not resolve.
  pub resolve_iff :
      (default : W) (me : ℕ) (cs : List (Call W)) (slot i : ℕ)
      → let s = run pg as_ref default cs (new pg as_ref me) in
        (resolve pg as_ref s slot ≡ some i)
        ↔ ((k : ℕ) × (get k s.indices ≡ some i) × IsOnlyHolder slot k s)
  resolve_iff default me cs slot i =
      let s = run pg as_ref default cs (new pg as_ref me) in
      let w = run-IsSound pg as_ref default cs (new pg as_ref me) (new-IsSound default me) in
      (
        resolve_sound s slot i w.indexed,
        λ (k, at, only). resolve_complete s slot i k w.indexed at only,
      )
