-- ===== src/Graph/Loops.antt =====
-- The edges that a path resolves to form a loop of the node.
use hopr_impls.Base.{
  ℕ, ◌≤◌, ◌*◌, ◌≡◌, refl, sym, ◌∙◌, subst, ap, not, ◌||◌, Option, none, some, List, [], ◌∷◌, ◌++◌,
  arith, if_lem, ◌==◌, ==_iff, ltb, any, length, length-append,
}
use hopr_impls.Base.Keyed.{nat_key, get}
use hopr_impls.Graph.Petgraph.{Petgraph}
use hopr_impls.Graph.Defs.{InnerGraph, encode, resolve, new}
use hopr_impls.Graph.Indexed.{IsIndexed}
use hopr_impls.Graph.Slots.{new-IsSound}
use hopr_impls.Graph.Calls.{Call, run, run-IsSound}
use hopr_impls.Graph.Paths.{
  up_to, extend, nonempty, whole_loop, hop, walk, walk_all, close_loop, resolve_loopback_slots,
  resolve_loopback_edges, slots_of, ForwardAndReturnPath, join_legs, resolve_legs,
  resolve_round_trip_edges,
}
use hopr_impls.Graph.Walks.{
  last_of, last_of-append, IsUpTo, up_to-IsUpTo, IsChain, extend_lem, walk_lem, own_index, hop_from,
}

module _ {W : Type 0} (pg : Petgraph W) (as_ref : ℕ → List ℕ) where
  -- The edges lead from the node to itself.
  abbrev Loops : InnerGraph pg → ℕ → Option (List ℕ) → Type 0
  Loops s m none = Unit
  Loops s m (some es) = IsChain pg as_ref s.graph m es m × (1 ≤ length es)

  abbrev LongLoops : InnerGraph pg → ℕ → Option (List ℕ) → Type 0
  LongLoops s m none = Unit
  LongLoops s m (some es) = IsChain pg as_ref s.graph m es m × (2 ≤ length es)

  walk_step :
      (s : InnerGraph pg) (from to : ℕ) (rest : List ℕ)
      → extend (hop pg as_ref s from to) (walk pg as_ref s to rest)
        ≡ walk pg as_ref s from (to ∷ rest)
  unfolding walk
  walk_step s from to rest = refl

  walk-Loops :
      (s : InnerGraph pg) (me m : ℕ) (rest : List ℕ) (found : Option (List ℕ))
      → IsIndexed pg as_ref s
      → get me s.indices ≡ some m
      → last_of (encode as_ref me) rest ≡ encode as_ref me
      → 1 ≤ length rest
      → walk pg as_ref s (encode as_ref me) rest ≡ found
      → Loops s m found
  walk-Loops s me m rest none w at l n h = tt
  walk-Loops s me m [] (some es) w at l n h = ground (arith, n)
  walk-Loops s me m (to ∷ rest) (some es) w at l n h =
      let (e, es', found, more, whole) =
        extend_lem pg as_ref (hop pg as_ref s (encode as_ref me) to) (walk pg as_ref s to rest) es
          (walk_step s (encode as_ref me) to rest ∙ h) in
      let (i, from) =
        hop_from pg as_ref (resolve pg as_ref s (encode as_ref me)) (resolve pg as_ref s to) e
          s.graph found in
      let (len, (j, last, chain)) =
        walk_lem pg as_ref s (encode as_ref me) i (to ∷ rest) es h from in
      let i_m : i ≡ m = own_index pg as_ref s me m i w at from in
      let j_m : j ≡ m =
        own_index pg as_ref s me m j w at (ap (resolve pg as_ref s) (sym l) ∙ last) in
      (
        subst (λ x. IsChain pg as_ref s.graph m es x) j_m
            (subst (λ x. IsChain pg as_ref s.graph x es j) i_m chain),
        omega (arith, len),
      )

  whole_loop-Loops :
      (s : InnerGraph pg) (m n : ℕ) (found : Option (List ℕ))
      → Loops s m found
      → LongLoops s m (whole_loop n found)
  whole_loop-Loops s m n none w = tt
  whole_loop-Loops s m n (some es) w =
      if_lem (LongLoops s m) (not (length es == n) || ltb (length es) 2) (λ _. tt)
        (λ h. (w.0, ground (arith, h)))

  close_loop-Loops :
      (s : InnerGraph pg) (me m : ℕ) (rest : List ℕ) (found : Option (List ℕ × List ℕ))
      → IsIndexed pg as_ref s
      → get me s.indices ≡ some m
      → IsUpTo (encode as_ref me) (encode as_ref me) rest found
      → LongLoops s m (close_loop pg as_ref s (encode as_ref me) found)
  close_loop-Loops s me m rest none w at u = tt
  close_loop-Loops s me m rest (some (loop, tail)) w at (l, n, e) =
      if_lem (LongLoops s m) (any (λ slot. not (slot == 0)) tail) (λ _. tt)
        (λ _.
          whole_loop-Loops s m (length loop) (walk pg as_ref s (encode as_ref me) loop)
            (walk-Loops s me m loop (walk pg as_ref s (encode as_ref me) loop) w at l n refl))

  slots-Loops :
      (s : InnerGraph pg) (me m : ℕ) (slots : List ℕ)
      → IsIndexed pg as_ref s
      → get me s.indices ≡ some m
      → LongLoops s m (resolve_loopback_slots pg as_ref s (encode as_ref me) slots)
  slots-Loops s me m [] w at = tt
  slots-Loops s me m (first ∷ rest) w at =
      if_lem (LongLoops s m) (first == encode as_ref me)
        (λ _.
          close_loop-Loops s me m rest (up_to (encode as_ref me) rest) w at
            (up_to-IsUpTo (encode as_ref me) (encode as_ref me) rest))
        (λ _. tt)

  nonempty-Loops :
      (s : InnerGraph pg) (m : ℕ) (found : Option (List ℕ))
      → Loops s m found
      → Loops s m (nonempty found)
  nonempty-Loops s m none w = tt
  nonempty-Loops s m (some []) w = tt
  nonempty-Loops s m (some (e ∷ es)) w = w

  legs-Loops :
      (s : InnerGraph pg) (me m : ℕ) (out back rest rest' forward : List ℕ)
      → IsIndexed pg as_ref s
      → get me s.indices ≡ some m
      → encode as_ref me ∷ forward ≡ out ++ rest
      → 1 ≤ length out
      → ((d : ℕ) → last_of d back ≡ encode as_ref me)
      → 1 ≤ length back
      → Loops s m (nonempty (walk_all pg as_ref s (out ++ back)))
  legs-Loops s me m [] back rest rest' forward w at e n l n' = ground (arith, n)
  legs-Loops s me m (x ∷ out) back rest rest' forward w at e n l n' =
      let first : encode as_ref me ≡ x = ground (arith, e) in
      let me_val = encode as_ref me in
      nonempty-Loops s m (walk pg as_ref s x (out ++ back)) (
        subst (λ y. Loops s m (walk pg as_ref s y (out ++ back))) first
          (walk-Loops s me m (out ++ back) (walk pg as_ref s me_val (out ++ back)) w at
            (last_of-append me_val out back ∙ l (last_of me_val out))
            (omega (arith, length-append out back, n')) refl))

  join_legs-Loops :
      (s : InnerGraph pg) (me m first replier : ℕ) (forward reply : List ℕ)
      (out back : Option (List ℕ × List ℕ))
      → IsIndexed pg as_ref s
      → get me s.indices ≡ some m
      → first ≡ encode as_ref me
      → IsUpTo replier 0 (first ∷ forward) out
      → ((d : ℕ) → IsUpTo (encode as_ref me) d reply back)
      → Loops s m (join_legs pg as_ref s out back)
  join_legs-Loops s me m first replier forward reply none back w at f u v = tt
  join_legs-Loops s me m first replier forward reply (some (out, rest)) none w at f u v = tt
  join_legs-Loops s me m first replier forward reply (some (out, rest)) (some (back, rest')) w at f
        u v =
      legs-Loops s me m out back rest rest' forward w at (ap (λ x. x ∷ forward) (sym f) ∙ u.2) u.1
        (λ d. (v d).0) (v 0).1

  resolve_legs-Loops :
      (s : InnerGraph pg) (me m : ℕ) (forward reply : List ℕ)
      → IsIndexed pg as_ref s
      → get me s.indices ≡ some m
      → Loops s m (resolve_legs pg as_ref s (encode as_ref me) forward reply)
  resolve_legs-Loops s me m [] reply w at = tt
  resolve_legs-Loops s me m (first ∷ forward) [] w at = tt
  resolve_legs-Loops s me m (first ∷ forward) (replier ∷ reply) w at =
      if_lem (Loops s m) (first == encode as_ref me)
        (λ e.
          join_legs-Loops s me m first replier forward reply (up_to replier (first ∷ forward))
            (up_to (encode as_ref me) reply) w at ((==_iff first (encode as_ref me)).0 e)
            (up_to-IsUpTo replier 0 (first ∷ forward))
            (λ d. up_to-IsUpTo (encode as_ref me) d reply))
        (λ _. tt)

  module _ (default : W) (owner me m : ℕ) (cs : List (Call W)) where
    abbrev history : InnerGraph pg
    history = run pg as_ref default cs (new pg as_ref owner)

    history-IsIndexed : IsIndexed pg as_ref history
    history-IsIndexed =
        (run-IsSound pg as_ref default cs (new pg as_ref owner)
          (new-IsSound pg as_ref default owner)).indexed

    -- After any history of the graph, the edges that a loopback path of a registered node resolves
    -- to lead from the node to itself, each from where the last one ends, and there are at least
    -- two.
    pub loopback_loop :
        (path_len : ℕ) (path_bytes es : List ℕ)
        → get me history.indices ≡ some m
        → resolve_loopback_edges pg as_ref path_len history me path_bytes ≡ some es
        → IsChain pg as_ref history.graph m es m × (2 ≤ length es)
    unfolding resolve_loopback_edges
    loopback_loop path_len path_bytes es at h = subst (LongLoops history m) h (
        if_lem (LongLoops history m) (length path_bytes == 8 * path_len)
          (λ _. slots-Loops history me m (slots_of path_len path_bytes) history-IsIndexed at)
          (λ _. tt))

    -- After any history of the graph, the edges that a SURB round trip of a registered node resolves
    -- to lead from the node to itself, each from where the last one ends, and there is at least one.
    pub round_trip_loop :
        (paths : ForwardAndReturnPath) (es : List ℕ)
        → get me history.indices ≡ some m
        → resolve_round_trip_edges pg as_ref history me paths ≡ some es
        → IsChain pg as_ref history.graph m es m × (1 ≤ length es)
    unfolding resolve_round_trip_edges
    round_trip_loop paths es at h =
        subst (Loops history m) h
          (resolve_legs-Loops history me m paths.forward paths.reply history-IsIndexed at)
