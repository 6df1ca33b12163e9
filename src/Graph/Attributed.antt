-- ===== src/Graph/Attributed.antt =====
-- The latency that a loopback probe records, and what an immediate connection records.
use hopr_impls.Base.{
  ℕ, ◌+◌, ◌-◌, ◌*◌, ◌%◌, ◌^◌, ◌/◌, ◌≡◌, ◌≢◌, refl, ◌∙◌, ap, true, Option, some, List, [], ◌∷◌, ◌++◌,
  ok, arith, if◌then◌else◌, if_cong,
}
use hopr_impls.Base.Keyed.{nat_key}
use hopr_impls.Graph.Petgraph.{Petgraph}
use hopr_impls.Graph.Defs.{edge, upsert_edge}
use hopr_impls.Graph.Calls.{IsSound, upsert_edge-IsSound}
use hopr_impls.Graph.EdgeMap.{or_default, same_keys}
use hopr_impls.Graph.Edges.{edge-upsert_edge}
use hopr_impls.Graph.RecordEdge.{
  connected, immediate, Observations, neighbor_ok, loopback_ok, ChannelGraph, latency_of_weight,
  record_edge, upsert_both,
}

module _ {W : Type 0} (pg : Petgraph W) (as_ref : ℕ → List ℕ) (path_len : ℕ)
    (obs : Observations W) where
  -- The latencies of a sequence of edges, one by one.
  abbrev pub latency_sum : List ℕ → pg.G → ℕ
  latency_sum [] g = 0
  latency_sum (e ∷ es) g =
      latency_of_weight pg as_ref path_len obs (pg.edge_weight e g) + latency_sum es g

  -- A change recorded in both directions of an immediate connection.
  both_lem :
      (peer a b : ℕ) (f : W → W) (s : ChannelGraph pg)
      → IsSound pg as_ref obs.unobserved s.inner
      → s.me ≢ peer
      → let s' = upsert_both pg as_ref path_len obs peer f s in
        edge pg as_ref a b s'.inner ≡ (
          if same_keys a b peer s.me
          then some (f (or_default obs.unobserved (edge pg as_ref peer s.me s.inner)))
          else (if same_keys a b s.me peer
              then some (f (or_default obs.unobserved (edge pg as_ref s.me peer s.inner)))
              else edge pg as_ref a b s.inner))
  both_lem peer a b f s w apart =
      let s1 = upsert_edge pg as_ref obs.unobserved s.me peer f s.inner in
      let w1 = upsert_edge-IsSound pg as_ref obs.unobserved s.me peer f s.inner w in
      let first =
        λ (x : ℕ) (y : ℕ). edge-upsert_edge pg as_ref obs.unobserved s.me peer x y f s.inner w in
      let reverse : edge pg as_ref peer s.me s1 ≡ edge pg as_ref peer s.me s.inner =
        ground (arith, first peer s.me, apart) in
      edge-upsert_edge pg as_ref obs.unobserved peer s.me a b f s1 w1
      ∙ if_cong refl (ap (λ o. some (f (or_default obs.unobserved o))) reverse) (first a b)

  -- A neighbour probe that came back records the connection and half the round trip on the edges in
  -- both directions, which it makes if they are missing, and changes the edges of no other pair.
  pub neighbor_lem :
      (now peer rtt a b : ℕ) (s : ChannelGraph pg)
      → IsSound pg as_ref obs.unobserved s.inner
      → s.me ≢ peer
      → let f : W → W = λ w.
        obs.record_measurement
          (immediate (ok (rtt / 2)))
          (obs.record_measurement (connected true) w) in
        let s' = record_edge pg as_ref path_len obs now (neighbor_ok peer rtt) s in
        edge pg as_ref a b s'.inner ≡ (
          if same_keys a b peer s.me
          then some (f (or_default obs.unobserved (edge pg as_ref peer s.me s.inner)))
          else (if same_keys a b s.me peer
              then some (f (or_default obs.unobserved (edge pg as_ref s.me peer s.inner)))
              else edge pg as_ref a b s.inner))
  unfolding record_edge
  neighbor_lem now peer rtt a b s w apart =
      both_lem peer a b
        (λ w.
          obs.record_measurement (immediate (ok (rtt / 2)))
            (obs.record_measurement (connected true) w))
        s w apart

  module _ (now timestamp target last : ℕ) (path front : List ℕ) (s : ChannelGraph pg) (w : W) where
    abbrev es : List ℕ
    es = front ++ target ∷ last ∷ []

    abbrev total_rtt : ℕ
    total_rtt = 1000000 * ((now - timestamp) % 2 ^ 64)

    abbrev others : ℕ
    others = latency_sum (front ++ last ∷ []) s.inner.graph

    abbrev after : Option W
    after =
        pg.edge_weight target
          (record_edge pg as_ref path_len obs now (loopback_ok timestamp path) s).inner.graph
