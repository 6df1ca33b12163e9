-- ===== src/Graph/Recorded.antt =====
-- The invariants of the graph over any history of measurements.
use hopr_impls.Base.{
  ℕ, ◌/◌, true, ok, err, Option, none, some, List, [], ◌∷◌, ◌%◌, ◌*◌, ◌^◌, ltb, if_lem,
}
use hopr_impls.Base.Keyed.{nat_key, get}
use hopr_impls.Graph.Petgraph.{Petgraph}
use hopr_impls.Graph.Defs.{InnerGraph, new, is_some, upsert_edge}
use hopr_impls.Graph.Paths.{resolve_loopback_edges, resolve_round_trip_edges, ForwardAndReturnPath}
use hopr_impls.Graph.Calls.{IsSound, update_edge-IsSound, upsert_edge-IsSound, add_node-IsSound}
use hopr_impls.Graph.Slots.{new-IsSound}
use hopr_impls.Graph.RecordEdge.{
  EdgeWeightType, surb_round_trips, immediate, intermediate, connected, balance, upsert_both,
  Observations, MeasurableEdge, surb, neighbor_ok, neighbor_timeout, loopback_ok, loopback_timeout,
  balance_of, connection_status, ChannelGraph, checked_sub, target_of, record_on, record_all,
  known_latency, attributed_duration, record_latency, attribute, attribute_elapsed, record_loopback,
  record_timeout_on, record_timeout, record_round_trip, if_present, record_surb, record_edge,
  record_node, surb_window_ms,
}

-- The measurements that are reported to the graph, with the times of the reports, and its nodes.
pub data Report : Type 0 where
  edge_report : (now : ℕ) → MeasurableEdge → Report
  node_report : ℕ → Report

module _ {W : Type 0} (pg : Petgraph W) (as_ref : ℕ → List ℕ) (path_len : ℕ)
    (obs : Observations W) where
  -- A change of the graph keeps its invariants.
  abbrev IsSafe : (pg.G → pg.G) → Type 0
  IsSafe f =
      (s : InnerGraph pg)
      → IsSound pg as_ref obs.unobserved s
      → IsSound pg as_ref obs.unobserved (record s { graph = f s.graph })

  id-IsSafe : IsSafe (λ g. g)
  id-IsSafe s w = w

  record_on-IsSafe : (e : ℕ) (m : EdgeWeightType) → IsSafe (record_on pg as_ref path_len obs e m)
  record_on-IsSafe e m = update_edge-IsSound pg as_ref obs.unobserved e (obs.record_measurement m)

  record_all-IsSafe :
      (es : List ℕ) (m : EdgeWeightType) → IsSafe (record_all pg as_ref path_len obs es m)
  unfolding record_all
  record_all-IsSafe [] m s w = w
  record_all-IsSafe (e ∷ es) m s w =
      record_all-IsSafe es m (record s { graph = record_on pg as_ref path_len obs e m s.graph })
        (record_on-IsSafe e m s w)

  record_latency-IsSafe :
      (t : ℕ) (d : Option ℕ) → IsSafe (record_latency pg as_ref path_len obs t d)
  record_latency-IsSafe t none s w = w
  record_latency-IsSafe t (some d) s w = record_on-IsSafe t (intermediate (ok d)) s w

  attribute-IsSafe :
      (total : ℕ) (es : List ℕ) (t : Option ℕ)
      → IsSafe (attribute pg as_ref path_len obs total es t)
  attribute-IsSafe total es none s w = w
  attribute-IsSafe total es (some t) s w =
      record_latency-IsSafe t
        (attributed_duration pg as_ref path_len obs total
          (known_latency pg as_ref path_len obs es s.graph) (pg.edge_weight t s.graph))
        s w

  elapsed-IsSafe :
      (max : ℕ) (es : List ℕ) (elapsed : Option ℕ)
      → IsSafe (attribute_elapsed pg as_ref path_len obs max es elapsed)
  elapsed-IsSafe max es none s w = w
  elapsed-IsSafe max es (some ms) s w =
      let total = 1000000 * (ms % 2 ^ 64) in
      if_lem (λ (g : pg.G). IsSound pg as_ref obs.unobserved (record s { graph = g }))
        (ltb max total) (λ _. w) (λ _. attribute-IsSafe total es (target_of es) s w)

  loopback-IsSafe :
      (max now ts : ℕ) (es : Option (List ℕ))
      → IsSafe (record_loopback pg as_ref path_len obs max now ts es)
  loopback-IsSafe max now ts none s w = w
  loopback-IsSafe max now ts (some es) s w = elapsed-IsSafe max es (checked_sub now ts) s w

  timeout_on-IsSafe : (t : Option ℕ) → IsSafe (record_timeout_on pg as_ref path_len obs t)
  timeout_on-IsSafe none s w = w
  timeout_on-IsSafe (some t) s w = record_on-IsSafe t (intermediate (err tt)) s w

  timeout-IsSafe : (es : Option (List ℕ)) → IsSafe (record_timeout pg as_ref path_len obs es)
  timeout-IsSafe none s w = w
  timeout-IsSafe (some es) s w = timeout_on-IsSafe (target_of es) s w

  round_trip-IsSafe :
      (expected observed : ℕ) (es : Option (List ℕ))
      → IsSafe (record_round_trip pg as_ref path_len obs expected observed es)
  round_trip-IsSafe expected observed none s w = w
  round_trip-IsSafe expected observed (some es) s w =
      record_all-IsSafe es (surb_round_trips expected observed) s w

  abbrev IsSoundGraph : ChannelGraph pg → Type 0
  IsSoundGraph s = IsSound pg as_ref obs.unobserved s.inner

  present-IsSound :
      (f : pg.G → pg.G) (s : ChannelGraph pg)
      → IsSafe f
      → IsSoundGraph s
      → IsSoundGraph (if_present pg as_ref path_len obs f s)
  present-IsSound f s safe w =
      if_lem IsSoundGraph (is_some (get s.me s.inner.indices)) (λ _. safe s.inner w) (λ _. w)

  surb-IsSound :
      (age : Option ℕ) (paths : ForwardAndReturnPath) (expected observed : ℕ) (s : ChannelGraph pg)
      → IsSoundGraph s
      → IsSoundGraph (record_surb pg as_ref path_len obs age paths expected observed s)
  surb-IsSound none paths expected observed s w = w
  surb-IsSound (some age) paths expected observed s w =
      let es = resolve_round_trip_edges pg as_ref s.inner s.me paths in
      if_lem IsSoundGraph (ltb surb_window_ms age) (λ _. w)
        (λ _.
          present-IsSound (record_round_trip pg as_ref path_len obs expected observed es) s
            (round_trip-IsSafe expected observed es) w)

  both-IsSound :
      (peer : ℕ) (f : W → W) (s : ChannelGraph pg)
      → IsSoundGraph s
      → IsSoundGraph (upsert_both pg as_ref path_len obs peer f s)
  both-IsSound peer f s w =
      upsert_edge-IsSound pg as_ref obs.unobserved peer s.me f
        (upsert_edge pg as_ref obs.unobserved s.me peer f s.inner)
        (upsert_edge-IsSound pg as_ref obs.unobserved s.me peer f s.inner w)

  record_edge-IsSound :
      (now : ℕ) (m : MeasurableEdge) (s : ChannelGraph pg)
      → IsSoundGraph s
      → IsSoundGraph (record_edge pg as_ref path_len obs now m s)
  unfolding record_edge
  record_edge-IsSound now (surb timestamp paths expected observed) s w =
      surb-IsSound (checked_sub now timestamp) paths expected observed s w
  record_edge-IsSound now (neighbor_ok peer rtt) s w =
      both-IsSound peer
        (λ x.
          obs.record_measurement (immediate (ok (rtt / 2)))
            (obs.record_measurement (connected true) x))
        s w
  record_edge-IsSound now (loopback_ok timestamp path) s w =
      let es = resolve_loopback_edges pg as_ref path_len s.inner s.me path in
      let max = s.max_plausible_loopback_rtt in
      present-IsSound (record_loopback pg as_ref path_len obs max now timestamp es) s
        (loopback-IsSafe max now timestamp es) w
  record_edge-IsSound now (neighbor_timeout peer) s w =
      both-IsSound peer (obs.record_measurement (immediate (err tt))) s w
  record_edge-IsSound now (loopback_timeout path) s w =
      let es = resolve_loopback_edges pg as_ref path_len s.inner s.me path in
      present-IsSound (record_timeout pg as_ref path_len obs es) s (timeout-IsSafe es) w
  record_edge-IsSound now (balance_of src dest amount) s w =
      upsert_edge-IsSound pg as_ref obs.unobserved src dest
        (obs.record_measurement (balance amount)) s.inner w
  record_edge-IsSound now (connection_status peer is_connected) s w =
      both-IsSound peer (obs.record_measurement (connected is_connected)) s w

  unfoldable pub report_all : List Report → ChannelGraph pg → ChannelGraph pg
  report_all [] s = s
  report_all (edge_report now m ∷ rs) s = report_all rs (record_edge pg as_ref path_len obs now m s)
  report_all (node_report key ∷ rs) s = report_all rs (record_node pg as_ref path_len obs key s)

  report_all-keeps :
      (rs : List Report) (s : ChannelGraph pg) → IsSoundGraph s → IsSoundGraph (report_all rs s)
  unfolding report_all record_node
  report_all-keeps [] s w = w
  report_all-keeps (edge_report now m ∷ rs) s w =
      report_all-keeps rs (record_edge pg as_ref path_len obs now m s)
        (record_edge-IsSound now m s w)
  report_all-keeps (node_report key ∷ rs) s w =
      report_all-keeps rs (record_node pg as_ref path_len obs key s)
        (add_node-IsSound pg as_ref obs.unobserved key s.inner w)

  -- A graph that starts with its own node keeps its invariants through any reports: the claimants
  -- of a slot are the indices of the registered keys that encode to it, each once, an index is that
  -- of one key, and edges join registered nodes, at most one from a node to another.
  pub report_all-IsSound :
      (rs : List Report) (me max_rtt : ℕ)
      → IsSound pg as_ref obs.unobserved
          (report_all rs (record {
            me = me;
            max_plausible_loopback_rtt = max_rtt;
            inner = new pg as_ref me;
          })).inner
  report_all-IsSound rs me max_rtt =
      report_all-keeps rs
        (record { me = me; max_plausible_loopback_rtt = max_rtt; inner = new pg as_ref me })
        (new-IsSound pg as_ref obs.unobserved me)
