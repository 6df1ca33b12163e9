-- ===== src/Graph/RecordEdge.antt =====
-- graph/src/petgraph/update.rs: `NetworkGraphUpdate::record_edge`, which attributes a measurement to
-- edges. What an edge remembers of its measurements is an argument, `Observations`. A time stamp is
-- in milliseconds, a latency in nanoseconds, and the time at which the report is handled is an
-- argument, `now`.
use hopr_impls.Base.{
  ℕ, ◌+◌, ◌-◌, ◌*◌, ◌/◌, ◌%◌, ◌^◌, Bool, true, Option, none, some, List, [], ◌∷◌, Result, ok, err,
  if◌then◌else◌, ltb,
}
use hopr_impls.Base.Keyed.{nat_key, get}
use hopr_impls.Graph.Petgraph.{Petgraph}
use hopr_impls.Graph.Defs.{InnerGraph, upsert_edge, add_node, is_some}
use hopr_impls.Graph.Paths.{ForwardAndReturnPath, resolve_loopback_edges, resolve_round_trip_edges}

-- What is recorded on an edge: `EdgeWeightType`
pub data EdgeWeightType : Type 0 where
  connected : Bool → EdgeWeightType
  immediate intermediate : Result (Unit {0}) ℕ → EdgeWeightType
  surb_round_trips : (expected observed : ℕ) → EdgeWeightType
  balance : Option ℕ → EdgeWeightType

pub record Observations (W : Type 0) : Type 0 where
  pub unobserved : W
  pub record_measurement : EdgeWeightType → W → W
  -- `average_latency` of `intermediate_qos` and of `immediate_qos`
  pub intermediate_latency : W → Option ℕ
  pub immediate_latency : W → Option ℕ

-- `MeasurableEdge`
pub data MeasurableEdge : Type 0 where
  surb : (timestamp : ℕ) → (paths : ForwardAndReturnPath) → (expected observed : ℕ) → MeasurableEdge
  neighbor_ok : (peer rtt : ℕ) → MeasurableEdge
  neighbor_timeout : (peer : ℕ) → MeasurableEdge
  loopback_ok : (timestamp : ℕ) → (path : List ℕ) → MeasurableEdge
  loopback_timeout : (path : List ℕ) → MeasurableEdge
  balance_of : (src dest : ℕ) → Option ℕ → MeasurableEdge
  connection_status : (peer : ℕ) → Bool → MeasurableEdge

-- `ChannelGraph`, without the parameters that path selection alone reads
pub record ChannelGraph {W : Type 0} (pg : Petgraph W) : Type 0 where
  pub me : ℕ
  pub max_plausible_loopback_rtt : ℕ
  pub inner : InnerGraph pg

abbrev pub surb_window_ms : ℕ
surb_window_ms = 2000 * 12

abbrev pub checked_sub : ℕ → ℕ → Option ℕ
checked_sub a b = if ltb a b then none else some (a - b)

abbrev pub or_else : Option ℕ → Option ℕ → Option ℕ
or_else none b = b
or_else (some a) b = some a

abbrev pub or_zero : Option ℕ → ℕ
or_zero none = 0
or_zero (some a) = a

-- The element before the last one: `edges[edges.len() - 2]`
abbrev pub target_of : List ℕ → Option ℕ
target_of [] = none
target_of (e ∷ []) = none
target_of (e ∷ f ∷ []) = some e
target_of (e ∷ f ∷ g ∷ es) = target_of (f ∷ g ∷ es)

module _ {W : Type 0} (pg : Petgraph W) (as_ref : ℕ → List ℕ) (path_len : ℕ)
    (obs : Observations W) where
  abbrev pub record_on : ℕ → EdgeWeightType → pg.G → pg.G
  record_on e m g = pg.update_edge e (obs.record_measurement m) g

  -- The loop over the edges of a round trip.
  unfoldable pub record_all : List ℕ → EdgeWeightType → pg.G → pg.G
  record_all [] m g = g
  record_all (e ∷ es) m g = record_all es m (record_on e m g)

  abbrev pub upsert : (src dest : ℕ) → (W → W) → ChannelGraph pg → ChannelGraph pg
  upsert src dest f s = record s { inner = upsert_edge pg as_ref obs.unobserved src dest f s.inner }

  -- Both directions of an immediate connection.
  abbrev pub upsert_both : (peer : ℕ) → (W → W) → ChannelGraph pg → ChannelGraph pg
  upsert_both peer f s = upsert peer s.me f (upsert s.me peer f s)

  abbrev pub latency_of_weight : Option W → ℕ
  latency_of_weight none = 0
  latency_of_weight (some w) =
      or_zero (or_else (obs.intermediate_latency w) (obs.immediate_latency w))

  -- The sum over the edges other than the one at the target's position.
  unfoldable pub known_latency : List ℕ → pg.G → ℕ
  known_latency [] g = 0
  known_latency (e ∷ []) g = latency_of_weight (pg.edge_weight e g)
  known_latency (e ∷ f ∷ []) g = latency_of_weight (pg.edge_weight f g)
  known_latency (e ∷ f ∷ h ∷ es) g =
      latency_of_weight (pg.edge_weight e g) + known_latency (f ∷ h ∷ es) g

  abbrev pub carried : Option W → Option ℕ
  carried none = none
  carried (some w) = obs.intermediate_latency w

  -- The latency that is recorded for the target edge, if any.
  abbrev pub attributed_duration : (total known : ℕ) → Option W → Option ℕ
  attributed_duration total known weight = or_else (checked_sub total known) (carried weight)

  abbrev pub record_latency : ℕ → Option ℕ → pg.G → pg.G
  record_latency target none g = g
  record_latency target (some latency) g = record_on target (intermediate (ok latency)) g

  abbrev pub attribute : (total : ℕ) → List ℕ → Option ℕ → pg.G → pg.G
  attribute total es none g = g
  attribute total es (some target) g =
      record_latency target
        (attributed_duration total (known_latency es g) (pg.edge_weight target g)) g

  abbrev pub attribute_elapsed : (max_rtt : ℕ) → List ℕ → Option ℕ → pg.G → pg.G
  attribute_elapsed max_rtt es none g = g
  attribute_elapsed max_rtt es (some elapsed_ms) g =
      let total_rtt = 1000000 * (elapsed_ms % 2 ^ 64) in
      if ltb max_rtt total_rtt then g else attribute total_rtt es (target_of es) g

  abbrev pub record_loopback : (max_rtt now timestamp : ℕ) → Option (List ℕ) → pg.G → pg.G
  record_loopback max_rtt now timestamp none g = g
  record_loopback max_rtt now timestamp (some es) g =
      attribute_elapsed max_rtt es (checked_sub now timestamp) g

  abbrev pub record_timeout_on : Option ℕ → pg.G → pg.G
  record_timeout_on none g = g
  record_timeout_on (some target) g = record_on target (intermediate (err tt)) g

  abbrev pub record_timeout : Option (List ℕ) → pg.G → pg.G
  record_timeout none g = g
  record_timeout (some es) g = record_timeout_on (target_of es) g

  abbrev pub record_round_trip : (expected observed : ℕ) → Option (List ℕ) → pg.G → pg.G
  record_round_trip expected observed none g = g
  record_round_trip expected observed (some es) g =
      record_all es (surb_round_trips expected observed) g

  -- A change of the graph, if the node itself is in it.
  abbrev pub if_present : (pg.G → pg.G) → ChannelGraph pg → ChannelGraph pg
  if_present f s =
      if is_some (get s.me s.inner.indices)
      then record s { inner = record (s.inner) { graph = f s.inner.graph } }
      else s

  abbrev pub record_surb :
      Option ℕ → ForwardAndReturnPath → (expected observed : ℕ) → ChannelGraph pg → ChannelGraph pg
  record_surb none paths expected observed s = s
  record_surb (some age_ms) paths expected observed s =
      if ltb surb_window_ms age_ms
      then s
      else if_present
          (record_round_trip expected observed
            (resolve_round_trip_edges pg as_ref s.inner s.me paths))
          s

  unfoldable pub record_edge : (now : ℕ) → MeasurableEdge → ChannelGraph pg → ChannelGraph pg
  record_edge now (surb timestamp paths expected observed) s =
      record_surb (checked_sub now timestamp) paths expected observed s
  record_edge now (neighbor_ok peer rtt) s =
      upsert_both peer
        (λ w.
          obs.record_measurement (immediate (ok (rtt / 2)))
            (obs.record_measurement (connected true) w))
        s
  record_edge now (loopback_ok timestamp path) s =
      if_present
        (record_loopback s.max_plausible_loopback_rtt now timestamp
          (resolve_loopback_edges pg as_ref path_len s.inner s.me path))
        s
  record_edge now (neighbor_timeout peer) s =
      upsert_both peer (obs.record_measurement (immediate (err tt))) s
  record_edge now (loopback_timeout path) s =
      if_present (record_timeout (resolve_loopback_edges pg as_ref path_len s.inner s.me path)) s
  record_edge now (balance_of src dest amount) s =
      upsert src dest (obs.record_measurement (balance amount)) s
  record_edge now (connection_status peer is_connected) s =
      upsert_both peer (obs.record_measurement (connected is_connected)) s

  unfoldable pub record_node : ℕ → ChannelGraph pg → ChannelGraph pg
  record_node key s = record s { inner = add_node pg as_ref key s.inner }
