-- ===== src/Graph/Tests.antt =====
-- The graph at concrete inputs: a node 1 with the nodes 2 and 3. The bytes of a key are seven zeros
-- and its number, and an edge remembers the last latency that a loopback probe recorded.
use hopr_impls.Base.{
  ℕ, ◌≤◌, ◌≡◌, ◌↔◌, refl, Option, none, some, List, [], ◌∷◌, ok, length, any, keep, ◌++◌,
  if◌then◌else◌,
}
use hopr_impls.Base.Keyed.{nat_key, get, insert, remove}
use hopr_impls.Graph.Petgraph.{Petgraph}
use hopr_impls.Graph.Listed.{listed}
use hopr_impls.Graph.Defs.{
  InnerGraph, new, resolve, encode, edge, from_be_bytes, claim_slot, add_node, add_edge,
  upsert_edge,
}
use hopr_impls.Graph.Calls.{Call, adds_node, adds_edge, upserts_edge, run, run-IsSound, IsSound}
use hopr_impls.Graph.Slots.{IsOnlyHolder, resolve_iff, new-IsSound}
use hopr_impls.Graph.Retired.{index_retired}
use hopr_impls.Graph.Walks.{IsChain}
use hopr_impls.Graph.Loops.{loopback_loop, round_trip_loop}
use hopr_impls.Graph.EdgeMap.{or_default, same_keys}
use hopr_impls.Graph.Edges.{edge-upsert_edge}
use hopr_impls.Graph.Paths.{
  resolve_loopback_edges, resolve_round_trip_edges, ForwardAndReturnPath, slots_of, take, drop,
  from_le_bytes, up_to, walk,
}
use hopr_impls.Graph.RecordEdge.{
  EdgeWeightType, intermediate, Observations, ChannelGraph, record_edge, neighbor_ok, loopback_ok,
  loopback_timeout,
}
use hopr_impls.Graph.Recorded.{Report, edge_report, node_report, report_all, report_all-IsSound}
use hopr_impls.Graph.Measured.{KeptBut, loopback_frame}

abbrev bytes : ℕ → List ℕ
bytes k = 0 ∷ 0 ∷ 0 ∷ 0 ∷ 0 ∷ 0 ∷ 0 ∷ k ∷ []

abbrev pg : Petgraph (Option ℕ)
pg = listed (Option ℕ)

abbrev remember : EdgeWeightType → Option ℕ → Option ℕ
remember (intermediate (ok d)) w = some d
remember m w = w

abbrev obs : Observations (Option ℕ)
obs = record {
  unobserved = none;
  record_measurement = remember;
  intermediate_latency = λ w. w;
  immediate_latency = λ w. none;
}

-- A loop through both other nodes.
abbrev calls : List (Call (Option ℕ))
calls = adds_node 2 ∷ adds_node 3 ∷ adds_edge 1 2 ∷ upserts_edge 2 3 (λ w. w) ∷ adds_edge 3 1 ∷ []

abbrev graph : InnerGraph pg
graph = run pg bytes none calls (new pg bytes 1)

resolve_iff_example :
    (resolve pg bytes graph 2 ≡ some 1)
    ↔ ((k : ℕ) × (get k graph.indices ≡ some 1) × IsOnlyHolder pg bytes 2 k graph)
resolve_iff_example = resolve_iff pg bytes none 1 calls 2 1

abbrev two_nodes : List (Call (Option ℕ))
two_nodes = adds_node 2 ∷ []

abbrev two : ℕ
two = 2

index_retired_example : two ≡ two
unfolding new run add_node claim_slot get insert remove keep encode from_be_bytes any
index_retired_example =
    index_retired pg bytes none 1 two 1 two two_nodes (adds_node 3 ∷ []) refl refl

abbrev triangle : List (Call (Option ℕ))
triangle = adds_node 2 ∷ adds_edge 1 2 ∷ adds_edge 2 1 ∷ []

abbrev small : InnerGraph pg
small = run pg bytes none triangle (new pg bytes 1)

abbrev le_slot : ℕ → List ℕ
le_slot k = k ∷ 0 ∷ 0 ∷ 0 ∷ 0 ∷ 0 ∷ 0 ∷ 0 ∷ []

abbrev path : List ℕ
path = le_slot 1 ++ le_slot 2 ++ le_slot 1 ++ le_slot 0 ++ le_slot 0

abbrev edges : List ℕ
edges = 0 ∷ 1 ∷ []

loopback_loop_example : IsChain pg bytes small.graph 0 edges 0 × (2 ≤ length edges)
unfolding new run add_node add_edge claim_slot get insert remove keep encode from_be_bytes any
    resolve resolve_loopback_edges slots_of take drop from_le_bytes up_to walk
loopback_loop_example = loopback_loop pg bytes none 1 1 0 triangle 5 path edges refl refl

abbrev there_and_back : ForwardAndReturnPath
there_and_back = record { forward = 1 ∷ 2 ∷ 0 ∷ []; reply = 2 ∷ 1 ∷ 0 ∷ [] }

round_trip_loop_example : IsChain pg bytes small.graph 0 edges 0 × (1 ≤ length edges)
unfolding new run add_node add_edge claim_slot get insert remove keep encode from_be_bytes any
    resolve resolve_round_trip_edges up_to walk
round_trip_loop_example =
    round_trip_loop pg bytes none 1 1 0 triangle there_and_back edges refl refl

small-IsSound : IsSound pg bytes none small
small-IsSound = run-IsSound pg bytes none triangle (new pg bytes 1) (new-IsSound pg bytes none 1)

abbrev seen : Option ℕ → Option ℕ
seen w = some 9

edge-upsert_edge_example : edge pg bytes 2 1 (upsert_edge pg bytes none 1 3 seen small) ≡ (
    if same_keys 2 1 1 3
    then some (seen (or_default none (edge pg bytes 1 3 small)))
    else edge pg bytes 2 1 small)
edge-upsert_edge_example = edge-upsert_edge pg bytes none 1 3 2 1 seen small small-IsSound

abbrev channels : ChannelGraph pg
channels = record { me = 1; max_plausible_loopback_rtt = 30000000000; inner = small }

abbrev nothing : Option ℕ
nothing = none

loopback_frame_example :
    let found = resolve_loopback_edges pg bytes 5 small 1 path in
    KeptBut pg bytes 5 obs small.graph
      (record_edge pg bytes 5 obs 9 (loopback_ok 7 path) channels).inner.graph
      found
    × KeptBut pg bytes 5 obs small.graph
        (record_edge pg bytes 5 obs 9 (loopback_timeout path) channels).inner.graph
        found
loopback_frame_example = loopback_frame pg bytes 5 obs 9 7 path channels

abbrev reports : List Report
reports = node_report 2 ∷ edge_report 8 (neighbor_ok 2 6) ∷ edge_report 9 (loopback_ok 7 path) ∷ []

report_all-IsSound_example :
    IsSound pg bytes none
      (report_all pg bytes 5 obs reports
        (record { me = 1; max_plausible_loopback_rtt = 30000000000; inner = new pg bytes 1 })).inner
report_all-IsSound_example = report_all-IsSound pg bytes 5 obs reports 1 30000000000
