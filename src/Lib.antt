-- ===== src/Lib.antt =====
-- A model of parts of hopr-impls, with the theorems that make them correct: the ticket manager, the
-- network graph, the dialing of peers, the nonces of transactions, and three smaller ones.
--
-- The ticket manager (ticket-manager/) has two halves over one store. The factory issues outgoing
-- tickets: each channel and epoch has a counter of indices (`OutgoingIndexEntry`), the counters are
-- kept in memory (`OutgoingIndexCache`) and saved to the store on demand. The manager keeps incoming
-- winning tickets in one ordered queue for each channel (`ValueCachedQueue` over a queue of the
-- store), redeems them on chain in order, or neglects them. The factory asks the manager for the
-- value of queued tickets when it validates an incoming ticket.
--
-- The network graph (graph/) records which nodes have channels to which and what was measured on
-- them. A probe or a round trip names its nodes by slots derived from their keys; the graph resolves
-- the slots to edges when the report arrives, possibly after nodes were removed, and attributes the
-- measurement to them. The swarm's discovery behaviour (transport/p2p/) dials announced peers, with
-- at most one scheduled dial for each.
--
-- Files and code (paths from the repository's root):
-- - Base, Base/*: shared names, results, association lists with a decidable key.
-- - HoprApi: what the code uses of the crate `hopr_api`, which is not in the repository; its
--   constants and functions are the argument `api`, an order of tickets among them.
-- - TicketManager/Errors: ticket-manager/src/errors.rs.
-- - TicketManager/Index: `OutgoingIndexEntry` of ticket-manager/src/utils.rs. Defs has each method
--   as one call; Steps has its atomic operations, one at a time, under any schedule; Unique and
--   Save are about schedules.
-- - TicketManager/IndexStore and Queue/Traits: the traits of ticket-manager/src/traits.rs as
--   records of operations, and what an implementation promises (`IsIndexStore`, `IsTicketQueue`).
-- - TicketManager/Cache: `OutgoingIndexCache` of ticket-manager/src/utils.rs.
-- - TicketManager/Factory: ticket-manager/src/factory.rs.
-- - TicketManager/Queue: the default methods of the traits and ticket-manager/src/backend/mod.rs.
-- - TicketManager/Manager: ticket-manager/src/manager.rs and the rest of utils.rs. Insert, Neglect,
--   Redeem, Stats and Sync are its methods, Calls has them as data; the other modules prove what
--   they do.
-- - TicketManager/Backend: ticket-manager/src/backend/memory.rs (Memory), which keeps the promises
--   (Sorted, Laws, Runs).
-- - SessionForwarder: session-server-forwarder/src/target_pattern.rs (Text, Pattern, Parse;
--   proofs in Matching and RoundTrip) and allow_list.rs (AllowList; proofs in Allowed). Which
--   hosts a session may reach.
-- - P2p: transport/p2p/src/peer_store.rs (PeerStore; proofs in Peers) and liveness.rs (Liveness;
--   proofs in Flags). What is known of peers, and which streams are dead.
-- - P2p/Discovery: transport/p2p/src/behavior/discovery.rs. Defs has the state and the swarm's
--   events, Poll has `poll`; Heap, Dispatch and Runs are lemmas on the heap, on the loop over due
--   dials and on sequences of calls; Scheduled and Schedule, Order, Overdue and Due, and Addresses
--   prove what holds over any such sequence.
-- - Graph: graph/src/petgraph/. Petgraph is what it uses of the crate petgraph, as operations and
--   laws, and Listed a concrete graph that has them. Defs is graph.rs and the path slots of mod.rs,
--   Paths and RecordEdge are update.rs. Claims, Indexed, Removed, Joined and Calls prove the
--   invariants of the graph; Slots, Retired, Walks, Loops, Lookup, EdgeMap, Edges, Recorded,
--   Measured and Attributed what follows.
-- - Connector: connector/src/connector/sequencer.rs. Sequencer is the loop over queued transactions,
--   Nonces and Gaps prove which nonces they are signed with.
-- - Tests modules: runs at concrete inputs.
--
-- State is passed explicitly: an operation returns its result beside the state, which is also there
-- after an error, since what was written before it stays written. A queue is a handle into the
-- store, so that a queue opened twice is one queue. An index is a `u64` and `fetch_add` wraps around
-- at 2 ^ 64; a balance is a number up to `api.max_balance` whose arithmetic saturates. Theorems that
-- need the absence of wrap-around or saturation say so. The loops over a queue (`drain`,
-- `neglect_tickets`, `prune`) take fuel for their rounds; a round takes a ticket off, so more fuel
-- than tickets is enough, and the theorems say that. The loop over due dials takes as many rounds
-- as the heap has entries, which is enough, too. The number of slots of a path is an argument. A
-- step of the redeem stream works on the stream's own entry, which the map shares with it until a
-- synchronization replaces it, and takes the answer of the chain and whatever other calls did to
-- the entry and the store while it waited. The heap of the memory queue is a list of tickets in no
-- particular order out of which a least one is taken.
--
-- Not modelled: the database backend (calls of redb), the command-line inspector, logging,
-- memory orders weaker than sequential consistency, and the order in which the concurrent maps
-- iterate; the unsealing of session targets; sockets, tasks and the network swarm; of the graph,
-- the weights of edges with their floating-point averages, the health of nodes, the listings of
-- edges and path selection. Of the crate connector only the nonce sequencer is modelled, and
-- nothing of the crate ct. The two halves of the ticket manager share one store in the code;
-- each has its own state here, since neither touches what the other stores.
pub mod Base
pub mod HoprApi
pub mod TicketManager
pub mod SessionForwarder
pub mod P2p
pub mod Graph
pub mod Connector
