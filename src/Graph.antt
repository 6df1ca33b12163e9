-- ===== src/Graph.antt =====
-- graph/src/petgraph: the channel graph, its path slots, and the attribution of measurements.
pub mod Petgraph
pub mod Defs
pub mod Claims
pub mod Indexed
pub mod Removed
pub mod Joined
pub mod Calls
pub mod Slots
pub mod Retired
pub mod Lookup
pub mod EdgeMap
pub mod Edges
pub mod Paths
pub mod Walks
pub mod Loops
pub mod RecordEdge
pub mod Listed
pub mod Recorded
pub mod Measured
pub mod Attributed
mod Tests
