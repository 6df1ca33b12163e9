-- ===== src/P2p.antt =====
-- transport/p2p/src: peer addresses, connection liveness, and the schedule of dials.
pub mod PeerStore
pub mod Peers
pub mod Liveness
pub mod Flags
pub mod Discovery
mod Tests
