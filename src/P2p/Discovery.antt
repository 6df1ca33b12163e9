-- ===== src/P2p/Discovery.antt =====
-- transport/p2p/src/behavior/discovery.rs: `Behaviour`, which dials announced peers.
pub mod Defs
pub mod Poll
pub mod Heap
pub mod Runs
pub mod Scheduled
pub mod Schedule
pub mod Order
pub mod Overdue
pub mod Due
pub mod Addresses
pub mod Dispatch
mod Tests
