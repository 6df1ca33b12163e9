-- ===== src/TicketManager/Backend.antt =====
-- ticket-manager/src/backend/memory.rs: the in-memory store of queues and outgoing indices.
pub mod Memory
pub mod Sorted
pub mod Laws
pub mod Runs
