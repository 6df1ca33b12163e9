-- ===== src/TicketManager/Queue.antt =====
-- ticket-manager/src/traits.rs and backend/: the queues of redeemable tickets.
pub mod Traits
pub mod Sums
pub mod Drain
pub mod Cached
pub mod Value
pub mod Reads
pub mod Emptied
