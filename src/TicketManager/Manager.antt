-- ===== src/TicketManager/Manager.antt =====
-- ticket-manager/src/manager.rs: `HoprTicketManager`.
pub mod State
pub mod Insert
pub mod Neglect
pub mod Expected
pub mod Inserted
pub mod FirstTicket
pub mod Redeem
pub mod Stats
pub mod Sync
pub mod Neglected
pub mod Calls
pub mod Locked
pub mod Settled
pub mod Counted
pub mod Pruned
pub mod Returns
