-- ===== src/TicketManager/Factory.antt =====
-- ticket-manager/src/factory.rs: `HoprTicketFactory`.
pub mod Defs
pub mod Index
pub mod Sync
pub mod Ticket
