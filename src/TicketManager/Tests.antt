-- ===== src/TicketManager/Tests.antt =====
-- Runs of the ticket manager's theorems at concrete inputs.
pub mod Data
mod Index
mod Cache
mod Factory
mod Queue
mod Manager
mod Redeem
mod Backend
