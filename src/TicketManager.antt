-- ===== src/TicketManager.antt =====
-- ticket-manager/src: outgoing ticket indices, incoming ticket queues, and what ties them.
pub mod Errors
pub mod Index
pub mod IndexStore
pub mod Cache
pub mod Factory
pub mod Queue
pub mod Backend
pub mod Manager
mod Tests
