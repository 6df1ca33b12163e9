-- ===== src/TicketManager/Index.antt =====
-- The counter of outgoing ticket indices, and its behaviour in sequence and under interleaving.
pub mod Defs
pub mod Laws
pub mod Steps
pub mod Unique
pub mod Save
