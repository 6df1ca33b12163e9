-- ===== src/TicketManager/Cache.antt =====
-- ticket-manager/src/utils.rs, `OutgoingIndexCache`: the counters of all channels and epochs.
pub mod Defs
pub mod Laws
pub mod Save
