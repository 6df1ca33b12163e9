-- ===== src/Connector.antt =====
-- connector/src/connector/sequencer.rs: which nonce a transaction is signed with.
pub mod Sequencer
pub mod Nonces
pub mod Gaps
mod Tests
