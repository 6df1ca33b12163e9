-- ===== src/SessionForwarder.antt =====
-- session-server-forwarder/src: which targets a session may be forwarded to.
pub mod Text
pub mod Pattern
pub mod Parse
pub mod RoundTrip
pub mod Matching
pub mod AllowList
pub mod Allowed
mod Tests
