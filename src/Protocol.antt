-- ===== src/Protocol.antt =====
-- internal/protocol: messages on the wire, and who writes next.
pub mod Wire
pub mod Bytes
pub mod Fragment
pub mod RoundTrip
pub mod Refusal
pub mod Gate
pub mod Fairness
mod Tests
