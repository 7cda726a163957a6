-- ===== src/Approval.antt =====
-- internal/approval: single-use access that the person at the device approves.
pub mod Broker
pub mod Consent
pub mod Rate
mod Tests
