-- ===== src/Relay.antt =====
-- cmd/yudesk-relay: the meetings that the relay server holds.
pub mod Conference
pub mod Seats
pub mod Leaving
pub mod Host
pub mod History
pub mod Removal
pub mod Tests
