-- ===== src/Account.antt =====
-- internal/account: the licensing store of the relay server.
pub mod Data
pub mod Devices
pub mod Codes
pub mod Keys
pub mod Users
pub mod Calls
pub mod Redeem
pub mod Moves
pub mod Identity
pub mod Aliases
pub mod Resolve
pub mod Revocation
pub mod Normal
pub mod License
pub mod Heartbeat
pub mod Sessions
mod Tests
