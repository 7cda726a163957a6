-- ===== src/Secure.antt =====
-- internal/secureconn: the encrypted connection between a viewer and an agent.
pub mod Keys
pub mod Expand
pub mod Transcript
pub mod Records
pub mod Handshake
pub mod Authentic
pub mod Framing
pub mod Agreement
pub mod Session
pub mod Tests
pub mod Nonces
pub mod Sending
pub mod Stream
