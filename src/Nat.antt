-- ===== src/Nat.antt =====
-- internal/natmap: the messages that ask a gateway for a port mapping.
pub mod Pcp
pub mod Answer
pub mod Layout
pub mod Tests
