-- ===== src/Account/Redeem.antt =====
-- Redeeming activation keys: what it writes, and that a key serves once.
pub mod Cases
pub mod Once
pub mod Effect
