-- ===== src/Account/Moves.antt =====
-- What a call does to each table of the store: the cases that the invariants are proved over.
pub mod Devices
pub mod Frame
pub mod Step
pub mod Keys
