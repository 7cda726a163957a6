-- ===== src/Lifecycle.antt =====
-- internal/uilifecycle: when the last browser page has gone away.
pub mod Tracker
pub mod Grace
mod Tests
