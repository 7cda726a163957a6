-- ===== src/Stream.antt =====
-- internal/stream: what a viewer may ask of the picture, and how quality follows the delay.
pub mod Options
pub mod Latency
pub mod Bounds
pub mod Tiles
pub mod Tiling
mod Tests
