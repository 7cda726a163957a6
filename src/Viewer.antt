-- ===== src/Viewer.antt =====
-- internal/viewerapp: the cache of encoded tiles between the agent's frames and the local browser.
pub mod Tiles
pub mod Cache
pub mod Budget
pub mod Union
pub mod Follow
pub mod Reader
pub mod Tests
