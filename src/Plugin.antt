-- ===== src/Plugin.antt =====
-- The plugin of src/banjax.cpp, around the filters.
pub mod State
pub mod Construct
pub mod Lifetime
pub mod Start
pub mod Status
