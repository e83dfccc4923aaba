-- ===== src/Config.antt =====
-- src/banjax.cpp: how the configuration is read and the filters are put in order.
pub mod Read
pub mod Priorities
pub mod Build
pub mod Start
pub mod Merge
