-- ===== src/Tests.antt =====
-- The theorems at concrete inputs: one container, one job, a few maintenance windows.
pub mod Data
pub mod Actions
pub mod Scans
pub mod Windows
pub mod Zones
pub mod Tables
pub mod Stores
pub mod Notices
pub mod Pools
