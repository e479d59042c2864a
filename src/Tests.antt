-- ===== src/Tests.antt =====
-- The theorems applied to concrete requests, calls and tables.
pub mod Passes
pub mod Services
pub mod Wire
pub mod Setting
pub mod Entry
pub mod Sealed
pub mod Near
pub mod Metrics
pub mod Served
pub mod Reduced
pub mod Configured
pub mod Recalled
