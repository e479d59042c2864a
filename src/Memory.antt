-- ===== src/Memory.antt =====
-- The graph memory and what it does to a request (memory/*.py).
pub mod Compaction
pub mod Provider
pub mod Terms
pub mod Graph
pub mod Summary
pub mod Retrieval
pub mod Persisted
