-- ===== src/Cache.antt =====
-- The response cache and what is kept beside it (cache/*.py).
pub mod Seen
pub mod Encryption
pub mod Contexts
pub mod Similarity
pub mod Epoch
pub mod Store
pub mod Strategy
pub mod Policy
