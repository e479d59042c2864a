-- ===== src/Compress.antt =====
-- The compression passes (compress/*.py).
pub mod Sampling
pub mod Rewrite
pub mod Lossless
pub mod Filler
pub mod Dedup
pub mod Elision
pub mod Chain
pub mod Learned
