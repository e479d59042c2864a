-- ===== src/Proxy.antt =====
-- The proxy: the wire formats and the engine (proxy/*.py).
pub mod Dialects
pub mod Usage
pub mod Engine
pub mod Server
