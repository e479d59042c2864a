-- ===== src/Proxy/Dialects.antt =====
-- proxy/dialects.py: a provider's body is parsed into the canonical request and written back.
pub mod Parse
pub mod Gemini
pub mod Serialize
pub mod Written
pub mod RoundTrip
pub mod Fields
pub mod GeminiTrip
