-- ===== src/Cache/Encryption.antt =====
-- cache/encryption.py: the bodies of the response cache are sealed before they are stored. The
-- functions of the `cryptography` package are parameters (AES-GCM, HKDF), and so is the
-- randomness: a call that seals is handed its nonce. A text that the source encodes as UTF-8 for
-- them stays a text, since the encoding loses nothing.
pub mod Cipher
pub mod Opens
pub mod Providers
pub mod Memo
pub mod Store
pub mod Shredding
