-- ===== src/Crypto.antt =====
-- common/Crypto.cpp: the hash, the ciphers and the authenticated encryption.
pub mod Gf
pub mod Aes
pub mod Sha256
pub mod Hmac
pub mod Modes
pub mod Aead
