-- ===== src/Crypto.antt =====
-- Hashes (include/mari/crypto, crypto/src).
pub mod Sha256
