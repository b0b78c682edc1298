-- ===== src/Crypto.antt =====
-- src/crypto: DER.
pub mod Der
