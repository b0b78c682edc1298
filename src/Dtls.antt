-- ===== src/Dtls.antt =====
-- src/dtls: the wire format of DTLS 1.2.
pub mod Protocol
pub mod Primitives
pub mod Prf
pub mod Cipher
pub mod Connection
