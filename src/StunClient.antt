-- ===== src/StunClient.antt =====
-- src/stun/stun-client.ts: STUN and TURN messages over a stream.
pub mod Stream
pub mod Chunks
pub mod Messages
