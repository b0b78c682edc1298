-- ===== src/Sctp.antt =====
-- src/sctp: the SCTP association of the WebRTC data channel profile.
pub mod Chunks
pub mod Bodies
pub mod Checksum
pub mod Serial
pub mod Dcep
pub mod Association
