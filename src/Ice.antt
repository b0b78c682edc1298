-- ===== src/Ice.antt =====
-- src/ice: the STUN messages of connectivity checks, and the agent that sends and answers them.
pub mod Crc32
pub mod StunMessage
pub mod Agent
