-- ===== src/Tests.antt =====
-- Runs of the model on concrete inputs, and the theorems at such inputs.
mod Queue
mod Codecs
mod Wire
mod Association
mod Dtls
mod Ice
mod Peer
mod Stun
mod Channels
mod Handshake
