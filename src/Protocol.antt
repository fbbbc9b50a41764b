-- ===== src/Protocol.antt =====
-- The protocol that the receiver, the host and the signaling worker share: shared/protocol.ts.
pub mod Message
pub mod Json
pub mod Pattern
pub mod Parse
pub mod Encode
pub mod Code
pub mod Hex
mod Tests
