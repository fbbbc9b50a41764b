-- ===== src/Signaling/Room.antt =====
-- The `Room` object of signaling/src/index.ts: its state, its operations and what they keep.
pub mod State
pub mod Pairing
pub mod Message
pub mod Lifecycle
