-- ===== src/Signaling.antt =====
-- The signaling worker: signaling/src/index.ts.
pub mod Hash
pub mod Directory
pub mod Room
pub mod Worker
pub mod Tests
