-- ===== src/Viewer/Probe.antt =====
-- viewer/src/probe.ts: the luma grid of a decoded frame, and the frames that a probe reads.
pub mod Rtp
pub mod Grid
pub mod Frames
