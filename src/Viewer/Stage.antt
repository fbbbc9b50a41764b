-- ===== src/Viewer/Stage.antt =====
-- viewer/src/stage.ts: the virtual display, as a state machine over the calls of the page and what the
-- browser brings.
pub mod State
pub mod Run
pub mod Shown
pub mod Lock
pub mod Frames
