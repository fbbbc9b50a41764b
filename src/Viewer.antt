-- ===== src/Viewer.antt =====
-- The receiver: viewer/src.
pub mod Probe
pub mod Stage
pub mod Dashboard
pub mod Session
pub mod Telemetry
pub mod Preferences
pub mod Page
mod Tests
