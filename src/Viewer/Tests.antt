-- ===== src/Viewer/Tests.antt =====
-- The properties of the receiver at concrete values.
mod Probe
mod Stage
mod Dashboard
mod Page
mod Session
mod Telemetry
