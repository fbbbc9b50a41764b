-- ===== src/Viewer/Page.antt =====
-- viewer/src/main.ts: the receiver's page, which starts and stops sessions and shows what they report.
pub mod State
pub mod Handlers
pub mod Run
pub mod Boot
pub mod Invariant
pub mod Stale
pub mod Ended
pub mod Refused
pub mod Resume
pub mod Submit
