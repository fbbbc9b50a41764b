-- ===== src/Viewer/Session.antt =====
-- viewer/src/session.ts: the receiver's session, as a state machine over the events of the page, the
-- timers, the signaling socket and the peer connection.
pub mod State
pub mod Signals
pub mod Direct
pub mod Messages
pub mod Run
pub mod Invariant
pub mod Media
pub mod Early
pub mod Rest
