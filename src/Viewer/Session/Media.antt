-- ===== src/Viewer/Session/Media.antt =====
-- The picture outlives the signaling connection.
use laptop_as_a_second_monit.Common.{
  ℕ, ◌≡◌, refl, true, ◌||◌, if◌then◌else◌, not, some, [], Str, str_eq_refl, Bool-cases, inl, inr,
}
use laptop_as_a_second_monit.Protocol.Message.{ready, peer_left}
use laptop_as_a_second_monit.Viewer.Session.State.{to_start, Session, Input, ◌>>>◌}
use laptop_as_a_second_monit.Viewer.Session.State.Methods.{note, live, retry_delay, schedule_retry}
use laptop_as_a_second_monit.Viewer.Session.Signals.{is_current, on_close, on_error}
use laptop_as_a_second_monit.Viewer.Session.Messages.{message, begin, host_left}

-- The connection, the generation and the phase are as before.
pub record IsKept (s t : Session) : Type 0 where
  pub peer : t.peer ≡ s.peer
  pub generation : t.generation ≡ s.generation
  pub phase : t.last_phase ≡ s.last_phase

kept : (s : Session) → IsKept s s
kept s = record { peer = refl; generation = refl; phase = refl }

close-IsKept :
    (input : Input) (i : ℕ) (details : Str) (s : Session)
    → live s ≡ true
    → IsKept s (on_close input i details s).0
      × ((on_close input i details s).0.retry_timer ≡ (
          if not (is_current i s.socket) || s.stopped
          then s.retry_timer
          else some (to_start (retry_delay s.retry))))
      × ((on_close input i details s).1 ≡ [])
unfolding on_close ◌>>>◌ note schedule_retry
close-IsKept input i details s h = elim (Bool-cases (not (is_current i s.socket) || s.stopped)) [
  | inl e ↦ simp e (kept s, refl, refl)
  | inr e ↦ simp (e, h) (record { peer = refl; generation = refl; phase = refl }, refl, refl)
]

left-IsKept :
    (input : Input) (s : Session)
    → live s ≡ true
    → IsKept s (message input peer_left s).0.0 × ((message input peer_left s).0.1 ≡ [])
unfolding message host_left note
left-IsKept input s h = simp h (record { peer = refl; generation = refl; phase = refl }, refl)

resume-IsKept :
    (input : Input) (s : Session)
    → live s ≡ true
    → IsKept s (message input (ready s.generation true) s).0.0
      × ((message input (ready s.generation true) s).0.1 ≡ [])
unfolding message begin note
resume-IsKept input s h =
    simp (h, str_eq_refl s.generation)
      (record { peer = refl; generation = refl; phase = refl }, refl)

error_kept : (s : Session) → live s ≡ true → on_error s ≡ (s, [])
unfolding on_error
error_kept s h = simp h refl

-- While the media connection is up, neither a signaling socket that closes or fails nor the host's leaving
-- nor a generation that is resumed changes the connection, the generation or the phase, or shows anything;
-- and exactly when the session's own socket closes before it has stopped, a retry is scheduled after the
-- delay that is next.
pub on_close-IsKept :
    (input : Input) (i : ℕ) (details : Str) (s : Session)
    → live s ≡ true
    → IsKept s (on_close input i details s).0
      × ((on_close input i details s).1 ≡ [])
      × ((on_close input i details s).0.retry_timer ≡ (
          if not (is_current i s.socket) || s.stopped
          then s.retry_timer
          else some (to_start (retry_delay s.retry))))
      × (on_error s ≡ (s, []))
      × IsKept s (message input peer_left s).0.0
      × ((message input peer_left s).0.1 ≡ [])
      × IsKept s (message input (ready s.generation true) s).0.0
      × ((message input (ready s.generation true) s).0.1 ≡ [])
on_close-IsKept input i details s h =
    let (closed, retried, silent) = close-IsKept input i details s h in
    let (left, left_silent) = left-IsKept input s h in
    let (resumed, resumed_silent) = resume-IsKept input s h in
    (closed, silent, retried, error_kept s h, left, left_silent, resumed, resumed_silent)
