-- ===== src/Viewer/Session/Invariant.antt =====
-- What a session keeps bounded, and what is true of one that has stopped; and that the smallest steps
-- keep it.
pub mod Signals
pub mod Attempts
pub mod Direct
pub mod Ice
pub mod Relayed
pub mod Messages
pub mod Runs
use native.Mathlib.Nat.{one-le-pow}
use laptop_as_a_second_monit.Common.{
  ℕ, zero, suc, ◌+◌, ◌-◌, ◌*◌, ◌^◌, ◌≤◌, ◌<◌, ◌≡◌, refl, Bool, true, false, ◌&&◌, ◌||◌, not, Option,
  none, some, List, [], ◌∷◌, ◌++◌, Str, codes, length, ltb, leb, if◌then◌else◌, arith, min,
  length-append, Bool-cases, Option-cases, inl, inr,
}
use laptop_as_a_second_monit.Protocol.Message.{ClientMessage}
use laptop_as_a_second_monit.Viewer.Session.State.{
  Phase, Connection, Ready, opening, ready, gone, Socket, Peer, Candidate, ReceiverEvent, Retry,
  to_start, to_rejoin, Deadline, Session, Effect, Input, Outcome, ◌>>>◌, emit, event_ring,
}
use laptop_as_a_second_monit.Viewer.Session.State.Methods.{
  phase, note, shift_beyond, mark, reset_peer, retry_delay, schedule_retry, close_socket, stop,
  is_open, gone_socket, send,
}

abbrev pub IsPatient : Option Retry → Type 0
IsPatient none = Unit
IsPatient (some (to_start d)) = (500 ≤ d) × (d ≤ 10000)
IsPatient (some (to_rejoin d)) = d ≡ 3000

abbrev pub is_gone_ready : Ready → Bool
is_gone_ready gone = true
is_gone_ready _ = false

abbrev pub is_gone : Option Socket → Bool
is_gone none = true
is_gone (some w) = is_gone_ready w.ready

-- Without a peer connection nothing waits for one; a session that has stopped has no connection, no
-- timer and no socket that is open or will be.
pub record Good (events : List ReceiverEvent) (pending : List Candidate) (timer : Option Retry)
    (stopped : Bool) (peer : Option Peer) (deadline : Option Deadline) (stats : Bool)
    (heartbeat : Option ℕ) (socket : Option Socket) : Type 0 where
  pub ring : length events ≤ event_ring
  pub waiting : length pending ≤ 128
  pub patience : IsPatient timer
  pub orphan : peer ≡ none → (pending ≡ []) × (deadline ≡ none) × (stats ≡ false)
  pub at_rest :
      stopped ≡ true → (peer ≡ none) × (timer ≡ none) × (heartbeat ≡ none) × (is_gone socket ≡ true)

abbrev pub Inv : Session → Type 0
Inv s =
    Good s.events s.pending s.retry_timer s.stopped s.peer s.deadline s.stats_timer
      s.heartbeat_timer s.socket

-- The bounds hold, and the session has stopped or not.
abbrev pub At : Bool → Session → Type 0
At b s = Inv s × (s.stopped ≡ b)

pub then-At :
    {b c : Bool} (o : Outcome) (f : Session → Outcome)
    → At b o.0
    → ((s : Session) → At b s → At c (f s).0)
    → At c (o >>> f).0
unfolding ◌>>>◌
then-At o f h k = k o.0 h

pub if-At :
    {b : Bool} (c : Bool) (o p : Outcome)
    → (c ≡ true → At b o.0)
    → (c ≡ false → At b p.0)
    → At b (if c then o else p).0
if-At true o p h k = h refl
if-At false o p h k = k refl

pub if-Inv :
    (c : Bool) (o p : Outcome)
    → (c ≡ true → Inv o.0)
    → (c ≡ false → Inv p.0)
    → Inv (if c then o else p).0
if-Inv true o p h k = h refl
if-Inv false o p h k = k refl

pub then-Inv :
    {b : Bool} (o : Outcome) (f : Session → Outcome)
    → At b o.0
    → ((s : Session) → At b s → Inv (f s).0)
    → Inv (o >>> f).0
unfolding ◌>>>◌
then-Inv o f h k = k o.0 h

length-shift_beyond :
    (n : ℕ) (xs : List ReceiverEvent) → length xs ≤ suc n → length (shift_beyond n xs) ≤ n
length-shift_beyond n [] h = omega arith
length-shift_beyond n (x ∷ xs) h = ground arith

pub note-At :
    {b : Bool} (input : Input) (text : Str) (s : Session) → At b s → At b (note input text s).0
unfolding note
note-At input text s (g, e) = (
  record {
    ring =
        length-shift_beyond event_ring (s.events ++ _ ∷ [])
          (omega (arith, length-append s.events (_ ∷ []), g.ring));
    waiting = g.waiting;
    patience = g.patience;
    orphan = g.orphan;
    at_rest = g.at_rest;
  },
  e,
)

pub phase-At : {b : Bool} (p : Phase) (s : Session) → At b s → At b (phase p s).0
unfolding phase
phase-At p s h = ground arith

pub mark-At :
    {b : Bool} (input : Input) (name : Str) (s : Session) → At b s → At b (mark input name s).0
unfolding mark
mark-At input name s h = h

pub send-At : {b : Bool} (m : Str → ClientMessage) (s : Session) → At b s → At b (send m s).0
unfolding send
send-At m s h = h

pub reset_peer-At : {b : Bool} (s : Session) → At b s → At b (reset_peer s).0
unfolding reset_peer
reset_peer-At s (g, e) = (
  record {
    ring = g.ring;
    waiting = omega arith;
    patience = g.patience;
    orphan = λ k. (refl, refl, refl);
    at_rest = λ k. let (_, timer, beat, shut) = g.at_rest k in (refl, timer, beat, shut);
  },
  e,
)

-- A timer may be set while the session runs.
pub with_timer :
    (t : Retry) (n : ℕ) (s : Session)
    → IsPatient (some t)
    → At false s
    → At false (record s { retry = n; retry_timer = some t })
with_timer t n s p (g, e) = (
  record { ring = g.ring; waiting = g.waiting; patience = p; orphan = g.orphan; at_rest = λ k. cc },
  e,
)

pub schedule_retry-At : (s : Session) → At false s → At false (schedule_retry s).0
unfolding schedule_retry
schedule_retry-At s h =
    let some_power : 0 < 2 ^ min s.retry 5 = one-le-pow (min s.retry 5) 2 (omega arith) in
    with_timer (to_start (retry_delay s.retry)) (s.retry + 1) s (omega arith, omega arith) h

pub gone_socket-is_gone : (w : Option Socket) → is_gone (gone_socket w) ≡ true
gone_socket-is_gone none = refl
gone_socket-is_gone (some w) = refl

pub close_socket-At : {b : Bool} (s : Session) → At b s → At b (close_socket s).0
unfolding close_socket
close_socket-At s (g, e) = (
  record {
    ring = g.ring;
    waiting = g.waiting;
    patience = g.patience;
    orphan = g.orphan;
    at_rest = λ k.
        let (peer, timer, beat, _) = g.at_rest k in
        (peer, timer, beat, gone_socket-is_gone s.socket);
  },
  e,
)

pub stop-At : {b : Bool} (s : Session) → At b s → At true (stop s).0
unfolding stop ◌>>>◌ reset_peer close_socket
stop-At s (g, e) = (
  record {
    ring = g.ring;
    waiting = omega arith;
    patience = tt;
    orphan = λ k. (refl, refl, refl);
    at_rest = λ k. (refl, refl, refl, gone_socket-is_gone s.socket);
  },
  refl,
)

-- A timer is over.
pub without_timer : {b : Bool} (s : Session) → At b s → At b (record s { retry_timer = none })
without_timer s (g, e) = (
  record {
    ring = g.ring;
    waiting = g.waiting;
    patience = tt;
    orphan = g.orphan;
    at_rest = λ k. let (peer, _, beat, shut) = g.at_rest k in (peer, refl, beat, shut);
  },
  e,
)

pub without_deadline : {b : Bool} (s : Session) → At b s → At b (record s { deadline = none })
without_deadline s (g, e) = (
  record {
    ring = g.ring;
    waiting = g.waiting;
    patience = g.patience;
    orphan = λ k. let (pending, _, stats) = g.orphan k in (pending, refl, stats);
    at_rest = g.at_rest;
  },
  e,
)
