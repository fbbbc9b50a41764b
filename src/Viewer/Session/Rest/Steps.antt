-- ===== src/Viewer/Session/Rest/Steps.antt =====
-- Every step of a session that rests leaves it at rest, and does nothing.
use laptop_as_a_second_monit.Common.{
  ℕ, ◌≡◌, refl, Bool, true, false, ◌&&◌, ◌||◌, not, Option, none, some, Str, codes, str_eq, ◌==◌,
  leb, ltb, length, arith, Bool-cases, Option-cases, inl, inr,
}
use laptop_as_a_second_monit.Protocol.Json.{
  Json, Members, Number, get, null, boolean, number, string, array, object,
}
use laptop_as_a_second_monit.Protocol.Message.{PairResponse}
use laptop_as_a_second_monit.Viewer.Session.State.{
  Session, Channel, probe_reply, Socket, Effect, Input,
}
use laptop_as_a_second_monit.Viewer.Session.State.Methods.{mark, note}
use laptop_as_a_second_monit.Viewer.Session.Signals.{
  start, on_pair_response, on_open, open_one, open_current, on_error, on_close, is_opening,
  is_current, on_heartbeat, beat, on_retry, retry_with,
}
use laptop_as_a_second_monit.Viewer.Session.Direct.Handlers.{
  on_connection_state, on_deadline, expire, on_ice_state, on_candidate_error, on_candidate,
  on_track,
}
use laptop_as_a_second_monit.Viewer.Session.Direct.HostChannel.{
  on_sample, on_channel_message, on_probe, send_to_host, channel_effects, request_or_diagnostics,
  read_probe, number_of, to_channel,
}
use laptop_as_a_second_monit.Viewer.Session.Messages.{Frame, pong, served, garbled, on_message}
use laptop_as_a_second_monit.Viewer.Session.Run.{
  Event, starts, stops, presents, retries, beats, fails, pairs, opens, closes, receives, connects,
  expires, checks, misses, finds, plays, samples, channels, hears, probes, step,
}
use laptop_as_a_second_monit.Viewer.Session.Rest.{IsResting, is_active, AllQuiet, Rests, stop-Rests}

open_current-Rests :
    (w : Socket) (ticket : Option Str) (s : Session)
    → s.socket ≡ some w
    → IsResting s
    → Rests (open_current w ticket s)
unfolding open_current
open_current-Rests w ticket s e r =
    let shut : is_opening w.ready ≡ false = ground (arith, r.socket) in simp shut (r, tt)

open_one-Rests :
    (i : ℕ) (ticket : Option Str) (o : Option Socket) (s : Session)
    → s.socket ≡ o
    → IsResting s
    → Rests (open_one i ticket o s)
unfolding open_one
open_one-Rests i ticket none s e r = (r, (refl, tt))
open_one-Rests i ticket (some w) s e r = elim (Bool-cases (w.id == i)) [
  | inl k ↦ simp k (open_current-Rests w ticket s e r)
  | inr k ↦ simp k (r, (refl, tt))
]

error-Rests : (s : Session) → IsResting s → Rests (on_error s)
unfolding on_error
error-Rests s r = simp (r.peer) (r, (refl, tt))

close-Rests :
    (input : Input) (i : ℕ) (details : Str) (s : Session)
    → IsResting s
    → Rests (on_close input i details s)
unfolding on_close
close-Rests input i details s r =
    let idle : (not (is_current i s.socket) || s.stopped) ≡ true = ground (arith, r.stopped) in
    simp idle (r, tt)

pair-Rests :
    (attempt : ℕ) (answer : Option PairResponse) (s : Session)
    → IsResting s
    → Rests (on_pair_response attempt answer s)
unfolding on_pair_response
pair-Rests attempt answer s r = simp (r.stopped) (r, tt)

IsResting-heard :
    (input : Input) (s : Session) → IsResting s → IsResting (record s { last_heard = input.now })
IsResting-heard input s r = record {
  stopped = r.stopped;
  peer = r.peer;
  retry = r.retry;
  heartbeat = r.heartbeat;
  deadline = r.deadline;
  stats = r.stats;
  socket = r.socket;
}

receive-Rests :
    (input : Input) (i : ℕ) (why : Str) (frame : Frame) (s : Session)
    → IsResting s
    → Rests (on_message input i why frame s)
unfolding on_message
receive-Rests input i why pong s r = (IsResting-heard input s r, tt)
receive-Rests input i why (served m) s r =
    let idle : (not (is_current i s.socket) || s.stopped) ≡ true = ground (arith, r.stopped) in
    simp idle (IsResting-heard input s r, tt)
receive-Rests input i why garbled s r =
    let idle : (not (is_current i s.socket) || s.stopped) ≡ true = ground (arith, r.stopped) in
    simp idle (IsResting-heard input s r, tt)

candidate-Rests :
    (i : ℕ) (c : Option (Str × Option Str)) (s : Session) → IsResting s → Rests (on_candidate i c s)
unfolding on_candidate
candidate-Rests i none s r = (r, tt)
candidate-Rests i (some c) s r = simp (r.peer) (r, tt)

pub note-Rests :
    (input : Input) (text : Str) (s : Session) → IsResting s → Rests (note input text s)
unfolding note
note-Rests input text s r = (
  record {
    stopped = r.stopped;
    peer = r.peer;
    retry = r.retry;
    heartbeat = r.heartbeat;
    deadline = r.deadline;
    stats = r.stats;
    socket = r.socket;
  },
  tt,
)

miss-Rests :
    (input : Input) (text : Str) (s : Session)
    → IsResting s
    → Rests (on_candidate_error input text s)
unfolding on_candidate_error
miss-Rests input text s r = elim (Bool-cases (str_eq text s.last_candidate_error)) [
  | inl e ↦ simp e (r, tt)
  | inr e ↦ simp e (
      note-Rests input text (record s { last_candidate_error = text })
        (record {
          stopped = r.stopped;
          peer = r.peer;
          retry = r.retry;
          heartbeat = r.heartbeat;
          deadline = r.deadline;
          stats = r.stats;
          socket = r.socket;
        }))
]

mark-Rests : (input : Input) (name : Str) (s : Session) → IsResting s → Rests (mark input name s)
unfolding mark
mark-Rests input name s r = (
  record {
    stopped = r.stopped;
    peer = r.peer;
    retry = r.retry;
    heartbeat = r.heartbeat;
    deadline = r.deadline;
    stats = r.stats;
    socket = r.socket;
  },
  (refl, tt),
)

-- A probe that the host asks for is passed to the page.
probe-quiet : (m : Members) (e : Effect) → read_probe m ≡ some e → is_active e ≡ false
unfolding read_probe
probe-quiet m e h = elim (Option-cases (number_of (get (codes "id") m))) [
  | inl o ↦ absurd (ground arith)
  | inr (id, o) ↦ elim (Option-cases (number_of (get (codes "rtp") m))) [
    | inl q ↦ absurd (ground arith)
    | inr (rtp, q) ↦ ground arith
  ]
]

request_quiet :
    (o : Option Effect)
    → ((e : Effect) → o ≡ some e → is_active e ≡ false)
    → AllQuiet (request_or_diagnostics o)
request_quiet none h = (refl, tt)
request_quiet (some e) h = (h e refl, tt)

effects_quiet : (v : Json) → AllQuiet (channel_effects v)
effects_quiet null = tt
effects_quiet (object m) = request_quiet (read_probe m) (probe-quiet m)
effects_quiet (boolean b) = (refl, tt)
effects_quiet (number n) = (refl, tt)
effects_quiet (string t) = (refl, tt)
effects_quiet (array xs) = (refl, tt)

hear-Rests :
    (json_parse : Str → Option Json) (raw : Str) (s : Session)
    → IsResting s
    → Rests (on_channel_message json_parse raw s)
unfolding on_channel_message
hear-Rests json_parse raw s r = elim (Bool-cases (leb 8192 (length raw))) [
  | inl k ↦ simp k (r, tt)
  | inr k ↦ elim (Option-cases (json_parse raw)) [
    | inl o ↦ simp (k, o) (r, tt)
    | inr (v, o) ↦ simp (k, o) (r, effects_quiet v)
  ]
]

channel_quiet :
    (id : Number) (is_found : Bool) (o : Option Channel)
    → AllQuiet (to_channel (probe_reply id is_found) o)
channel_quiet id is_found none = tt
channel_quiet id is_found (some c) = elim (Bool-cases (c.is_open && ltb c.buffered 16384)) [
  | inl k ↦ simp k (refl, tt)
  | inr k ↦ simp k tt
]

pub step-Rests :
    (json_parse : Str → Option Json) (input : Input) (e : Event) (s : Session)
    → IsResting s
    → Rests (step json_parse input e s)
unfolding step start on_heartbeat beat on_retry retry_with on_open on_connection_state on_deadline
    expire on_ice_state on_track on_sample on_probe send_to_host
step-Rests json_parse input starts s r = simp (r.stopped) (r, tt)
step-Rests json_parse input stops s r = stop-Rests s
step-Rests json_parse input presents s r = mark-Rests input (codes "firstVideoMs") s r
step-Rests json_parse input retries s r = simp (r.retry) (r, tt)
step-Rests json_parse input beats s r = simp (r.heartbeat) (r, tt)
step-Rests json_parse input fails s r = error-Rests s r
step-Rests json_parse input (pairs attempt answer) s r = pair-Rests attempt answer s r
step-Rests json_parse input (opens i ticket) s r = open_one-Rests i ticket s.socket s refl r
step-Rests json_parse input (closes i details) s r = close-Rests input i details s r
step-Rests json_parse input (receives i why frame) s r = receive-Rests input i why frame s r
step-Rests json_parse input (connects i ice_state c) s r = simp (r.peer) (r, tt)
step-Rests json_parse input (expires ice_state) s r = simp (r.deadline) (r, tt)
step-Rests json_parse input (checks i ice_state) s r = simp (r.peer) (r, tt)
step-Rests json_parse input (misses text) s r = miss-Rests input text s r
step-Rests json_parse input (finds i c) s r = candidate-Rests i c s r
step-Rests json_parse input (plays i) s r = simp (r.peer) (r, tt)
step-Rests json_parse input (samples i) s r = simp (r.peer) (r, tt)
step-Rests json_parse input (channels c) s r = (
  record {
    stopped = r.stopped;
    peer = r.peer;
    retry = r.retry;
    heartbeat = r.heartbeat;
    deadline = r.deadline;
    stats = r.stats;
    socket = r.socket;
  },
  tt,
)
step-Rests json_parse input (hears raw) s r = hear-Rests json_parse raw s r
step-Rests json_parse input (probes id is_found) s r = (r, channel_quiet id is_found s.channel)
