-- ===== src/Viewer/Session/State/Methods.antt =====
-- The smallest methods of a `Session` of viewer/src/session.ts, and its constructor.
use laptop_as_a_second_monit.Common.{
  ℕ, ◌>>>◌, ◌+◌, ◌-◌, ◌*◌, ◌^◌, Bool, true, false, Option, none, some, List, [], ◌∷◌, ◌++◌, Str,
  str_eq, length, take, any, ltb, if◌then◌else◌, min,
}
use laptop_as_a_second_monit.Protocol.Message.{ClientMessage}
use laptop_as_a_second_monit.Viewer.Session.State.{
  Credentials, by_code, by_token, as_host, Phase, pairing, busy, connected, Connection, up, Ready,
  ready, gone, Socket, Peer, ReceiverEvent, to_start, Stages, Session, Effect, show_phase,
  connection_stats, transmit, disconnect, close_peer, stop_tracks, Input, Outcome, event_ring,
}

abbrev pub same_phase : Phase → Phase → Bool
same_phase pairing pairing = true
same_phase busy busy = true
same_phase connected connected = true
same_phase _ _ = false

abbrev pub is_phase : Phase → Option Phase → Bool
is_phase p none = false
is_phase p (some q) = same_phase p q

unfoldable pub phase : Phase → Session → Outcome
phase p s =
    if is_phase p s.last_phase
    then (s, [])
    else (record s { last_phase = some p }, show_phase p ∷ [])

-- `if (list.length > n) list.shift()`
abbrev pub shift_beyond {ℓ} : {A : Type ℓ} → ℕ → List A → List A
shift_beyond n [] = []
shift_beyond n (x ∷ xs) = if ltb n (length (x ∷ xs)) then xs else x ∷ xs

unfoldable pub note : Input → Str → Session → Outcome
note input text s =
    let e : ReceiverEvent = record {
      id = s.event_id + 1 + input.wall * 1000;
      at = input.wall;
      text = take 180 text;
    } in
    (
      record s { event_id = s.event_id + 1; events = shift_beyond event_ring (s.events ++ e ∷ []) },
      [],
    )

abbrev pub is_timed : Str → List (Str × ℕ) → Bool
is_timed name = any (λ t. str_eq name t.0)

unfoldable pub mark : Input → Str → Session → Outcome
mark input name s =
    let times = s.stages.times in
    let t : Stages = record (s.stages) {
      times = if is_timed name times then times else times ++ (name, input.now - s.started) ∷ [];
    } in
    (record s { stages = t }, connection_stats false ∷ [])

abbrev pub is_up : Connection → Bool
is_up up = true
is_up _ = false

-- `live()`: a working media connection.
abbrev pub is_live : Option Peer → Bool
is_live none = false
is_live (some p) = is_up p.connection

abbrev pub live : Session → Bool
live s = is_live s.peer

abbrev pub closing : Option Peer → List Effect
closing none = []
closing (some p) = close_peer p.id ∷ []

unfoldable pub reset_peer : Session → Outcome
reset_peer s = (
  record s { deadline = none; stats_timer = false; peer = none; channel = none; pending = [] },
  closing s.peer ++ connection_stats true ∷ [],
)

-- `scheduleRetry`: half a second, twice as long each time, and at most ten seconds.
abbrev pub retry_delay : ℕ → ℕ
retry_delay n = min 10000 (500 * 2 ^ min n 5)

unfoldable pub schedule_retry : Session → Outcome
schedule_retry s =
    (record s { retry = s.retry + 1; retry_timer = some (to_start (retry_delay s.retry)) }, [])

abbrev pub gone_socket : Option Socket → Option Socket
gone_socket none = none
gone_socket (some w) = some (record w { ready = gone })

abbrev pub disconnecting : Option Socket → List Effect
disconnecting none = []
disconnecting (some w) = disconnect w.id ∷ []

-- `this.ws?.close()`: the socket is open no longer.
unfoldable pub close_socket : Session → Outcome
close_socket s = (record s { socket = gone_socket s.socket }, disconnecting s.socket)

unfoldable pub stop : Session → Outcome
stop s =
    (record s { stopped = true; retry_timer = none; heartbeat_timer = none }, [])
    >>> reset_peer
    >>> close_socket
    >>> (λ t. (t, if t.stream then stop_tracks ∷ [] else []))

abbrev pub is_ready : Ready → Bool
is_ready ready = true
is_ready _ = false

abbrev pub is_open : Option Socket → Bool
is_open none = false
is_open (some w) = is_ready w.ready

abbrev pub transmission : ClientMessage → Option Socket → List Effect
transmission m none = []
transmission m (some w) = if is_ready w.ready then transmit w.id m ∷ [] else []

-- A message on the current socket, if it is open.
unfoldable pub send : (Str → ClientMessage) → Session → Outcome
send m s = (s, transmission (m s.generation) s.socket)

abbrev pub includes : Str → List Str → Bool
includes t = any (str_eq t)

abbrev pub is_truthy : Str → Bool
is_truthy [] = false
is_truthy (_ ∷ _) = true

abbrev pub is_host : Credentials → Bool
is_host (as_host room secret code) = true
is_host _ = false

abbrev pub first_room : Credentials → Option Str
first_room (by_code code) = none
first_room (by_token room token) = some room
first_room (as_host room secret code) = some room

abbrev pub first_token : Credentials → Option Str
first_token (by_token room token) = some token
first_token _ = none

-- The constructor, at the time `now`.
abbrev pub new_session : Credentials → (reachable stream : Bool) (now : ℕ) → Session
new_session credentials reachable stream now = record {
  credentials = credentials;
  reachable = reachable;
  stream = stream;
  socket = none;
  peer = none;
  channel = none;
  generation = [];
  pending = [];
  stopped = false;
  retry = 0;
  retry_timer = none;
  deadline = none;
  stats_timer = false;
  heartbeat_timer = none;
  last_heard = 0;
  features = [];
  started = now;
  stages = record { label = none; times = [] };
  ice_started = none;
  room = first_room credentials;
  token = first_token credentials;
  last_phase = none;
  events = [];
  event_id = 0;
  last_candidate_error = [];
  next_id = 0;
}
