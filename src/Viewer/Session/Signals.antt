-- ===== src/Viewer/Session/Signals.antt =====
-- The signaling side of viewer/src/session.ts: `start`, `pair`, `open` with the handlers of the socket,
-- the heartbeat and the retry timer.
use laptop_as_a_second_monit.Common.{
  ℕ, ◌+◌, ◌-◌, Bool, true, false, ◌&&◌, ◌||◌, not, Option, none, some, [], ◌∷◌, ◌++◌, Str, codes,
  str_eq, ltb, ◌==◌, if◌then◌else◌,
}
use laptop_as_a_second_monit.Protocol.Message.{
  ClientMessage, auth_host, auth_viewer, PairResponse, paired as pair_answer, pair_error,
}
use laptop_as_a_second_monit.Viewer.Session.State.{
  Credentials, by_code, by_token, as_host, pairing, busy, Ready, opening, ready, Socket, Retry,
  to_start, to_rejoin, Stages, Session, show_status, show_error, ended, thrown, connection_stats,
  request_pair, connect, transmit, ping, Input, Outcome, ◌>>>◌, emit,
}
use laptop_as_a_second_monit.Viewer.Session.State.Methods.{
  gone_socket, phase, note, live, reset_peer, schedule_retry, close_socket, stop, is_open, includes,
  is_truthy, is_host,
}

abbrev pub is_filled : Option Str → Bool
is_filled none = false
is_filled (some t) = is_truthy t

-- `ERROR_TEXT[code] ?? …`
unfoldable pub error_text : Str → Str
error_text e =
    if str_eq e (codes "invalid-code")
    then codes
        "That code was not recognized or has expired. Check the code shown in Laptop Monitor and try again."
    else if str_eq e (codes "rate-limit")
    then codes "Too many attempts. Wait a minute, then enter the current code."
    else if str_eq e (codes "viewer-occupied")
    then codes "Another receiver is already connected to this Laptop Monitor."
    else if str_eq e (codes "authentication")
    then codes "This session is no longer valid. Enter the current code from Laptop Monitor."
    else if str_eq e (codes "malformed") || str_eq e (codes "role")
    then codes "The signaling server rejected a message."
    else if str_eq e (codes "version")
    then codes "This receiver and the signaling server speak different protocol versions."
    else codes "Pairing failed: " ++ e

unfoldable pub open_socket : Option Str → Session → Outcome
open_socket ticket s = (
  record s {
    socket = some (record { id = s.next_id; ready = opening });
    next_id = s.next_id + 1;
    features = [];
  },
  connect s.next_id s.room ticket
      ∷ (if live s then [] else show_status (codes "Connecting to signaling…") ∷ []),
)

unfoldable pub pair : Str → Session → Outcome
pair code s =
    (s, show_status (codes "Checking the pairing code…") ∷ request_pair code s.started ∷ [])

abbrev pub code_of : Credentials → Option Str
code_of (by_code code) = some code
code_of (by_token room token) = none
code_of (as_host room secret code) = none

unfoldable pub pair_or_throw : Option Str → Session → Outcome
pair_or_throw none s = (s, thrown (codes "Enter the pairing code shown in Laptop Monitor.") ∷ [])
pair_or_throw (some code) s = phase pairing s >>> pair code

-- A token outlives the code it was obtained with, so resuming prefers it over the code.
unfoldable pub rejoin : Session → Outcome
rejoin s =
    if is_filled s.room && (is_filled s.token || is_host s.credentials)
    then (if live s then (s, []) else phase busy s) >>> open_socket none
    else pair_or_throw (code_of s.credentials) s

abbrev pub connecting_stages : Stages
connecting_stages = record { label = some (codes "Connecting"); times = [] }

abbrev pub restart : ℕ → Session → Outcome
restart now s =
    let t = record s { started = now } in
    if live s
    then (t, [])
    else (record t { stages = connecting_stages }, connection_stats true ∷ [])

unfoldable pub start : Input → Session → Outcome
start input s =
    if s.stopped
    then (s, [])
    else restart input.now s >>> (λ t.
      if t.reachable
      then rejoin t
      else (t, thrown (codes "Use HTTPS signaling (HTTP is allowed only on localhost).") ∷ []))

unfoldable pub pair_failed : Str → Session → Outcome
pair_failed e s =
    if str_eq e (codes "host-unavailable")
    then emit (show_status (codes "Laptop Monitor is not running on the host yet. Waiting…")) s
      >>> schedule_retry
    else emit (show_error (error_text e)) s >>> stop >>> emit (ended e)

-- The answer to a request for pairing, `none` where the request failed.
unfoldable pub take_answer : Option PairResponse → Session → Outcome
take_answer none s =
    emit (show_error (codes "Signaling connection failed. Check the server URL and network.")) s
    >>> schedule_retry
take_answer (some (pair_error e)) s = pair_failed e s
take_answer (some (pair_answer room ticket)) s =
    phase busy (record s { room = some room }) >>> open_socket (some ticket)

-- An answer to an earlier attempt is dropped.
unfoldable pub on_pair_response : ℕ → Option PairResponse → Session → Outcome
on_pair_response attempt answer s =
    if s.stopped || not (attempt == s.started) then (s, []) else take_answer answer s

abbrev pub is_current : ℕ → Option Socket → Bool
is_current i none = false
is_current i (some w) = w.id == i

-- The generation whose media connection is still up.
abbrev pub held_generation : Session → Option Str
held_generation s = if live s && is_truthy s.generation then some s.generation else none

abbrev pub auth_message : Option Str → Session → ClientMessage
auth_message ticket s = elim s.credentials [
  | as_host room secret code ↦ auth_host secret (held_generation s)
  | by_code code ↦
      if is_filled ticket
      then auth_viewer ticket none (held_generation s)
      else auth_viewer none s.token (held_generation s)
  | by_token room token ↦
      if is_filled ticket
      then auth_viewer ticket none (held_generation s)
      else auth_viewer none s.token (held_generation s)
]

-- A socket that has been closed does not open.
abbrev pub is_opening : Ready → Bool
is_opening opening = true
is_opening _ = false

unfoldable pub open_current : Socket → Option Str → Session → Outcome
open_current w ticket s =
    if is_opening w.ready
    then (
      record s { socket = some (record w { ready = ready }) },
      transmit w.id (auth_message ticket s) ∷ [],
    )
    else (s, [])

unfoldable pub open_one : ℕ → Option Str → Option Socket → Session → Outcome
open_one i ticket none s = (s, transmit i (auth_message ticket s) ∷ [])
open_one i ticket (some w) s =
    if w.id == i then open_current w ticket s else (s, transmit i (auth_message ticket s) ∷ [])

-- `ws.onopen`, with the ticket that the socket was opened for. It does not ask whether the socket is
-- still the session's.
unfoldable pub on_open : ℕ → Option Str → Session → Outcome
on_open i ticket s = open_one i ticket s.socket s

unfoldable pub on_error : Session → Outcome
on_error s =
    if live s
    then (s, [])
    else emit (show_error (codes "Signaling connection failed. Check the server URL and network."))
        s

unfoldable pub signaling_lost : Session → Outcome
signaling_lost s =
    reset_peer s
    >>> phase busy
    >>> emit (show_status (codes "Signaling disconnected. Reconnecting…"))

-- `ws.onclose`; `details` is the formatted code, reason and duration.
unfoldable pub on_close : Input → ℕ → Str → Session → Outcome
on_close input i details s =
    if not (is_current i s.socket) || s.stopped
    then (s, [])
    else if live s
    then note input (codes "signaling closed (" ++ (details ++ codes "); media kept"))
        (record s { socket = gone_socket s.socket; heartbeat_timer = none })
      >>> schedule_retry
    else note input (codes "signaling closed (" ++ (details ++ codes ")"))
        (record s { socket = gone_socket s.socket; heartbeat_timer = none })
      >>> signaling_lost
      >>> schedule_retry

abbrev pub socket_id : Option Socket → Option ℕ
socket_id none = none
socket_id (some w) = some w.id

unfoldable pub start_heartbeat : Input → Session → Outcome
start_heartbeat input s =
    if includes (codes "heartbeat") s.features
    then (record s { last_heard = input.now; heartbeat_timer = socket_id s.socket }, [])
    else (record s { heartbeat_timer = none }, [])

unfoldable pub beat : Input → Option ℕ → Session → Outcome
beat input none s = (s, [])
beat input (some i) s =
    if not (is_current i s.socket && is_open s.socket)
    then (s, [])
    else if ltb 50000 (input.now - s.last_heard)
    then note input (codes "signaling heartbeat unanswered; reconnecting") s >>> close_socket
    else (s, ping i ∷ [])

-- The heartbeat's timer is due.
unfoldable pub on_heartbeat : Input → Session → Outcome
on_heartbeat input s = beat input s.heartbeat_timer s

unfoldable pub close_or_start : Input → Session → Outcome
close_or_start input s = if is_open s.socket then close_socket s else start input s

unfoldable pub retry_with : Input → Option Retry → Session → Outcome
retry_with input none s = (s, [])
retry_with input (some (to_start delay)) s = start input (record s { retry_timer = none })
retry_with input (some (to_rejoin delay)) s =
    reset_peer (record s { retry_timer = none }) >>> close_or_start input

-- The retry timer is due.
unfoldable pub on_retry : Input → Session → Outcome
on_retry input s = retry_with input s.retry_timer s
