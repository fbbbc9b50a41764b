-- ===== src/Viewer/Session/Direct/Handlers.antt =====
-- The handlers of the peer connection of viewer/src/session.ts, and its deadline.
use laptop_as_a_second_monit.Common.{
  ℕ, ◌-◌, Bool, true, false, ◌&&◌, ◌||◌, not, Option, none, some, List, [], ◌∷◌, ◌++◌, Str, codes,
  str_eq, ◌==◌, if◌then◌else◌,
}
use laptop_as_a_second_monit.Protocol.Message.{relay, ice}
use laptop_as_a_second_monit.Viewer.Session.State.{
  busy, connected, Connection, fresh, connecting, up, disconnected, failed, closed, Peer, Deadline,
  for_peer, for_return, Stages, Session, Effect, show_status, show_error, connection_stats, video,
  Input, Outcome, ◌>>>◌, emit,
}
use laptop_as_a_second_monit.Viewer.Session.State.Methods.{
  phase, note, mark, live, reset_peer, send, is_open, is_timed,
}
use laptop_as_a_second_monit.Viewer.Session.Direct.{send_state, reconnect_direct}

abbrev pub is_peer : ℕ → Option Peer → Bool
is_peer i none = false
is_peer i (some p) = p.id == i

abbrev pub with_connection : Connection → Option Peer → Option Peer
with_connection c none = none
with_connection c (some p) = some (record p { connection = c })

abbrev pub connection_name : Connection → Str
connection_name fresh = codes "new"
connection_name connecting = codes "connecting"
connection_name up = codes "connected"
connection_name disconnected = codes "disconnected"
connection_name failed = codes "failed"
connection_name closed = codes "closed"

abbrev pub show_text : Option Str → List Effect
show_text none = []
show_text (some t) = show_status t ∷ []

-- `CONNECTION_TEXT`
abbrev pub connection_text : Connection → Option Str
connection_text fresh = none
connection_text connecting = some (codes "Connecting directly…")
connection_text up = some (codes "Connected")
connection_text disconnected = some (codes "Connection interrupted. Reconnecting…")
connection_text failed = some (codes "Direct connection failed. Retrying…")
connection_text closed = some (codes "Connection closed")

unfoldable pub show_connection : Connection → Session → Outcome
show_connection c s = (s, show_text (connection_text c))

unfoldable pub media_up : Input → Session → Outcome
media_up input s =
    emit (show_error []) (record s { deadline = none })
    >>> mark input (codes "webrtcMs")
    >>> phase connected
    >>> send_state true

abbrev pub is_disconnected : Connection → Bool
is_disconnected disconnected = true
is_disconnected _ = false

unfoldable pub leave_peer : Connection → Session → Outcome
leave_peer c s = if is_open s.socket || is_disconnected c then (s, []) else reset_peer s

-- Without media there is nothing left to keep the signaling socket optional for.
unfoldable pub media_down : Connection → Session → Outcome
media_down c s = phase busy s >>> send_state false >>> leave_peer c

-- What a change of the connection's state leads to.
unfoldable pub react : Input → Str → Connection → Session → Outcome
react input ice_state fresh s = (s, [])
react input ice_state connecting s = (s, [])
react input ice_state up s = media_up input s
react input ice_state disconnected s =
    media_down disconnected s >>> (λ t. (record t { deadline = some for_return }, []))
react input ice_state failed s = media_down failed s >>> reconnect_direct input ice_state
react input ice_state closed s = media_down closed s

unfoldable pub on_connection_state : Input → ℕ → Str → Connection → Session → Outcome
on_connection_state input i ice_state c s =
    if is_peer i s.peer
    then show_connection c (record s { peer = with_connection c s.peer })
      >>> emit (connection_stats false)
      >>> note input (codes "WebRTC " ++ connection_name c)
      >>> react input ice_state c
    else (s, [])

unfoldable pub expire : Input → Str → Option Deadline → Session → Outcome
expire input ice_state none s = (s, [])
expire input ice_state (some for_return) s =
    reconnect_direct input ice_state (record s { deadline = none })
expire input ice_state (some (for_peer i)) s =
    if is_peer i s.peer && not (live s)
    then reconnect_direct input ice_state (record s { deadline = none })
    else (record s { deadline = none }, [])

-- The deadline is due.
unfoldable pub on_deadline : Input → Str → Session → Outcome
on_deadline input ice_state s = expire input ice_state s.deadline s

abbrev pub is_none_time : Option ℕ → Bool
is_none_time none = true
is_none_time (some t) = false

abbrev pub ice_checking : Input → Str → Session → Session
ice_checking input name s = record s {
  ice_started =
      if str_eq name (codes "checking") && is_none_time s.ice_started
      then some input.now
      else s.ice_started;
}

abbrev pub timed_ice : ℕ → Option ℕ → Stages → Stages
timed_ice now none stages = stages
timed_ice now (some t) stages =
    if is_timed (codes "iceDurationMs") stages.times
    then stages
    else record stages { times = stages.times ++ (codes "iceDurationMs", now - t) ∷ [] }

-- The time that ICE took, once.
abbrev pub ice_duration : Input → Session → Session
ice_duration input s = record s { stages = timed_ice input.now s.ice_started s.stages }

unfoldable pub ice_done : Input → Str → Session → Outcome
ice_done input name s =
    if str_eq name (codes "connected") || str_eq name (codes "completed")
    then mark input (codes "iceMs") (ice_duration input s)
    else (s, [])

unfoldable pub ice_lost : Input → Str → Session → Outcome
ice_lost input name s =
    if str_eq name (codes "disconnected") || str_eq name (codes "failed")
    then note input (codes "ICE " ++ name) s
    else (s, [])

unfoldable pub on_ice_state : Input → ℕ → Str → Session → Outcome
on_ice_state input i name s =
    if is_peer i s.peer
    then ice_done input name (ice_checking input name s)
      >>> ice_lost input name
      >>> emit (connection_stats false)
    else (s, [])

-- Logged once per kind.
unfoldable pub on_candidate_error : Input → Str → Session → Outcome
on_candidate_error input text s =
    if str_eq text s.last_candidate_error
    then (s, [])
    else note input text (record s { last_candidate_error = text })

abbrev pub mid_of : Option Str → Str
mid_of none = codes "0"
mid_of (some m) = m

-- `pc.onicecandidate`, with the candidate's text and `sdpMid`.
unfoldable pub on_candidate : ℕ → Option (Str × Option Str) → Session → Outcome
on_candidate i none s = (s, [])
on_candidate i (some (text, mid)) s =
    if is_peer i s.peer then send (λ g. relay (ice g text (mid_of mid))) s else (s, [])

unfoldable pub on_track : ℕ → Session → Outcome
on_track i s = if is_peer i s.peer then (s, video i ∷ []) else (s, [])
