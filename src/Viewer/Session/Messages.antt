-- ===== src/Viewer/Session/Messages.antt =====
-- `message` of viewer/src/session.ts: what each message of the signaling worker leads to, and `onmessage`
-- around it. A message is handled as one step, with what the browser answers as input.
use laptop_as_a_second_monit.Common.{
  ℕ, Bool, true, false, ◌&&◌, ◌||◌, not, Option, none, some, List, [], ◌∷◌, ◌++◌, Str, codes,
  str_eq, ltb, length, if◌then◌else◌,
}
use laptop_as_a_second_monit.Protocol.Message.{
  code_lifetime_ms, Role, host, viewer, SdpType, offer, answer, Relay, description, ice,
  CodeRegistration, register_codes, ServerMessage, relayed, ready, authenticated, peer_left, kicked,
  error,
}
use laptop_as_a_second_monit.Viewer.Session.State.{
  Credentials, by_code, by_token, as_host, busy, Socket, Peer, Candidate, Session, Effect,
  show_status, show_error, ended, paired, set_remote, add_candidate, Input, Outcome, ◌>>>◌, emit,
  transmit,
}
use laptop_as_a_second_monit.Viewer.Session.State.Methods.{
  phase, note, mark, live, reset_peer, close_socket, stop, is_truthy, is_host,
}
use laptop_as_a_second_monit.Viewer.Session.Signals.{
  error_text, is_current, is_filled, start_heartbeat,
}
use laptop_as_a_second_monit.Viewer.Session.Direct.{
  Attempt, fine, throw, ◌>>?◌, create_peer, send_description, send_state,
}

abbrev pub max_pending : ℕ
max_pending = 128

abbrev pub has_code : Credentials → Bool
has_code (by_code code) = true
has_code (by_token room token) = false
has_code (as_host room secret code) = true

unfoldable pub end_session : Str → Session → Outcome
end_session reason s = stop s >>> emit (ended reason)

unfoldable pub signaling_error : Str → Session → Outcome
signaling_error e s =
    if str_eq e (codes "host-unavailable")
    then emit (show_status (codes "Laptop Monitor is not running on the host yet. Waiting…")) s
      >>> close_socket
    else if str_eq e (codes "authentication") && (is_filled s.token && has_code s.credentials)
    then close_socket (record s { token = none; room = none })
    else emit (show_error (error_text e)) s >>> end_session e

-- A room that is the empty text does not replace the one that is known.
abbrev pub better_room : Option Str → Option Str → Option Str
better_room old none = old
better_room old (some t) = if is_truthy t then some t else old

unfoldable pub keep_token : Role → Option Str → Option Str → Session → Outcome
keep_token host token room s = (s, [])
keep_token viewer none room s = (s, [])
keep_token viewer (some t) room s =
    if is_truthy t
    then (
      record s { token = some t; room = better_room s.room room },
      paired (better_room s.room room) t ∷ [],
    )
    else (s, [])

abbrev pub registration : Str → CodeRegistration
registration hash = record { hash = hash; ttl_ms = code_lifetime_ms }

abbrev pub publication : Str → Option Socket → Credentials → List Effect
publication hash none c = []
publication hash (some w) c =
    if is_host c then transmit w.id (register_codes (registration hash ∷ [])) ∷ [] else []

-- The test host publishes its code (`this.ws?.send`).
unfoldable pub publish_code : Input → Session → Outcome
publish_code input s = (s, publication input.code_hash s.socket s.credentials)

abbrev pub waiting_text : Credentials → Str
waiting_text c =
    if is_host c
    then codes "Code published. Waiting for the receiver…"
    else codes "Paired. Waiting for the host…"

abbrev pub accept_features : List Str → Session → Outcome
accept_features features s = (record s { retry = 0; features = features }, show_error [] ∷ [])

abbrev pub report_state : Session → Outcome
report_state s =
    if live s then send_state true s else (s, show_status (waiting_text s.credentials) ∷ [])

unfoldable pub greet : Input → Role → (token room : Option Str) → List Str → Session → Outcome
greet input role token room features s =
    mark input (codes "signalingMs") s
    >>> accept_features features
    >>> start_heartbeat input
    >>> keep_token role token room
    >>> publish_code input
    >>> report_state

unfoldable pub host_left : Input → Session → Outcome
host_left input s =
    if live s
    then note input (codes "host's signaling connection dropped; media still up") s
    else reset_peer s
      >>> phase busy
      >>> emit (show_status (codes "Other laptop disconnected. Waiting for it to return…"))

unfoldable pub begin : Input → Str → Bool → Session → Attempt
begin input g resume s =
    if resume && (str_eq g s.generation && live s)
    then fine (note input (codes "signaling resumed; media connection kept") s)
    else create_peer input (record s { generation = g })

abbrev pub has_remote : Option Peer → Bool
has_remote none = false
has_remote (some p) = p.has_remote

abbrev pub is_offer : SdpType → Bool
is_offer offer = true
is_offer answer = false

-- The candidates, in order, until the browser refuses one.
unfoldable pub add_candidates : Input → ℕ → List Candidate → List Effect × Bool
add_candidates input i [] = ([], false)
add_candidates input i (c ∷ cs) =
    let (more, threw) = add_candidates input i cs in
    if input.accepts c then (add_candidate i c ∷ more, threw) else (add_candidate i c ∷ [], true)

unfoldable pub flush_pending : Input → ℕ → Session → Attempt
flush_pending input i s =
    let (sent, threw) = add_candidates input i s.pending in
    if threw then ((s, sent), true) else fine (record s { pending = [] }, sent)

abbrev pub with_remote : Peer → Option Peer
with_remote p = some (record p { has_remote = true })

unfoldable pub answer_offer : Input → SdpType → Session → Attempt
answer_offer input t s = if is_offer t then send_description input answer s else fine (s, [])

unfoldable pub describe_peer : Input → SdpType → Str → Option Peer → Session → Attempt
describe_peer input t sdp none s = throw s
describe_peer input t sdp (some p) s =
    if input.remote_ok
    then fine (
        emit (set_remote p.id t sdp) (record s { peer = with_remote p })
        >>> mark input (codes "sdpMs"))
      >>? flush_pending input p.id
      >>? answer_offer input t
    else ((s, set_remote p.id t sdp ∷ []), true)

unfoldable pub describe : Input → SdpType → Str → Session → Attempt
describe input t sdp s = describe_peer input t sdp s.peer s

-- The host started over within the same generation.
unfoldable pub renew : Input → Session → Attempt
renew input s =
    fine (note input (codes "host renegotiated; new media connection") s) >>? create_peer input

unfoldable pub on_description : Input → SdpType → Str → Session → Attempt
on_description input t sdp s =
    (if is_offer t && has_remote s.peer then renew input s else fine (s, []))
    >>? describe input t sdp

unfoldable pub on_ice_peer : Input → Candidate → Option Peer → Session → Attempt
on_ice_peer input c none s = fine (s, [])
on_ice_peer input c (some p) s =
    if p.has_remote
    then ((s, add_candidate p.id c ∷ []), not (input.accepts c))
    else if ltb (length s.pending) max_pending
    then fine (record s { pending = s.pending ++ c ∷ [] }, [])
    else fine (s, [])

unfoldable pub on_ice : Input → Candidate → Session → Attempt
on_ice input c s = on_ice_peer input c s.peer s

abbrev pub is_none_peer : Option Peer → Bool
is_none_peer none = true
is_none_peer (some p) = false

unfoldable pub on_relayed : Input → Relay → Session → Attempt
on_relayed input (description t g sdp) s =
    if not (str_eq g s.generation) || is_none_peer s.peer
    then fine (s, [])
    else on_description input t sdp s
on_relayed input (ice g c mid) s =
    if not (str_eq g s.generation) || is_none_peer s.peer
    then fine (s, [])
    else on_ice input (record { candidate = c; mid = mid }) s

unfoldable pub message : Input → ServerMessage → Session → Attempt
message input (error e) s =
    fine (note input (codes "signaling error: " ++ e) s >>> signaling_error e)
message input kicked s = fine (
    emit (show_status (codes "Disconnected by the host.")) s
    >>> emit (show_error [])
    >>> end_session (codes "kicked"))
message input (authenticated role token room features) s =
    fine (greet input role token room features s)
message input peer_left s = fine (host_left input s)
message input (ready g resume) s = begin input g resume s
message input (relayed m) s = on_relayed input m s

-- `.catch` of the chain; `why` is the error's text.
unfoldable pub caught : Input → Str → Attempt → Outcome
caught input why (o, false) = o
caught input why (o, true) =
    o
    >>> note input (codes "negotiation error: " ++ why)
    >>> emit (show_error (codes "Negotiation failed. Disconnect and reconnect to retry."))

-- A frame's data: the reply to a heartbeat, a message, or a text that `JSON.parse` rejects.
pub data Frame : Type 0 where
  pong : Frame
  served : ServerMessage → Frame
  garbled : Frame

-- `ws.onmessage`. A frame of a socket that is no longer the session's is dropped.
unfoldable pub on_message : Input → ℕ → (why : Str) → Frame → Session → Outcome
on_message input i why pong s = (record s { last_heard = input.now }, [])
on_message input i why (served m) s =
    let heard = record s { last_heard = input.now } in
    if not (is_current i s.socket) || s.stopped
    then (heard, [])
    else caught input why (message input m heard)
on_message input i why garbled s =
    let heard = record s { last_heard = input.now } in
    if not (is_current i s.socket) || s.stopped then (heard, []) else caught input why (throw heard)
