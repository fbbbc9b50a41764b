-- ===== src/Viewer/Session/Direct.antt =====
-- The peer connection of viewer/src/session.ts: `createPeer` and `reconnectDirect`. An attempt may
-- throw, which its last component says.
pub mod Handlers
pub mod HostChannel
use laptop_as_a_second_monit.Common.{
  ℕ, ◌+◌, ◌-◌, Bool, true, false, ◌&&◌, ◌||◌, not, Option, none, some, List, [], ◌∷◌, ◌++◌, Str,
  codes, str_eq, take, filter, ltb, leb, ◌==◌, length, if◌then◌else◌,
}
use laptop_as_a_second_monit.Protocol.Json.{
  Json, Members, Number, whole, null, number, object, get, is_text,
}
use laptop_as_a_second_monit.Protocol.Message.{state, relay, description, ice, SdpType, offer}
use laptop_as_a_second_monit.Viewer.Session.State.{
  busy, connected, Connection, fresh, connecting, up, disconnected, failed, closed, Peer, Channel,
  to_rejoin, Deadline, for_peer, for_return, Stages, Session, Effect, show_status, show_error,
  connection_stats, diagnostics, video, new_peer, telemetry, probe, probe_reply, Input, Outcome,
  ◌>>>◌, emit,
}
use laptop_as_a_second_monit.Viewer.Session.State.Methods.{
  phase, note, mark, live, reset_peer, send, is_open, includes, is_truthy, is_host, is_timed,
}

abbrev pub Attempt : Type 0
Attempt = Outcome × Bool

abbrev pub fine : Outcome → Attempt
fine o = (o, false)

abbrev pub throw : Session → Attempt
throw s = ((s, []), true)

-- What follows is done unless the attempt has thrown.
infixl 5 ◌>>?◌
unfoldable pub ◌>>?◌ : Attempt → (Session → Attempt) → Attempt
((s, es), threw) >>? f = elim threw [
  | true ↦ ((s, es), true)
  | false ↦ let ((t, more), threw') = f s in ((t, es ++ more), threw')
]

-- `sendState`
unfoldable pub send_state : Bool → Session → Outcome
send_state b s =
    if includes (codes "resume") s.features && is_truthy s.generation
    then send (λ g. state g b) s
    else (s, [])

abbrev pub is_cleared : Str → Bool
is_cleared name =
    str_eq name (codes "peerAvailableMs")
    || str_eq name (codes "sdpMs")
    || str_eq name (codes "iceMs")
    || str_eq name (codes "webrtcMs")
    || str_eq name (codes "firstVideoMs")
    || str_eq name (codes "iceDurationMs")

abbrev pub clear_stages : Session → Session
clear_stages s =
    let kept : Stages = record (s.stages) {
      times = filter (λ t. not (is_cleared t.0)) s.stages.times;
    } in
    record s { stages = kept; ice_started = none }

-- A new connection with its deadline and the statistics timer.
unfoldable pub make_peer : Session → Outcome
make_peer s = (
  record s {
    peer = some (record { id = s.next_id; connection = fresh; has_remote = false });
    next_id = s.next_id + 1;
    deadline = some (for_peer s.next_id);
    stats_timer = true;
  },
  new_peer s.next_id ∷ [],
)

unfoldable pub announce_peer : Input → Session → Outcome
announce_peer input s =
    note input (codes "negotiating (generation " ++ (take 8 s.generation ++ codes ")")) s
    >>> emit (show_status (codes "Establishing direct connection…"))

unfoldable pub send_local : Option Str → SdpType → Session → Attempt
send_local none t s = throw s
send_local (some sdp) t s = fine (send (λ g. relay (description t g sdp)) s)

-- The description that the browser makes is sent; without one the attempt throws.
unfoldable pub send_description : Input → SdpType → Session → Attempt
send_description input t s = send_local input.local_sdp t s

unfoldable pub offer_source : Input → Session → Attempt
offer_source input s =
    if s.stream
    then send_description input offer
        (record s { channel = some (record { is_open = false; buffered = 0 }) })
    else throw s

unfoldable pub create_peer : Input → Session → Attempt
create_peer input s =
    fine (
      reset_peer s
      >>> (λ t. mark input (codes "peerAvailableMs") (clear_stages t))
      >>> make_peer
      >>> announce_peer input)
    >>? (λ t. if is_host t.credentials then offer_source input t else fine (t, []))

abbrev pub direct_failure : Str
direct_failure =
    codes
      "Direct WebRTC connection failed.\nThis network may block peer-to-peer WebRTC traffic.\nTURN relay is not enabled."

abbrev pub label_failed : Session → Session
label_failed s =
    let labelled : Stages = record (s.stages) { label = some (codes "Failed") } in
    record s { stages = labelled }

-- `reconnectDirect`; `ice_state` is the text of the connection's ICE state.
unfoldable pub reconnect_direct : Input → Str → Session → Outcome
reconnect_direct input ice_state s =
    note input
      (codes "direct connection failed (ICE "
        ++ (ice_state ++ codes "); rejoining for a new negotiation"))
      s
    >>> emit (show_error direct_failure)
    >>> (λ t. phase busy (label_failed t))
    >>> emit diagnostics
    >>> (λ t. (record t { retry_timer = some (to_rejoin 3000) }, []))
