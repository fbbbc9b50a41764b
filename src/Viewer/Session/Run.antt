-- ===== src/Viewer/Session/Run.antt =====
-- A run of a session of viewer/src/session.ts: what the page, the timers, the signaling socket, the peer
-- connection and the telemetry channel bring, in any order.
use laptop_as_a_second_monit.Common.{ℕ, Bool, Option, some, List, [], ◌∷◌, Str, codes}
use laptop_as_a_second_monit.Protocol.Json.{Json, Number}
use laptop_as_a_second_monit.Protocol.Message.{PairResponse}
use laptop_as_a_second_monit.Viewer.Session.State.{
  Connection, Channel, Session, Input, Outcome, ◌>>>◌,
}
use laptop_as_a_second_monit.Viewer.Session.State.Methods.{mark, stop}
use laptop_as_a_second_monit.Viewer.Session.Signals.{
  start, on_pair_response, on_open, on_error, on_close, on_heartbeat, on_retry,
}
use laptop_as_a_second_monit.Viewer.Session.Direct.Handlers.{
  on_connection_state, on_deadline, on_ice_state, on_candidate_error, on_candidate, on_track,
}
use laptop_as_a_second_monit.Viewer.Session.Direct.HostChannel.{
  on_sample, on_channel_message, on_probe,
}
use laptop_as_a_second_monit.Viewer.Session.Messages.{Frame, on_message}

-- `ice_state` is the text of the ICE state of the connection, `why` an error's text.
pub data Event : Type 0 where
  starts stops presents retries beats fails : Event
  pairs : (attempt : ℕ) → Option PairResponse → Event
  opens : ℕ → (ticket : Option Str) → Event
  closes : ℕ → (details : Str) → Event
  receives : ℕ → (why : Str) → Frame → Event
  connects : ℕ → (ice_state : Str) → Connection → Event
  expires : (ice_state : Str) → Event
  checks : ℕ → (ice_state : Str) → Event
  misses : (text : Str) → Event
  finds : ℕ → Option (Str × Option Str) → Event
  plays samples : ℕ → Event
  channels : Channel → Event
  hears : Str → Event
  probes : (id : Number) (is_found : Bool) → Event

unfoldable pub step : (Str → Option Json) → Input → Event → Session → Outcome
step json_parse input starts s = start input s
step json_parse input stops s = stop s
step json_parse input presents s = mark input (codes "firstVideoMs") s
step json_parse input retries s = on_retry input s
step json_parse input beats s = on_heartbeat input s
step json_parse input fails s = on_error s
step json_parse input (pairs attempt answer) s = on_pair_response attempt answer s
step json_parse input (opens i ticket) s = on_open i ticket s
step json_parse input (closes i details) s = on_close input i details s
step json_parse input (receives i why frame) s = on_message input i why frame s
step json_parse input (connects i ice_state c) s = on_connection_state input i ice_state c s
step json_parse input (expires ice_state) s = on_deadline input ice_state s
step json_parse input (checks i ice_state) s = on_ice_state input i ice_state s
step json_parse input (misses text) s = on_candidate_error input text s
step json_parse input (finds i c) s = on_candidate i c s
step json_parse input (plays i) s = on_track i s
step json_parse input (samples i) s = on_sample i s
step json_parse input (channels c) s = (record s { channel = some c }, [])
step json_parse input (hears raw) s = on_channel_message json_parse raw s
step json_parse input (probes id is_found) s = on_probe id is_found s

unfoldable pub run : (Str → Option Json) → List (Input × Event) → Session → Outcome
run json_parse [] s = (s, [])
run json_parse ((input, e) ∷ es) s = step json_parse input e s >>> run json_parse es
