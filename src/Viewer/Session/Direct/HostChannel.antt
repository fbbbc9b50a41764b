-- ===== src/Viewer/Session/Direct/HostChannel.antt =====
-- The telemetry channel of viewer/src/session.ts: `sendToHost`, the statistics, and the requests of the host.
use laptop_as_a_second_monit.Common.{
  ℕ, Bool, ◌&&◌, Option, none, some, List, [], ◌∷◌, Str, codes, ltb, leb, length, if◌then◌else◌,
}
use laptop_as_a_second_monit.Protocol.Json.{
  Json, Members, Number, whole, null, number, object, get, is_text,
}
use laptop_as_a_second_monit.Viewer.Session.State.{
  Channel, Session, Effect, diagnostics, telemetry, probe, probe_reply, Outcome, ◌>>>◌, emit,
}
use laptop_as_a_second_monit.Viewer.Session.Direct.Handlers.{is_peer}

abbrev pub to_channel : Effect → Option Channel → List Effect
to_channel e none = []
to_channel e (some c) = if c.is_open && ltb c.buffered 16384 then e ∷ [] else []

-- `sendToHost`
unfoldable pub send_to_host : Effect → Session → Outcome
send_to_host e s = (s, to_channel e s.channel)

-- A sample of the statistics of a peer connection has been taken.
unfoldable pub on_sample : ℕ → Session → Outcome
on_sample i s =
    if is_peer i s.peer
    then emit diagnostics s >>> (λ t. send_to_host (telemetry t.events) t)
    else (s, [])

-- The size of a grid that the host may ask for.
unfoldable pub valid_size : Option Json → ℕ → Option ℕ
valid_size (some (number (whole n))) most = if ltb 0 n && leb n most then some n else none
valid_size _ most = none

abbrev pub number_of : Option Json → Option Number
number_of (some (number n)) = some n
number_of _ = none

unfoldable pub read_probe : Members → Option Effect
read_probe m = elim (number_of (get (codes "id") m)) [
  | none ↦ none
  | some id ↦ elim (number_of (get (codes "rtp") m)) [
    | none ↦ none
    | some rtp ↦
        if is_text (get (codes "type") m) (codes "probe-request")
        then some (
            probe id rtp (valid_size (get (codes "cols") m) 480)
              (valid_size (get (codes "rows") m) 270))
        else none
  ]
]

abbrev pub request_or_diagnostics : Option Effect → List Effect
request_or_diagnostics none = diagnostics ∷ []
request_or_diagnostics (some e) = e ∷ []

-- Taking a property of `null` throws, so that nothing is done.
abbrev pub channel_effects : Json → List Effect
channel_effects null = []
channel_effects (object m) = request_or_diagnostics (read_probe m)
channel_effects _ = diagnostics ∷ []

-- `channel.onmessage` for a text.
unfoldable pub on_channel_message : (Str → Option Json) → Str → Session → Outcome
on_channel_message json_parse raw s =
    if leb 8192 (length raw)
    then (s, [])
    else elim (json_parse raw) [ none ↦ (s, []) | some v ↦ (s, channel_effects v) ]

-- The page has answered a probe: with a grid, or not.
unfoldable pub on_probe : (id : Number) (is_found : Bool) → Session → Outcome
on_probe id is_found s = send_to_host (probe_reply id is_found) s
