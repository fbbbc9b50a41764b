-- ===== src/Viewer/Dashboard/Panel.antt =====
-- `render` of viewer/src/dashboard.ts: the groups of labels and values.
use laptop_as_a_second_monit.Common.{
  ℕ, ◌-◌, Bool, true, false, ◌&&◌, not, Option, none, some, List, [], ◌∷◌, ◌++◌, Str, codes, ltb,
  if◌then◌else◌,
}
use laptop_as_a_second_monit.Protocol.Code.{to_upper_case}
use laptop_as_a_second_monit.Viewer.Dashboard.{
  Value, null, number, text, other, Metrics, Dashboard, member, is_text, is_truthy,
}

-- What the panel does with a double: `toFixed`, the quotient by a million, the percentage, the printing
-- of a template, and whether it is finite, or 0 or no number.
pub record Numbers (D : Type 0) : Type 0 where
  pub is_finite : D → Bool
  pub is_zero : D → Bool
  pub to_fixed : D → ℕ → Str
  pub millions : D → D
  pub percent : D → D
  pub to_text : D → Str

abbrev pub not_available : Str
not_available = codes "n/a"

-- A label and its value.
abbrev pub Row : Type 0
Row = Str × Str

abbrev pub Group : Type 0
Group = Str × List Row

module _ {D : Type 0} where
  -- `text(v)`
  abbrev pub text_of : Option (Value D) → Str
  text_of (some (text s)) = s
  text_of _ = not_available

  abbrev pub is_number : Option (Value D) → Bool
  is_number (some (number x)) = true
  is_number _ = false

  -- `typeof v === "number" ? f(v) : null`
  abbrev pub scaled : (D → D) → Option (Value D) → Option (Value D)
  scaled f (some (number x)) = some (number (f x))
  scaled f _ = none

  -- `v ?? text`, where the text is printed.
  abbrev pub or_text : Str → Option (Value D) → Option (Value D)
  or_text t none = some (text t)
  or_text t (some null) = some (text t)
  or_text t (some v) = some v

module _ {D : Type 0} (o : Numbers D) where
  -- `number(v, unit, digits)`
  abbrev pub number_of : Str → ℕ → Option (Value D) → Str
  number_of unit digits (some (number x)) =
      if o.is_finite x then o.to_fixed x digits ++ unit else not_available
  number_of unit digits _ = not_available

  -- A value in a template.
  abbrev pub printed : Option (Value D) → Str
  printed none = codes "undefined"
  printed (some null) = codes "null"
  printed (some (number x)) = o.to_text x
  printed (some (text s)) = s
  printed (some (other b s)) = s

  abbrev pub is_present : Option (Value D) → Bool
  is_present = is_truthy o.is_zero

  -- The candidates of both sides where both are texts.
  unfoldable pub route : Metrics D → Str
  route v = elim (member (codes "localCandidate") v) [
    | some (text here) ↦ elim (member (codes "remoteCandidate") v) [
      | some (text there) ↦ here ++ (codes " to " ++ there)
      | _ ↦ not_available
    ]
    | _ ↦ not_available
  ]

  unfoldable pub is_direct : Metrics D → Metrics D → Bool
  is_direct c v =
      let here = member (codes "localCandidate") v in
      let there = member (codes "remoteCandidate") v in
      is_text (member (codes "state") c) (codes "connected")
      && is_present here
      && is_present there
      && not (is_text here (codes "relay"))
      && not (is_text there (codes "relay"))

  unfoldable pub status : Metrics D → Metrics D → Str
  status c v =
      if is_direct c v
      then codes "Direct"
      else if is_text (member (codes "state") c) (codes "failed")
      then codes "Failed"
      else if is_text (member (codes "state") c) (codes "connected")
      then codes "Connected"
      else text_of (or_text (codes "Disconnected") (member (codes "label") c))

  unfoldable pub connection_rows : (upper : ℕ → Str) → Metrics D → Metrics D → List Row
  connection_rows upper c v =
      (codes "Status", status c v)
      ∷ (codes "Setup to video", number_of (codes " ms") 0 (member (codes "firstVideoMs") c))
      ∷ (codes "ICE", text_of (member (codes "ice") c))
      ∷ (codes "Route", route v)
      ∷ (codes "Protocol", to_upper_case upper (text_of (member (codes "protocol") v)))
      ∷ (codes "RTT", number_of (codes " ms") 1 (member (codes "rttMs") v))
      ∷ []

  unfoldable pub resolution : Metrics D → Str
  resolution v =
      let width = member (codes "width") v in
      let height = member (codes "height") v in
      if is_present width && is_present height
      then printed width ++ (codes "×" ++ printed height)
      else not_available

  -- The encoder's own value stands in where the browser reports none.
  unfoldable pub quantizer : Metrics D → Metrics D → Str
  quantizer v h =
      if is_number (member (codes "qp") v)
      then number_of [] 0 (member (codes "qp") v)
      else number_of [] 0 (member (codes "qp_mean") h)

  unfoldable pub video_rows : Metrics D → Metrics D → List Row
  video_rows v h =
      (codes "Resolution", resolution v)
      ∷ (codes "Frame rate", number_of (codes " FPS") 1 (member (codes "fps") v))
      ∷ (
        codes "Received",
        number_of (codes " Mbps") 1 (scaled o.millions (member (codes "bitrate") v)),
      )
      ∷ (codes "Codec", text_of (member (codes "codec") v))
      ∷ (codes "Packet loss", number_of (codes "%") 1 (scaled o.percent (member (codes "loss") v)))
      ∷ (codes "Jitter", number_of (codes " ms") 1 (member (codes "jitterMs") v))
      ∷ (codes "Frames dropped", number_of [] 0 (member (codes "framesDropped") v))
      ∷ (
        codes "Jitter buffer / decode",
        number_of [] 1 (member (codes "jitterBufferMs") v)
            ++ (codes " / " ++ (number_of [] 1 (member (codes "decodeMs") v) ++ codes " ms")),
      )
      ∷ (codes "Packet to frame", number_of (codes " ms") 1 (member (codes "processingMs") v))
      ∷ (codes "Freezes", number_of [] 0 (member (codes "freezes") v))
      ∷ (codes "Quantizer (blockiness)", quantizer v h)
      ∷ (codes "Undecoded frames", number_of [] 0 (member (codes "corrupted") v))
      ∷ (codes "Decoder", text_of (member (codes "decoder") v))
      ∷ (
        codes "NACK / PLI",
        number_of [] 0 (member (codes "nack") v)
            ++ (codes " / " ++ number_of [] 0 (member (codes "pli") v)),
      )
      ∷ []

  unfoldable pub stream_text : Metrics D → Str
  stream_text h =
      let fps = member (codes "stream_fps") h in
      let height = member (codes "stream_height") h in
      if is_number fps && is_number height
      then printed height ++ (codes "p at " ++ (printed fps ++ codes " FPS"))
      else not_available

  unfoldable pub host_rows : Metrics D → List Row
  host_rows h =
      (codes "Capture", number_of (codes " FPS") 1 (member (codes "capture_fps") h))
      ∷ (codes "Backend", text_of (member (codes "capture_backend") h))
      ∷ (codes "Encoder", text_of (member (codes "encoder") h))
      ∷ (codes "Encode", number_of (codes " ms") 1 (member (codes "encode_ms_mean") h))
      ∷ (codes "Stream", stream_text h)
      ∷ (
        codes "Bitrate / target",
        number_of [] 1 (scaled o.millions (member (codes "bitrate") h))
            ++ (codes " / "
                ++ number_of (codes " Mbps") 1
                    (scaled o.millions (member (codes "target_bitrate") h))),
      )
      ∷ (
        codes "Frame wait / present to encoded",
        number_of [] 1 (member (codes "acquire_delay_ms_mean") h)
            ++ (codes " / "
                ++ (number_of [] 1 (member (codes "source_to_encoded_ms_mean") h) ++ codes " ms")),
      )
      ∷ (
        codes "Encode p95 / p99",
        number_of [] 1 (member (codes "encode_ms_p95") h)
            ++ (codes " / " ++ (number_of [] 1 (member (codes "encode_ms_p99") h) ++ codes " ms")),
      )
      ∷ (codes "Video path", text_of (member (codes "video_path") h))
      ∷ (codes "GPU", text_of (member (codes "gpu") h))
      ∷ (codes "CPU (machine)", number_of (codes "%") 1 (member (codes "cpu_percent") h))
      ∷ (codes "Queue", number_of [] 0 (member (codes "queue_depth") h))
      ∷ []

  unfoldable pub stage_row : Metrics D → Str → Str → Row
  stage_row c label name = (label, number_of (codes " ms") 0 (member name c))

  unfoldable pub stage_rows : Metrics D → List Row
  stage_rows c =
      stage_row c (codes "Signaling authenticated") (codes "signalingMs")
      ∷ stage_row c (codes "Peer available") (codes "peerAvailableMs")
      ∷ stage_row c (codes "SDP applied") (codes "sdpMs")
      ∷ stage_row c (codes "ICE connected") (codes "iceMs")
      ∷ stage_row c (codes "WebRTC ready") (codes "webrtcMs")
      ∷ stage_row c (codes "First presented frame") (codes "firstVideoMs")
      ∷ stage_row c (codes "ICE duration") (codes "iceDurationMs")
      ∷ []

  unfoldable pub panel : (upper : ℕ → Str) → (connection receiver host : Metrics D) → List Group
  panel upper c v h =
      (codes "Connection", connection_rows upper c v)
      ∷ (codes "Video", video_rows v h)
      ∷ (codes "Host pipeline", host_rows h)
      ∷ (codes "Connection stages", stage_rows c)
      ∷ []

  -- The host's numbers, unless they are old.
  abbrev pub recent : (now : ℕ) → Dashboard D → Metrics D
  recent now d = if ltb (now - d.host_at) 3500 then d.host else []

  unfoldable pub render : (upper : ℕ → Str) → (now : ℕ) → Dashboard D → List Group
  render upper now d = panel upper d.connection d.receiver (recent now d)
