-- ===== src/Viewer/Session/State.antt =====
-- What a `Session` of viewer/src/session.ts keeps, and what its steps read and do. A step returns the new
-- session and what it does, in order. Sockets and peer connections are named by numbers.
pub mod Methods
unfoldable pub use laptop_as_a_second_monit.Common.{◌>>>◌, emit}
use laptop_as_a_second_monit.Common.{
  Steps, ℕ, ◌+◌, ◌-◌, ◌*◌, ◌^◌, Bool, true, false, Option, none, some, List, [], ◌∷◌, ◌++◌, Str,
  str_eq, length, take, any, ltb, if◌then◌else◌, min,
}
use laptop_as_a_second_monit.Protocol.Json.{Number}
use laptop_as_a_second_monit.Protocol.Message.{ClientMessage, SdpType}

pub data Credentials : Type 0 where
  by_code : (code : Str) → Credentials
  by_token : (room token : Str) → Credentials
  as_host : (room secret code : Str) → Credentials

pub data Phase : Type 0 where
  pairing busy connected : Phase

-- `RTCPeerConnectionState`; the names are the source's.
pub data Connection : Type 0 where
  fresh connecting up disconnected failed closed : Connection

-- `readyState`: CONNECTING, OPEN, and CLOSING or CLOSED.
pub data Ready : Type 0 where
  opening ready gone : Ready

pub record Socket : Type 0 where
  pub id : ℕ
  pub ready : Ready

pub record Peer : Type 0 where
  pub id : ℕ
  pub connection : Connection
  pub has_remote : Bool

pub record Channel : Type 0 where
  pub is_open : Bool
  pub buffered : ℕ

pub record Candidate : Type 0 where
  pub candidate : Str
  pub mid : Str

pub record ReceiverEvent : Type 0 where
  pub id : ℕ
  pub at : ℕ
  pub text : Str

-- What the retry timer does when it is due.
pub data Retry : Type 0 where
  to_start : (delay : ℕ) → Retry
  to_rejoin : (delay : ℕ) → Retry

-- What the deadline timer does: it looks at the peer that it was set for, or not.
pub data Deadline : Type 0 where
  for_peer : ℕ → Deadline
  for_return : Deadline

pub record Stages : Type 0 where
  pub label : Option Str
  pub times : List (Str × ℕ)

-- A timer that is not set is `none` or `false`; `next_id` names the next socket or peer connection.
-- `stream` is whether the test host has a source; `reachable` whether `signalingUrl` accepts the server.
pub record Session : Type 0 where
  pub credentials : Credentials
  pub reachable : Bool
  pub stream : Bool
  pub socket : Option Socket
  pub peer : Option Peer
  pub channel : Option Channel
  pub generation : Str
  pub pending : List Candidate
  pub stopped : Bool
  pub retry : ℕ
  pub retry_timer : Option Retry
  pub deadline : Option Deadline
  pub stats_timer : Bool
  pub heartbeat_timer : Option ℕ
  pub last_heard : ℕ
  pub features : List Str
  pub started : ℕ
  pub stages : Stages
  pub ice_started : Option ℕ
  pub room : Option Str
  pub token : Option Str
  pub last_phase : Option Phase
  pub events : List ReceiverEvent
  pub event_id : ℕ
  pub last_candidate_error : Str
  pub next_id : ℕ

pub data Effect : Type 0 where
  show_status show_error ended thrown : Str → Effect
  show_phase : Phase → Effect
  paired : (room : Option Str) (token : Str) → Effect
  connection_stats : (reset_peer : Bool) → Effect
  diagnostics : Effect
  video : ℕ → Effect
  request_pair : (code : Str) (attempt : ℕ) → Effect
  connect : ℕ → (room : Option Str) (ticket : Option Str) → Effect
  transmit : ℕ → ClientMessage → Effect
  ping disconnect : ℕ → Effect
  new_peer close_peer : ℕ → Effect
  set_remote : ℕ → SdpType → (sdp : Str) → Effect
  add_candidate : ℕ → Candidate → Effect
  telemetry : List ReceiverEvent → Effect
  probe : (id rtp : Number) (cols rows : Option ℕ) → Effect
  probe_reply : (id : Number) (is_found : Bool) → Effect
  mark_seen : (rtp : Option ℕ) → Effect
  stop_tracks : Effect

-- `performance.now()`, `Date.now()`, and what the browser answers: the session description that it
-- makes (`none` where that fails), whether it accepts a remote one, and which candidates it accepts.
pub record Input : Type 0 where
  pub now : ℕ
  pub wall : ℕ
  pub local_sdp : Option Str
  pub remote_ok : Bool
  pub accepts : Candidate → Bool
  pub code_hash : Str

abbrev pub Outcome : Type 0
Outcome = Steps Session Effect

abbrev pub event_ring : ℕ
event_ring = 12
