-- ===== src/Protocol/Message.antt =====
-- The constants and the message types of shared/protocol.ts. An optional field is an `Option`.
use laptop_as_a_second_monit.Common.{ℕ, ◌*◌, Bool, Option, List, [], ◌∷◌, Str, codes}

abbrev pub max_message : ℕ
max_message = 24 * 1024

abbrev pub protocol_version : ℕ
protocol_version = 2

abbrev pub code_length : ℕ
code_length = 6

abbrev pub features : List Str
features = codes "resume" ∷ codes "heartbeat" ∷ []

abbrev pub heartbeat : Str
heartbeat = codes "ping"

abbrev pub heartbeat_reply : Str
heartbeat_reply = codes "pong"

abbrev pub code_lifetime_ms : ℕ
code_lifetime_ms = 135000

abbrev pub max_codes : ℕ
max_codes = 2

abbrev pub max_code_ttl_ms : ℕ
max_code_ttl_ms = 10 * 60000

pub data Role : Type 0 where
  host viewer : Role

pub data SdpType : Type 0 where
  offer answer : SdpType

pub data Relay : Type 0 where
  description : SdpType → (generation sdp : Str) → Relay
  ice : (generation candidate mid : Str) → Relay

pub record CodeRegistration : Type 0 where
  pub hash : Str
  pub ttl_ms : ℕ

pub data PairResponse : Type 0 where
  paired : (room ticket : Str) → PairResponse
  pair_error : Str → PairResponse

pub data ClientMessage : Type 0 where
  auth_host : (secret : Str) (live : Option Str) → ClientMessage
  auth_viewer : (ticket token live : Option Str) → ClientMessage
  register_codes : List CodeRegistration → ClientMessage
  kick : ClientMessage
  state : (generation : Str) (live : Bool) → ClientMessage
  relay : Relay → ClientMessage

pub data ServerMessage : Type 0 where
  relayed : Relay → ServerMessage
  ready : (generation : Str) (resume : Bool) → ServerMessage
  authenticated : Role → (token room : Option Str) (announced : List Str) → ServerMessage
  peer_left : ServerMessage
  kicked : ServerMessage
  error : Str → ServerMessage
