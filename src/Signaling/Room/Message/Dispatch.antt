-- ===== src/Signaling/Room/Message/Dispatch.antt =====
-- The messages of a peer, and `webSocketMessage` of signaling/src/index.ts. `JSON.parse` is an argument.
use laptop_as_a_second_monit.Common.{
  ℕ, ◌+◌, ◌-◌, Bool, true, false, Option, none, some, List, [], ◌∷◌, Str, codes, str_eq, length,
  ltb, if◌then◌else◌, map,
}
use laptop_as_a_second_monit.Protocol.Json.{Json}
use laptop_as_a_second_monit.Protocol.Message.{
  max_message, Role, host, viewer, offer, answer, Relay, description, ice, CodeRegistration,
  ClientMessage, auth_host, auth_viewer, register_codes, kick, state, relay, relayed, kicked,
}
use laptop_as_a_second_monit.Protocol.Parse.{parse_client, ok, err}
use laptop_as_a_second_monit.Protocol.Hex.{Digest}
use laptop_as_a_second_monit.Signaling.Room.State.{
  Attachment, Stored, Socket, Room, Effect, send, close, register, Input, Outcome, has_role, peers,
  attachment_of, attach, revoke, fail, broadcast,
}
use laptop_as_a_second_monit.Signaling.Room.Message.{authenticate}

unfoldable pub registrations : Str → List CodeRegistration → List Effect
registrations room [] = []
registrations room (c ∷ cs) = register c.hash room c.ttl_ms ∷ registrations room cs

abbrev pub store_code : ℕ → CodeRegistration → Stored
store_code now c = record { hash = c.hash; expires = now + c.ttl_ms }

unfoldable pub set_codes : ℕ → List CodeRegistration → Room → Outcome
unfolding registrations
set_codes now cs r = (record r { codes = some (map (store_code now) cs) }, registrations r.name cs)

-- `generation === await storage.get("generation")`
abbrev pub is_same : Str → Option Str → Bool
is_same g none = false
is_same g (some h) = str_eq g h

abbrev pub is_current : Str → Room → Bool
is_current g r = is_same g r.generation

unfoldable pub set_live : ℕ → Attachment → Str → Bool → Room → Room
set_live i a g live r =
    if is_current g r
    then record r {
      sockets = attach i (record a { live = if live then some g else none }) r.sockets;
    }
    else r

unfoldable pub kick_effects : List Socket → List Effect
kick_effects [] = []
kick_effects (s ∷ ss) = send s.id kicked ∷ close s.id 1000 (codes "kicked") ∷ kick_effects ss

unfoldable pub kick_viewers : Room → Outcome
unfolding kick_effects
kick_viewers r = (
  record r {
    viewer_token = none;
    tickets = none;
    generation = none;
    sockets = revoke viewer r.sockets;
  },
  kick_effects (peers viewer r.sockets),
)

abbrev pub relay_generation : Relay → Str
relay_generation (description t g s) = g
relay_generation (ice g c m) = g

-- Who may send it: an offer is the host's and an answer the viewer's.
abbrev pub may_relay : Relay → Option Role → Bool
may_relay (description offer g s) role = has_role host role
may_relay (description answer g s) role = has_role viewer role
may_relay (ice g c m) role = true

abbrev pub other_side : Option Role → Role
other_side role = if has_role host role then viewer else host

unfoldable pub relay_message : ℕ → Attachment → Relay → Room → Outcome
relay_message i a m r =
    if may_relay m a.role
    then if is_current (relay_generation m) r
      then (r, broadcast (relayed m) (peers (other_side a.role) r.sockets))
      else (r, [])
    else (r, fail i (codes "role"))

unfoldable pub peer_message : ℕ → ℕ → Attachment → ClientMessage → Room → Outcome
peer_message now i a (auth_host secret live) r = (r, fail i (codes "role"))
peer_message now i a (auth_viewer ticket token live) r = (r, fail i (codes "role"))
peer_message now i a (register_codes cs) r =
    if has_role host a.role then set_codes now cs r else (r, fail i (codes "role"))
peer_message now i a (state g live) r = (set_live i a g live r, [])
peer_message now i a kick r =
    if has_role host a.role then kick_viewers r else (r, fail i (codes "role"))
peer_message now i a (relay m) r = relay_message i a m r

-- A frame's payload.
pub data Payload : Type 0 where
  text : Str → Payload
  binary : Payload

-- The attachment after one more message: at most 120 in ten seconds are read.
unfoldable pub count_message : ℕ → Attachment → Attachment
count_message now a =
    if ltb 10000 (now - a.window)
    then record a { window = now; count = 1 }
    else record a { count = a.count + 1 }

unfoldable pub admit_message : ℕ → Attachment → Option Attachment
unfolding count_message
admit_message now a = let b = count_message now a in if ltb 120 b.count then none else some b

unfoldable pub dispatch : Digest → Input → ℕ → Attachment → ClientMessage → Room → Outcome
dispatch digest input i a m r =
    if a.is_authenticated then peer_message input.now i a m r else authenticate digest input i a m r

-- A message that is not one too many.
unfoldable pub parse_message :
    (Str → Option Json) → Digest → Input → ℕ → Attachment → Str → Room → Outcome
parse_message json_parse digest input i b raw r =
    let r' = record r { sockets = attach i b r.sockets } in
    elim (parse_client json_parse raw) [
      | err e ↦ (r', fail i (codes "malformed"))
      | ok m ↦ dispatch digest input i b m r'
    ]

unfoldable pub read_message :
    (Str → Option Json) → Digest → Input → ℕ → Attachment → Str → Room → Outcome
read_message json_parse digest input i a raw r =
    if ltb max_message (length raw)
    then (r, fail i (codes "malformed"))
    else elim (admit_message input.now a) [
      | none ↦ (r, fail i (codes "rate-limit"))
      | some b ↦ parse_message json_parse digest input i b raw r
    ]

-- `typeof raw !== "string"` comes first.
unfoldable pub read_payload :
    (Str → Option Json) → Digest → Input → ℕ → Attachment → Payload → Room → Outcome
read_payload json_parse digest input i a binary r = (r, fail i (codes "malformed"))
read_payload json_parse digest input i a (text raw) r =
    read_message json_parse digest input i a raw r

-- A message of a socket that the runtime no longer lists does not arrive.
unfoldable pub web_socket_message :
    (Str → Option Json) → Digest → Input → ℕ → Payload → Room → Outcome
web_socket_message json_parse digest input i payload r = elim (attachment_of i r.sockets) [
  | none ↦ (r, [])
  | some a ↦ read_payload json_parse digest input i a payload r
]
