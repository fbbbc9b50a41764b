-- ===== src/Signaling/Room/Message.antt =====
-- `startGeneration` of signaling/src/index.ts, and what `webSocketMessage` does with "auth". SHA-256 is
-- an argument. A handler runs as one step; what it reads from the clock and from the random source is
-- its input.
pub mod Dispatch
pub mod Generation
pub mod Rate
pub mod Granted
pub mod Silent
pub mod Relaying
pub mod Journey
use laptop_as_a_second_monit.Common.{
  ℕ, ◌+◌, ◌-◌, Bool, true, false, ◌&&◌, ◌||◌, not, Option, none, some, List, [], ◌∷◌, ◌++◌, Str,
  codes, str_eq, length, ltb, leb, if◌then◌else◌, map, ◌==◌,
}
use laptop_as_a_second_monit.Protocol.Json.{Json}
use laptop_as_a_second_monit.Protocol.Message.{
  max_message, features, Role, host, viewer, SdpType, offer, answer, Relay, description, ice,
  CodeRegistration, ClientMessage, auth_host, auth_viewer, register_codes, kick, state, relay,
  ServerMessage, relayed, ready, authenticated, peer_left, kicked, error,
}
use laptop_as_a_second_monit.Protocol.Parse.{parse_client, ok, err}
use laptop_as_a_second_monit.Protocol.Hex.{Digest, sha256_hex, room_for_secret}
use laptop_as_a_second_monit.Signaling.Hash.{timing_safe_equal_hex}
use laptop_as_a_second_monit.Signaling.Room.State.{
  token_ttl, Attachment, Stored, Socket, Room, Effect, send, close, register, Input, Outcome,
  same_role, has_role, is_peer, peers, all_peers, is_empty, attachment_of, attach, revoke, fail,
  broadcast,
}
use laptop_as_a_second_monit.Signaling.Room.Pairing.{
  throttled, pairing_failure, consume_ticket, token_valid,
}

-- `live(w) === current`
abbrev pub is_held : Str → Option Str → Bool
is_held g none = false
is_held g (some l) = str_eq l g

abbrev pub holds : Str → Socket → Bool
holds g s = is_held g s.attachment.live

-- Truthiness of a string.
abbrev pub is_truthy : Str → Bool
is_truthy [] = false
is_truthy (_ ∷ _) = true

-- The generation that both peers still hold, of one host and one viewer.
unfoldable pub resumable : Option Str → Socket → Socket → Bool
resumable none h v = false
resumable (some g) h v = is_truthy g && holds g h && holds g v

unfoldable pub begin_generation : Input → Room → Socket → Socket → Outcome
begin_generation input r h v =
    if resumable r.generation h v
    then (
      r,
      elim r.generation [ none ↦ [] | some g ↦ broadcast (ready g true) (all_peers r.sockets) ],
    )
    else (
      record r { generation = some input.random_uuid },
      broadcast (ready input.random_uuid false) (all_peers r.sockets),
    )

-- Only where there is exactly one host and exactly one viewer.
abbrev pub pair_up : List Socket → List Socket → Option (Socket × Socket)
pair_up (h ∷ []) (v ∷ []) = some (h, v)
pair_up _ _ = none

unfoldable pub start_generation : Input → Room → Outcome
start_generation input r = elim (pair_up (peers host r.sockets) (peers viewer r.sockets)) [
  | none ↦ (r, [])
  | some (h, v) ↦ begin_generation input r h v
]

-- The socket is a peer from now on.
unfoldable pub enrol : ℕ → Attachment → Role → Option Str → Room → Room
enrol i a role live r = record r {
  sockets =
      attach i (record a { is_authenticated = true; role = some role; live = live }) r.sockets;
}

abbrev pub after : List Effect → Outcome → Outcome
after sent (r, more) = (r, sent ++ more)

-- A restarted host replaces the one that is there.
unfoldable pub closings : Str → List Socket → List Effect
closings reason [] = []
closings reason (s ∷ ss) = close s.id 1000 reason ∷ closings reason ss

unfoldable pub auth_as_host : Digest → Input → ℕ → Attachment → Str → Option Str → Room → Outcome
unfolding enrol closings
auth_as_host digest input i a secret live r =
    if timing_safe_equal_hex (room_for_secret digest secret) r.name
    then after
        (closings (codes "replaced") (peers host r.sockets)
          ++ send i (authenticated host none none features) ∷ [])
        (start_generation input
          (enrol i a host live (record r { sockets = revoke host r.sockets })))
    else (r, fail i (codes "authentication"))

unfoldable pub present_token : Digest → ℕ → Option Str → Room → Bool
present_token digest now none r = false
present_token digest now (some t) r = is_truthy t && token_valid digest now t r

-- The ticket if there is one, or else the token.
unfoldable pub present : Digest → ℕ → Option Str → Option Str → Room → Room × Bool
unfolding present_token
present digest now none token r = (r, present_token digest now token r)
present digest now (some t) token r =
    if is_truthy t then consume_ticket digest now t r else (r, present_token digest now token r)

unfoldable pub admit_viewer : Digest → Input → ℕ → Attachment → Option Str → Room → Outcome
unfolding enrol
admit_viewer digest input i a live r =
    let token : Stored = record {
      hash = sha256_hex digest input.random_hex;
      expires = input.now + token_ttl;
    } in
    let r' = enrol i a viewer live r in
    after (send i (authenticated viewer (some input.random_hex) (some r.name) features) ∷ [])
      (start_generation input (record r' { viewer_token = some token }))

unfoldable pub auth_as_viewer :
    Digest → Input → ℕ → Attachment → Option Str → Option Str → Option Str → Room → Outcome
auth_as_viewer digest input i a ticket token live r =
    let (r', valid) = present digest input.now ticket token r in
    let (r'', throttle) = pairing_failure input.now r' in
    if throttled input.now r
    then (r, fail i (codes "rate-limit"))
    else if is_empty (peers host r.sockets)
    then (r, fail i (codes "host-unavailable"))
    else if not valid
    then (r'', fail i (if throttle then codes "rate-limit" else codes "authentication"))
    else if is_empty (peers viewer r'.sockets)
    then admit_viewer digest input i a live r'
    else (r', fail i (codes "viewer-occupied"))

unfoldable pub authenticate : Digest → Input → ℕ → Attachment → ClientMessage → Room → Outcome
authenticate digest input i a (auth_host secret live) r =
    if ltb a.deadline input.now
    then (r, fail i (codes "authentication"))
    else auth_as_host digest input i a secret live r
authenticate digest input i a (auth_viewer ticket token live) r =
    if ltb a.deadline input.now
    then (r, fail i (codes "authentication"))
    else auth_as_viewer digest input i a ticket token live r
authenticate digest input i a _ r = (r, fail i (codes "authentication"))
